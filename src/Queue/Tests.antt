-- ===== src/Queue/Tests.antt =====
-- src/network-queue.c: runs on a queue of two chunks.
use cetus.Common.{◌+◌, ◌<◌, ◌≤◌, ◌≡◌, refl, arith, none, some, [], ◌∷◌, ◌⊎◌}
use cetus.Queue.Stream.{
  NetworkQueue, network_queue_append, Buffer, got, network_queue_peek_str, network_queue_pop_str,
}
use cetus.Queue.Fifo.{contents, IsValid, network_queue_append_lem}
use cetus.Queue.Peek.{network_queue_peek_str_lem}
use cetus.Queue.Pop.{Pops, network_queue_pop_str_lem}

-- The byte 9 is read already.
abbrev two_chunks : NetworkQueue
two_chunks = record { chunks = (9 ∷ 1 ∷ 2 ∷ []) ∷ (3 ∷ 4 ∷ []) ∷ []; len = 4; offset = 1 }

two_chunks-IsValid : IsValid two_chunks
two_chunks-IsValid = record { counted = refl; small = omega arith; in_first = omega arith }

network_queue_append_lem_example :
    (contents (network_queue_append two_chunks (5 ∷ [])) ≡ 1 ∷ 2 ∷ 3 ∷ 4 ∷ 5 ∷ [])
    × IsValid (network_queue_append two_chunks (5 ∷ []))
network_queue_append_lem_example =
    network_queue_append_lem two_chunks (5 ∷ []) two_chunks-IsValid (omega arith)

-- Three bytes span both chunks.
network_queue_peek_str_lem_example :
    network_queue_peek_str (λ n. n + 1) two_chunks 3 none ≡ got (1 ∷ 2 ∷ 3 ∷ [])
network_queue_peek_str_lem_example =
    network_queue_peek_str_lem (λ n. n + 1) two_chunks 3 none two_chunks-IsValid (λ m. omega arith)
      (λ e. omega arith) (λ buffer e. absurd (no_buffer e))
  where
    no_buffer : {buffer : Buffer} → none ≡ some buffer → ⊥
    no_buffer e = cc

network_queue_pop_str_lem_example :
    ((4 < 3) × (network_queue_pop_str two_chunks 3 none ≡ (none, two_chunks)))
    ⊎ ((3 ≤ 4) × Pops (network_queue_pop_str two_chunks 3 none) (1 ∷ 2 ∷ 3 ∷ []) (4 ∷ []))
network_queue_pop_str_lem_example =
    network_queue_pop_str_lem two_chunks 3 none two_chunks-IsValid (omega arith)
