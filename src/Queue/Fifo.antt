-- ===== src/Queue/Fifo.antt =====
-- src/network-queue.c: the queue is a sequence of bytes, and a chunk is appended at its end.
use cetus.Common.{
  ℕ, ◌+◌, ◌-◌, ◌≤◌, ◌<◌, ◌^◌, ◌≡◌, refl, sym, ◌∙◌, ap, arith, List, [], ◌∷◌, ◌++◌, append-nil,
  append_assoc, length, take, drop, length-append, length-drop,
}
use cetus.Queue.Stream.{sub64, NetworkQueue, network_queue_append, we_have}
use cetus.Queue.Cuts.{take-append_left, drop-append_left, take-append_right, drop-append_right}

abbrev pub flat : List (List ℕ) → List ℕ
flat [] = []
flat (chunk ∷ chunks) = chunk ++ flat chunks

-- The bytes that are in the queue.
abbrev pub contents : NetworkQueue → List ℕ
contents queue = drop queue.offset (flat queue.chunks)

-- The offset is in the first chunk, or at its end.
abbrev pub OffsetFits : ℕ → List (List ℕ) → Type 0
OffsetFits offset [] = offset ≡ 0
OffsetFits offset (chunk ∷ chunks) = offset ≤ length chunk

-- `len` counts the bytes, all chunks together fit a size_t, and the offset is in the first chunk.
pub record IsValid (queue : NetworkQueue) : Type 0 where
  pub counted : queue.len ≡ length (contents queue)
  pub small : length (flat queue.chunks) < 2 ^ 64
  pub in_first : OffsetFits queue.offset queue.chunks

flat-append : (chunks : List (List ℕ)) (s : List ℕ) → flat (chunks ++ s ∷ []) ≡ flat chunks ++ s
flat-append [] s = append-nil s
flat-append (chunk ∷ chunks) s =
    ap (◌++◌ chunk) (flat-append chunks s) ∙ sym (append_assoc chunk (flat chunks) s)

offset_within :
    (offset : ℕ) (chunks : List (List ℕ)) → OffsetFits offset chunks → offset ≤ length (flat chunks)
offset_within offset [] h = omega arith
offset_within offset (chunk ∷ chunks) h = omega (arith, length-append chunk (flat chunks))

OffsetFits-append :
    (offset : ℕ) (chunks : List (List ℕ)) (s : List ℕ)
    → OffsetFits offset chunks
    → OffsetFits offset (chunks ++ s ∷ [])
OffsetFits-append offset [] s h = omega arith
OffsetFits-append offset (chunk ∷ chunks) s h = h

-- Appending a chunk to a valid queue appends its bytes and keeps the queue valid, if all chunks
-- together still fit a size_t.
pub network_queue_append_lem :
    (queue : NetworkQueue) (s : List ℕ)
    → IsValid queue
    → length (flat queue.chunks) + length s < 2 ^ 64
    → (contents (network_queue_append queue s) ≡ contents queue ++ s)
      × IsValid (network_queue_append queue s)
unfolding network_queue_append
network_queue_append_lem queue s v h =
    let whole = flat-append queue.chunks s in
    let grown : contents (network_queue_append queue s) ≡ contents queue ++ s =
      ap (drop queue.offset) whole
      ∙ drop-append_left queue.offset (flat queue.chunks) s (offset_within _ _ v.in_first) in
    (
      grown,
      record {
        counted = rw grown (
            ground (
              arith,
              length-append (contents queue) s,
              v.counted,
              v.small,
              length-drop queue.offset (flat queue.chunks),
            ));
        small = rw whole (omega (arith, length-append (flat queue.chunks) s));
        in_first = OffsetFits-append queue.offset queue.chunks s v.in_first;
      },
    )

pub sub64_sub : (a b : ℕ) → b ≤ a → a < 2 ^ 64 → sub64 a b ≡ a - b
sub64_sub a b h small = omega arith

pub sub64_self : (a : ℕ) → a < 2 ^ 64 → sub64 a a ≡ 0
sub64_self a small = omega arith

pub fits_zero : (chunks : List (List ℕ)) → OffsetFits 0 chunks
fits_zero [] = refl
fits_zero (chunk ∷ chunks) = omega arith

-- How much of a chunk is taken: all that is left of it, or what is wanted.
module _ (offset : ℕ) (chunk : List ℕ) (fits : offset ≤ length chunk)
    (small : length chunk < 2 ^ 64) (n : ℕ) where
  pub we_have-some : n ≤ length chunk - offset → we_have n offset chunk ≡ n
  we_have-some h = ground arith

  pub we_have-all : length chunk - offset ≤ n → we_have n offset chunk ≡ length (drop offset chunk)
  we_have-all h = ground (arith, length-drop offset chunk)

  -- The bytes of the first chunk and of the rest.
  pub first_and_rest : (rest : List ℕ) → drop offset (chunk ++ rest) ≡ drop offset chunk ++ rest
  first_and_rest rest = drop-append_left offset chunk rest fits

  pub take-some :
      (rest : List ℕ)
      → n ≤ length chunk - offset
      → take n (drop offset (chunk ++ rest)) ≡ take n (drop offset chunk)
  take-some rest h =
      rw (first_and_rest rest)
        (take-append_left n (drop offset chunk) rest (omega (arith, length-drop offset chunk)))

  parts :
      length chunk - offset ≤ n → n ≡ length (drop offset chunk) + (n - length (drop offset chunk))
  parts h = omega (arith, length-drop offset chunk)

  pub take-all_of :
      (rest : List ℕ)
      → length chunk - offset ≤ n
      → take n (drop offset (chunk ++ rest))
        ≡ drop offset chunk ++ take (n - length (drop offset chunk)) rest
  take-all_of rest h =
      ap (λ k. take k (drop offset (chunk ++ rest))) (parts h)
      ∙ rw (first_and_rest rest) (take-append_right _ (drop offset chunk) rest)

  pub drop-all_of :
      (rest : List ℕ)
      → length chunk - offset ≤ n
      → drop n (drop offset (chunk ++ rest)) ≡ drop (n - length (drop offset chunk)) rest
  drop-all_of rest h =
      ap (λ k. drop k (drop offset (chunk ++ rest))) (parts h)
      ∙ rw (first_and_rest rest) (drop-append_right _ (drop offset chunk) rest)
