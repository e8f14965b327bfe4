-- ===== src/Queue/Stream.antt =====
-- src/network-queue.c and .h: chunks of bytes, read from the front.
use cetus.Common.{
  ℕ, zero, suc, ◌+◌, ◌-◌, ◌%◌, ◌^◌, Bool, true, false, ◌&&◌, Option, none, some, List, [], ◌∷◌,
  ◌++◌, length, take, drop, add64, if◌then◌else◌, ◌==◌, ltb,
}
use cetus.Common.Int.{ℤ, pos, negsuc, pos_part, leb_ℤ}

-- `a - b` of two `size_t`.
abbrev pub sub64 : ℕ → ℕ → ℕ
sub64 a b = (a + 2 ^ 64 - b) % 2 ^ 64

pub record NetworkQueue : Type 0 where
  pub chunks : List (List ℕ)
  pub len : ℕ
  pub offset : ℕ

unfoldable pub network_queue_new : NetworkQueue
network_queue_new = record { chunks = []; len = 0; offset = 0 }

unfoldable pub network_queue_clear : NetworkQueue → NetworkQueue
network_queue_clear queue = record { chunks = []; len = 0; offset = 0 }

-- The two warnings about the length of a chunk are only logged.
unfoldable pub network_queue_append : NetworkQueue → List ℕ → NetworkQueue
network_queue_append queue s = record queue {
  chunks = queue.chunks ++ s ∷ [];
  len = add64 queue.len (length s);
}

-- `we_want < left ? we_want : left`.
abbrev pub we_have : ℕ → ℕ → List ℕ → ℕ
we_have we_want offset chunk =
    let left = sub64 (length chunk) offset in if ltb we_want left then we_want else left

abbrev pub piece_of : List ℕ → ℕ → ℕ → List ℕ
piece_of chunk offset n = take n (drop offset chunk)

-- A GString to append to, with the room it has.
pub record Buffer : Type 0 where
  pub str : List ℕ
  pub allocated_len : ℕ

-- `null` is NULL, `aborted` an assertion that fails.
pub data Peeked : Type 0 where
  null aborted : Peeked
  got : List ℕ → Peeked

-- The loop over the chunks. Only the first is read from the offset on.
unfoldable pub peek_chunks : ℕ → ℕ → List (List ℕ) → List ℕ → List ℕ
peek_chunks offset zero chunks dest = dest
peek_chunks offset (suc n) [] dest = dest
peek_chunks offset (suc n) (chunk ∷ chunks) dest =
    let have = we_have (suc n) offset chunk in
    peek_chunks 0 (sub64 (suc n) have) chunks (dest ++ piece_of chunk offset have)

-- A `gsize` that is taken for an `int`.
abbrev pub as_int : ℕ → ℤ
as_int n = let w = n % 2 ^ 32 in if ltb w (2 ^ 31) then pos w else negsuc (2 ^ 32 - 1 - w)

-- src/glib-ext.c.
unfoldable pub calculate_alloc_len : ℤ → ℤ
calculate_alloc_len orig_len =
    if leb_ℤ orig_len (pos 16384)
    then if leb_ℤ orig_len (pos 32)
      then pos 32
      else if leb_ℤ orig_len (pos 48)
      then pos 48
      else if leb_ℤ orig_len (pos 64)
      then pos 64
      else if leb_ℤ orig_len (pos 128)
      then pos 128
      else if leb_ℤ orig_len (pos 256)
      then pos 256
      else if leb_ℤ orig_len (pos 512)
      then pos 512
      else if leb_ℤ orig_len (pos 1024)
      then pos 1024
      else if leb_ℤ orig_len (pos 2048)
      then pos 2048
      else if leb_ℤ orig_len (pos 4096)
      then pos 4096
      else if leb_ℤ orig_len (pos 8192)
      then pos 8192
      else pos 16384
    else orig_len

-- `sized_new n` is the room that the string has which glib's `g_string_sized_new (n)` makes. The result of
-- `calculate_alloc_len` is never negative.
module _ (sized_new : ℕ → ℕ) where
  abbrev pub dest_or_new : ℕ → Option Buffer → Buffer
  dest_or_new n none = record {
    str = [];
    allocated_len = sized_new (pos_part (calculate_alloc_len (as_int n)));
  }
  dest_or_new n (some dest) = dest

  unfoldable pub network_queue_peek_str : NetworkQueue → ℕ → Option Buffer → Peeked
  network_queue_peek_str queue peek_len dest =
      let buffer = dest_or_new peek_len dest in
      if ltb queue.len peek_len
      then null
      else if ltb peek_len buffer.allocated_len
      then got (peek_chunks queue.offset peek_len queue.chunks buffer.str)
      else aborted

abbrev pub content_of : Option (List ℕ) → List ℕ
content_of none = []
content_of (some dest) = dest

abbrev pub is_none : Option (List ℕ) → Bool
is_none none = true
is_none (some dest) = false

-- The while loop: the chunks, `len` and `offset` of the queue, `we_want`, and `dest`.
unfoldable pub pop_chunks :
    ℕ → List (List ℕ) → ℕ → ℕ → ℕ → Option (List ℕ) → Option (List ℕ) × NetworkQueue
pop_chunks steal_len [] len offset we_want dest =
    (dest, record { chunks = []; len = len; offset = offset })
pop_chunks steal_len (chunk ∷ chunks) len offset we_want dest =
    let have = we_have we_want offset chunk in
    let dest' = some (content_of dest ++ piece_of chunk offset have) in
    let len' = sub64 len have in
    let offset' = add64 offset have in
    let rest = pop_chunks steal_len chunks len' 0 (sub64 we_want have) dest' in
    if is_none dest && (offset == 0) && (length chunk == steal_len)
    then (some chunk, record { chunks = chunks; len = len'; offset = offset })
    else if length chunk == offset'
    then rest
    else (dest', record { chunks = chunk ∷ chunks; len = len'; offset = offset' })

-- `none` is NULL.
unfoldable pub network_queue_pop_str :
    NetworkQueue → ℕ → Option (List ℕ) → Option (List ℕ) × NetworkQueue
network_queue_pop_str queue steal_len dest =
    if ltb queue.len steal_len
    then (none, queue)
    else pop_chunks steal_len queue.chunks queue.len queue.offset steal_len dest
