-- ===== src/Queue/Peek.antt =====
-- src/network-queue.c: network_queue_peek_str gives the first bytes.
use cetus.Common.{
  ℕ, zero, suc, ◌+◌, ◌-◌, ◌≤◌, ◌<◌, ◌^◌, ◌≡◌, refl, sym, ◌∙◌, ap, arith, inl, inr, Option, none,
  some, List, [], ◌∷◌, ◌++◌, append-nil, append_assoc, length, take, drop, length-append,
  length-drop, Bool-cases, leb, leb→le, if◌then◌else◌,
}
use cetus.Common.Int.{pos_part}
use cetus.Queue.Stream.{
  as_int, calculate_alloc_len, sub64, NetworkQueue, we_have, piece_of, Buffer, null, got,
  peek_chunks, dest_or_new, network_queue_peek_str,
}
use cetus.Queue.Cuts.{drop-append_left, take-all}
use cetus.Queue.Fifo.{
  flat, contents, OffsetFits, IsValid, sub64_sub, sub64_self, fits_zero, we_have-some, we_have-all,
  take-some, take-all_of,
}

peek_step :
    (offset n have : ℕ) (chunk : List ℕ) (chunks : List (List ℕ)) (dest : List ℕ)
    → we_have (suc n) offset chunk ≡ have
    → peek_chunks offset (suc n) (chunk ∷ chunks) dest
      ≡ peek_chunks 0 (sub64 (suc n) have) chunks (dest ++ piece_of chunk offset have)
unfolding peek_chunks
peek_step offset n have chunk chunks dest e =
    ap (λ k. peek_chunks 0 (sub64 (suc n) k) chunks (dest ++ piece_of chunk offset k)) e

peek_chunks_lem :
    (offset n : ℕ) (chunks : List (List ℕ)) (dest : List ℕ)
    → OffsetFits offset chunks
    → length (flat chunks) < 2 ^ 64
    → n ≤ length (drop offset (flat chunks))
    → peek_chunks offset n chunks dest ≡ dest ++ take n (drop offset (flat chunks))
unfolding peek_chunks
peek_chunks_lem offset zero chunks dest fits small h = sym (append-nil dest)
peek_chunks_lem offset (suc n) [] dest fits small h =
    absurd (omega (arith, length-drop offset (flat [])))
peek_chunks_lem offset (suc n) (chunk ∷ chunks) dest fits small h =
    elim (Bool-cases (leb (suc n) (length chunk - offset))) [
      | inl part ↦
          peek_step offset n (suc n) chunk chunks dest
            (we_have-some offset chunk fits chunk_small (suc n) (leb→le _ _ part))
          ∙ ap (λ k. peek_chunks 0 k chunks (dest ++ piece_of chunk offset (suc n)))
              (sub64_self (suc n) n_small)
          ∙ (ap (◌++◌ dest) (
              sym
                (take-some offset chunk fits chunk_small (suc n) (flat chunks) (leb→le _ _ part))))
      | inr more ↦
          let over : length chunk - offset ≤ suc n = ground arith in
          let all = length (drop offset chunk) in
          let rest =
            peek_chunks_lem 0 (suc n - all) chunks (dest ++ drop offset chunk) (fits_zero chunks)
              (omega (arith, split)) (omega (arith, left)) in
          peek_step offset n all chunk chunks dest
            (we_have-all offset chunk fits chunk_small (suc n) over)
          ∙ rw
              (
                sub64_sub (suc n) all (omega (arith, length-drop offset chunk)) n_small,
                take-all (drop offset chunk),
              )
              (rest
                ∙ append_assoc dest (drop offset chunk) _
                ∙ ap (◌++◌ dest)
                    (sym (take-all_of offset chunk fits chunk_small (suc n) (flat chunks) over)))
    ]
  where
    split : length (chunk ++ flat chunks) ≡ length chunk + length (flat chunks)
    split = length-append chunk (flat chunks)

    left :
        length (drop offset (chunk ++ flat chunks))
        ≡ length (drop offset chunk) + length (flat chunks)
    left =
        rw (drop-append_left offset chunk (flat chunks) fits)
          (length-append (drop offset chunk) (flat chunks))

    chunk_small : length chunk < 2 ^ 64
    chunk_small = omega (arith, split)

    n_small : suc n < 2 ^ 64
    n_small = omega (arith, left, split, length-drop offset chunk)

alloc_enough : (n : ℕ) → n < 2 ^ 31 → n ≤ pos_part (calculate_alloc_len (as_int n))
unfolding calculate_alloc_len
alloc_enough n small = ground arith

-- Looking ahead in a valid queue appends its first `n` bytes to the buffer, and gives NULL if there
-- are fewer. A buffer that is given has room for more than `n` bytes; a new one has, if `n` fits an
-- int and glib allocates what it documents.
pub network_queue_peek_str_lem :
    (sized_new : ℕ → ℕ) (queue : NetworkQueue) (n : ℕ) (dest : Option Buffer)
    → IsValid queue
    → ((m : ℕ) → m < sized_new m)
    → (dest ≡ none → n < 2 ^ 31)
    → ((buffer : Buffer) → dest ≡ some buffer → n < buffer.allocated_len)
    → network_queue_peek_str sized_new queue n dest ≡ (
        if leb n (length (contents queue))
        then got ((dest_or_new sized_new n dest).str ++ take n (contents queue))
        else null)
unfolding network_queue_peek_str
network_queue_peek_str_lem sized_new queue n dest v room small given =
    elim (Bool-cases (leb n queue.len)) [
      | inl enough ↦
          let e =
            peek_chunks_lem queue.offset n queue.chunks (dest_or_new sized_new n dest).str
              v.in_first v.small (rw (← v.counted) (leb→le _ _ enough)) in
          let fits = roomy dest small given in ground (arith, e, v.counted)
      | inr short ↦ ground (arith, v.counted)
    ]
  where
    roomy :
        (dest : Option Buffer)
        → (dest ≡ none → n < 2 ^ 31)
        → ((buffer : Buffer) → dest ≡ some buffer → n < buffer.allocated_len)
        → n < (dest_or_new sized_new n dest).allocated_len
    roomy none s h =
        let enough = alloc_enough n (s refl) in
        let more = room (pos_part (calculate_alloc_len (as_int n))) in omega arith
    roomy (some buffer) s h = h buffer refl
