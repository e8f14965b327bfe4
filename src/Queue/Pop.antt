-- ===== src/Queue/Pop.antt =====
-- src/network-queue.c: network_queue_pop_str takes the first bytes away.
use cetus.Common.{
  ℕ, zero, suc, ◌+◌, ◌-◌, ◌≤◌, ◌<◌, ◌^◌, ◌≡◌, refl, sym, ◌∙◌, ap, arith, ◌⊎◌, inl, inr, Option,
  none, some, List, [], ◌∷◌, ◌++◌, append-nil, append_assoc, add64, length, take, drop, take-append,
  drop-append, length-append, length-drop, Bool-cases, true, false, ◌&&◌, leb, leb→le, ltb, ltb→lt,
  ◌==◌, if◌then◌else◌,
}
use cetus.Queue.Stream.{
  sub64, NetworkQueue, we_have, piece_of, content_of, pop_chunks, network_queue_pop_str,
}
use cetus.Queue.Cuts.{drop-append_left, take-all, drop-drop}
use cetus.Queue.Fifo.{
  flat, contents, OffsetFits, IsValid, sub64_sub, fits_zero, we_have-some, we_have-all, take-some,
  take-all_of, drop-all_of,
}

-- What a call to pop returns, and the queue it leaves: the string `s`, and the bytes `rest`.
abbrev pub Pops : Option (List ℕ) × NetworkQueue → List ℕ → List ℕ → Type 0
Pops r s rest = (r.0 ≡ some s) × (contents r.1 ≡ rest) × IsValid r.1

Pops-of :
    {r r' : Option (List ℕ) × NetworkQueue} {s s' rest rest' : List ℕ}
    → r ≡ r'
    → s ≡ s'
    → rest ≡ rest'
    → Pops r' s' rest'
    → Pops r s rest
Pops-of e f g h = rw (e, f, g) h

abbrev after_step :
    ℕ → List ℕ → List (List ℕ) → ℕ → ℕ → ℕ → List ℕ → ℕ → Option (List ℕ) × NetworkQueue
after_step steal chunk chunks len offset n dest have =
    if length chunk == add64 offset have
    then pop_chunks steal chunks (sub64 len have) 0 (sub64 n have)
        (some (dest ++ piece_of chunk offset have))
    else (
      some (dest ++ piece_of chunk offset have),
      record { chunks = chunk ∷ chunks; len = sub64 len have; offset = add64 offset have },
    )

pop_step :
    (steal len offset n have : ℕ) (chunk : List ℕ) (chunks : List (List ℕ)) (dest : List ℕ)
    → we_have n offset chunk ≡ have
    → pop_chunks steal (chunk ∷ chunks) len offset n (some dest)
      ≡ after_step steal chunk chunks len offset n dest have
unfolding pop_chunks
pop_step steal len offset n have chunk chunks dest e =
    ap (after_step steal chunk chunks len offset n dest) e

-- The loop, once there is a string to append to.
pop_chunks_lem :
    (steal len offset n : ℕ) (chunks : List (List ℕ)) (dest : List ℕ)
    → OffsetFits offset chunks
    → length (flat chunks) < 2 ^ 64
    → len ≡ length (drop offset (flat chunks))
    → n ≤ len
    → Pops
        (pop_chunks steal chunks len offset n (some dest))
        (dest ++ take n (drop offset (flat chunks)))
        (drop n (drop offset (flat chunks)))
unfolding pop_chunks
pop_chunks_lem steal len zero zero [] dest fits small counted h = (
  ap some (sym (append-nil dest)),
  refl,
  record { counted = counted; small = small; in_first = refl },
)
pop_chunks_lem steal len zero (suc n) [] dest fits small counted h = absurd (omega arith)
pop_chunks_lem steal len (suc offset) n [] dest fits small counted h = absurd (omega arith)
pop_chunks_lem steal len offset n (chunk ∷ chunks) dest fits small counted h =
    elim (Bool-cases (leb (suc n) (length chunk - offset))) [
      | inl part ↦
          let below : n < length chunk - offset = leb→le _ _ part in
          let rest_len : len - n ≡ length (drop (offset + n) (chunk ++ flat chunks)) = omega (
            arith,
            left,
            length-drop (offset + n) (chunk ++ flat chunks),
            length-drop offset chunk,
            split,
          ) in
          let taken = take-some offset chunk fits chunk_small n (flat chunks) (omega arith) in
          let stays : after_step steal chunk chunks len offset n dest n ≡ (
            some (dest ++ piece_of chunk offset n),
            record { chunks = chunk ∷ chunks; len = len - n; offset = offset + n },
          ) =
            stays_lem below in
          Pops-of
            (pop_step steal len offset n n chunk chunks dest
                (we_have-some offset chunk fits chunk_small n (omega arith))
              ∙ stays)
            (ap (◌++◌ dest) taken) (drop-drop offset n (chunk ++ flat chunks))
            (refl, refl, record { counted = rest_len; small = small; in_first = omega arith })
      | inr more ↦
          let over : length chunk - offset ≤ n = ground arith in
          let all = length (drop offset chunk) in
          let goes : after_step steal chunk chunks len offset n dest all
              ≡ pop_chunks steal chunks (len - all) 0 (n - all) (some (dest ++ drop offset chunk)) =
            goes_lem over in
          Pops-of
            (pop_step steal len offset n all chunk chunks dest
                (we_have-all offset chunk fits chunk_small n over)
              ∙ goes)
            (ap (◌++◌ dest) (take-all_of offset chunk fits chunk_small n (flat chunks) over)
              ∙ sym (append_assoc dest (drop offset chunk) _))
            (drop-all_of offset chunk fits chunk_small n (flat chunks) over)
            (pop_chunks_lem steal (len - all) 0 (n - all) chunks (dest ++ drop offset chunk)
              (fits_zero chunks) (omega (arith, split)) (omega (arith, left)) (omega arith))
    ]
  where
    split : length (chunk ++ flat chunks) ≡ length chunk + length (flat chunks)
    split = length-append chunk (flat chunks)

    left :
        length (drop offset (chunk ++ flat chunks))
        ≡ length (drop offset chunk) + length (flat chunks)
    left =
        rw (drop-append_left offset chunk (flat chunks) fits)
          (length-append (drop offset chunk) (flat chunks))

    chunk_small : length chunk < 2 ^ 64
    chunk_small = omega (arith, split)

    stays_lem :
        n < length chunk - offset
        → after_step steal chunk chunks len offset n dest n ≡ (
          some (dest ++ piece_of chunk offset n),
          record { chunks = chunk ∷ chunks; len = len - n; offset = offset + n },
        )
    stays_lem below = rw (exact, sub64_sub len n h len_small, unequal) refl
      where
        len_small : len < 2 ^ 64
        len_small = omega (arith, left, split, length-drop offset chunk)

        exact : add64 offset n ≡ offset + n
        exact = omega (arith, chunk_small)

        unequal : (length chunk == offset + n) ≡ false
        unequal = ground arith

    goes_lem :
        length chunk - offset ≤ n
        → after_step steal chunk chunks len offset n dest (length (drop offset chunk))
          ≡ pop_chunks steal chunks
              (len - length (drop offset chunk))
              0
              (n - length (drop offset chunk))
              (some (dest ++ drop offset chunk))
    goes_lem over =
        rw
          (
            exact,
            sub64_sub len (length (drop offset chunk)) (omega (arith, left, split)) len_small,
            sub64_sub n (length (drop offset chunk)) (omega (arith, length-drop offset chunk))
                (omega (arith, len_small)),
            equal,
            take-all (drop offset chunk),
          )
          refl
      where
        len_small : len < 2 ^ 64
        len_small = omega (arith, left, split, length-drop offset chunk)

        exact : add64 offset (length (drop offset chunk)) ≡ length chunk
        exact = omega (arith, length-drop offset chunk, chunk_small)

        equal : (length chunk == length chunk) ≡ true
        equal = ground arith

whole_chunk :
    (len : ℕ) (chunk : List ℕ) (chunks : List (List ℕ))
    → length (chunk ++ flat chunks) < 2 ^ 64
    → len ≡ length (chunk ++ flat chunks)
    → Pops
        (
          some chunk,
          record { chunks = chunks; len = sub64 len (we_have (length chunk) 0 chunk); offset = 0 },
        )
        (take (length chunk) (chunk ++ flat chunks))
        (drop (length chunk) (chunk ++ flat chunks))
whole_chunk len chunk chunks small counted =
    rw (take-append chunk (flat chunks), drop-append chunk (flat chunks))
      (
        refl,
        refl,
        record {
          counted = ground (arith, length-append chunk (flat chunks));
          small = omega (arith, length-append chunk (flat chunks));
          in_first = fits_zero chunks;
        },
      )

-- Without a string the first chunk itself is returned if it is what is wanted.
without_dest :
    (n len offset : ℕ) (chunk : List ℕ) (chunks : List (List ℕ))
    → offset ≤ length chunk
    → length (chunk ++ flat chunks) < 2 ^ 64
    → len ≡ length (drop offset (chunk ++ flat chunks))
    → n ≤ len
    → Pops
        (pop_chunks n (chunk ∷ chunks) len offset n none)
        (take n (drop offset (chunk ++ flat chunks)))
        (drop n (drop offset (chunk ++ flat chunks)))
unfolding pop_chunks
without_dest n len offset chunk chunks fits small counted h =
    elim (Bool-cases ((offset == 0) && (length chunk == n))) [
      | inl whole ↦
          let none_read : offset ≡ 0 = ground arith in
          let exact : n ≡ length chunk = ground arith in
          let step : pop_chunks n (chunk ∷ chunks) len offset n none ≡ (
            some chunk,
            record {
              chunks = chunks;
              len = sub64 len (we_have (length chunk) 0 chunk);
              offset = 0;
            },
          ) =
            rw whole (rw (none_read, exact) refl) in
          Pops-of step
            (ap (λ k. take k (drop offset (chunk ++ flat chunks))) exact
              ∙ ap (λ o. take (length chunk) (drop o (chunk ++ flat chunks))) none_read)
            (ap (λ k. drop k (drop offset (chunk ++ flat chunks))) exact
              ∙ ap (λ o. drop (length chunk) (drop o (chunk ++ flat chunks))) none_read)
            (whole_chunk len chunk chunks small
              (counted ∙ ap (λ o. length (drop o (chunk ++ flat chunks))) none_read))
      | inr not_whole ↦
          let same : pop_chunks n (chunk ∷ chunks) len offset n none
              ≡ pop_chunks n (chunk ∷ chunks) len offset n (some []) =
            rw not_whole refl in
          Pops-of same refl refl
            (pop_chunks_lem n len offset n (chunk ∷ chunks) [] fits small counted h)
    ]

-- Popping `n` bytes of a valid queue, at least one: NULL and the queue as it was, if it has fewer than
-- `n` bytes; else the first `n` bytes behind what the given string holds, the rest stays in the queue,
-- and the queue stays valid. It does not matter how the bytes are cut into chunks.
pub network_queue_pop_str_lem :
    (queue : NetworkQueue) (n : ℕ) (dest : Option (List ℕ))
    → IsValid queue
    → 0 < n
    → ((length (contents queue) < n) × (network_queue_pop_str queue n dest ≡ (none, queue)))
      ⊎ ((n ≤ length (contents queue))
          × Pops
              (network_queue_pop_str queue n dest)
              (content_of dest ++ take n (contents queue))
              (drop n (contents queue)))
unfolding network_queue_pop_str
network_queue_pop_str_lem queue n dest v positive = elim (Bool-cases (ltb queue.len n)) [
  | inl short ↦ inl (rw (← v.counted) (ltb→lt _ _ short), rw short refl)
  | inr enough ↦
      let h : n ≤ queue.len = ground arith in
      inr (
        rw (← v.counted) h,
        rw enough
            (first_chunk queue.chunks queue.len queue.offset dest v.in_first v.small v.counted h),
      )
]
  where
    first_chunk :
        (chunks : List (List ℕ)) (len offset : ℕ) (dest : Option (List ℕ))
        → OffsetFits offset chunks
        → length (flat chunks) < 2 ^ 64
        → len ≡ length (drop offset (flat chunks))
        → n ≤ len
        → Pops
            (pop_chunks n chunks len offset n dest)
            (content_of dest ++ take n (drop offset (flat chunks)))
            (drop n (drop offset (flat chunks)))
    first_chunk chunks len offset (some dest) fits small counted h =
        pop_chunks_lem n len offset n chunks dest fits small counted h
    first_chunk [] len offset none fits small counted h =
        absurd (omega (arith, length-drop offset (flat [])))
    first_chunk (chunk ∷ chunks) len offset none fits small counted h =
        without_dest n len offset chunk chunks fits small counted h
