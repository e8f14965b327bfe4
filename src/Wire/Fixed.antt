-- ===== src/Wire/Fixed.antt =====
-- src/network-mysqld-proto.c: integers of a fixed number of bytes, written and read back.
use cetus.Common.{
  ℕ, zero, suc, ◌+◌, ◌-◌, ◌*◌, ◌/◌, ◌%◌, ◌^◌, ◌<◌, ◌≤◌, ◌≡◌, refl, sym, ap, ◌∙◌, arith, List, [],
  ◌∷◌, ◌++◌, length, length-append, append_assoc, append-nil, get_or-append, bit_or, bit_or_comm,
  bit_or_disjoint, min, shl32,
}
use native.Mathlib.Nat.{pow-suc, div-add-mod}
use native.Mathlib.Numerals.{towards_suc}
use cetus.Wire.Packet.{Packet, ok, len, byte_at}
use cetus.Wire.Decode.{or_bytes, peek_int_len, get_int_len}
use cetus.Wire.Encode.{append_int_len}
use cetus.Wire.Words.{or_shl}

-- The lowest `n` bytes of `v`, the lowest first.
unfoldable pub le_bytes : ℕ → ℕ → List ℕ
le_bytes zero v = []
le_bytes (suc n) v = v % 256 ∷ le_bytes n (v / 256)

pub length-le_bytes : (n v : ℕ) → length (le_bytes n v) ≡ n
unfolding le_bytes
length-le_bytes zero v = refl
length-le_bytes (suc n) v = ap suc (length-le_bytes n (v / 256))

pub append_int_len-bytes :
    (packet : List ℕ) (v n : ℕ) → append_int_len packet v n ≡ packet ++ le_bytes n v
unfolding append_int_len le_bytes
append_int_len-bytes packet v zero = sym (append-nil packet)
append_int_len-bytes packet v (suc n) =
    append_int_len-bytes (packet ++ v % 256 ∷ []) (v / 256) n
    ∙ append_assoc packet (v % 256 ∷ []) (le_bytes n (v / 256))

-- The bytes of `p` from `i` on are the lowest `n` bytes of `v`.
abbrev pub Spells : Packet → ℕ → ℕ → ℕ → Type 0
Spells p i zero v = Unit {0}
Spells p i (suc n) v = (byte_at p i ≡ v % 256) × Spells p (i + 1) n (v / 256)

le_bytes-Spells :
    (n v i o : ℕ) (bytes front back : List ℕ)
    → bytes ≡ front ++ (le_bytes n v ++ back)
    → i ≡ length front
    → Spells (record { bytes = bytes; offset = o }) i n v
unfolding le_bytes
le_bytes-Spells zero v i o bytes front back e at = tt
le_bytes-Spells (suc n) v i o bytes front back e at =
    let b : ℕ = v % 256 in
    let rest : List ℕ = le_bytes n (v / 256) ++ back in
    let front_end : i ≡ length front + 0 = omega arith in
    (
      rw (e, front_end) (get_or-append front (b ∷ rest) 0 0),
      le_bytes-Spells n (v / 256) (i + 1) o bytes (front ++ b ∷ []) back
          (e ∙ sym (append_assoc front (b ∷ []) rest))
          (omega (arith, length-append front (b ∷ []))),
    )

shift_byte : (s : ℕ) → 2 ^ (s + 8) ≡ 256 * 2 ^ s
shift_byte s = simp towards_suc (omega arith)

split_byte : (v s : ℕ) → v * 2 ^ s ≡ v % 256 * 2 ^ s + v / 256 * 2 ^ (s + 8)
split_byte v s = rw shift_byte (omega (arith, ap (λ (t : ℕ). t * 2 ^ s) (div-add-mod v 256)))

or_bytes-Spells :
    (n : ℕ) (p : Packet) (i s acc v : ℕ)
    → Spells p i n v
    → v < 256 ^ n
    → acc < 2 ^ s
    → v * 2 ^ s < 2 ^ 32
    → or_bytes n p i s acc ≡ acc + v * 2 ^ s
unfolding or_bytes
or_bytes-Spells zero p i s acc v sp hv ha hs =
    let none_left : v ≡ 0 = omega arith in rw none_left (omega arith)
or_bytes-Spells (suc n) p i s acc v (first, rest) hv ha hs =
    let b : ℕ = v % 256 in
    let joined : bit_or acc (shl32 (byte_at p i) s) ≡ acc + b * 2 ^ s =
      rw first (or_shl s acc b ha (omega (arith, split_byte v s))) in
    rw joined (
      or_bytes-Spells n p (i + 1) (s + 8) (acc + b * 2 ^ s) (v / 256) rest
        (omega (arith, pow-suc 256 n))
        (let top : b * 2 ^ s ≤ 255 * 2 ^ s = grind arith in omega (arith, shift_byte s))
        (omega (arith, split_byte v s))
      ∙ omega (arith, split_byte v s))

-- The first four bytes and the others.
Spells-split :
    (p : Packet) (i m v : ℕ)
    → Spells p i (suc (suc (suc (suc m)))) v
    → Spells p i 4 (v % 2 ^ 32) × Spells p (i + 4) m (v / 2 ^ 32)
Spells-split p i m v (a, (b, (c, (d, rest)))) =
    let four_on : i + 1 + 1 + 1 + 1 ≡ i + 4 = omega arith in
    let shifted : v / 256 / 256 / 256 / 256 ≡ v / 2 ^ 32 = omega arith in
    (omega arith, rw (← four_on, ← shifted) rest)

module _ (p : Packet) (size : ℕ) (fits : len p < 2 ^ 32) (within : p.offset + size ≤ len p)
    (h : size ≤ 8) where
  abbrev low_half : ℕ
  low_half = or_bytes (min size 4) p p.offset 0 0

  abbrev high_half : ℕ
  high_half = or_bytes (size - 4) p (p.offset + 4) 0 0

  peek_runs : peek_int_len size p ≡ ok (bit_or (high_half * 2 ^ 32) low_half) p
  unfolding peek_int_len
  peek_runs = ground arith

  halves_join :
      low_half < 2 ^ 32 → bit_or (high_half * 2 ^ 32) low_half ≡ low_half + high_half * 2 ^ 32
  halves_join low = bit_or_comm _ _ ∙ bit_or_disjoint 32 _ _ low

pow256 : (m : ℕ) → m ≤ 4 → 256 ^ m ≤ 2 ^ 32
pow256 zero h = omega arith
pow256 (suc zero) h = omega arith
pow256 (suc (suc zero)) h = omega arith
pow256 (suc (suc (suc zero))) h = omega arith
pow256 (suc (suc (suc (suc zero)))) h = omega arith
pow256 (suc (suc (suc (suc (suc m))))) h = absurd (omega arith)

-- Up to four bytes there is no upper half.
low_only :
    (n : ℕ) (p : Packet) (v : ℕ)
    → Spells p p.offset n v
    → v < 256 ^ n
    → v < 2 ^ 32
    → or_bytes n p p.offset 0 0 ≡ v % 2 ^ 32
low_only n p v sp small h =
    or_bytes-Spells n p p.offset 0 0 v sp small (omega arith) (omega arith) ∙ omega arith

halves_value :
    (p : Packet) (size v : ℕ)
    → size ≤ 8
    → v < 256 ^ size
    → Spells p p.offset size v
    → (or_bytes (min size 4) p p.offset 0 0 ≡ v % 2 ^ 32)
      × (or_bytes (size - 4) p (p.offset + 4) 0 0 ≡ v / 2 ^ 32)
halves_value p (suc (suc (suc (suc m)))) v h small sp =
    let (low, high) = Spells-split p p.offset m v sp in
    let four : min (suc (suc (suc (suc m)))) 4 ≡ 4 = omega arith in
    let others : suc (suc (suc (suc m))) - 4 ≡ m = omega arith in
    let high_small : v / 2 ^ 32 < 256 ^ m = omega (
      arith,
      pow-suc 256 m,
      pow-suc 256 (suc m),
      pow-suc 256 (suc (suc m)),
      pow-suc 256 (suc (suc (suc m))),
    ) in
    (
      rw four (
          or_bytes-Spells 4 p p.offset 0 0 (v % 2 ^ 32) low (omega arith) (omega arith)
            (omega arith)
          ∙ omega arith),
      rw others (
          or_bytes-Spells m p (p.offset + 4) 0 0 (v / 2 ^ 32) high high_small (omega arith)
            (omega (arith, pow256 m (omega arith)))
          ∙ omega arith),
    )
halves_value p (suc (suc (suc zero))) v h small sp =
    (low_only 3 p v sp (omega arith) (omega arith), unfold or_bytes in omega arith)
halves_value p (suc (suc zero)) v h small sp =
    (low_only 2 p v sp (omega arith) (omega arith), unfold or_bytes in omega arith)
halves_value p (suc zero) v h small sp =
    (low_only 1 p v sp (omega arith) (omega arith), unfold or_bytes in omega arith)
halves_value p zero v h small sp = unfold or_bytes in omega arith

module _ (p : Packet) (size v : ℕ) (fits : len p < 2 ^ 32) (within : p.offset + size ≤ len p)
    (h : size ≤ 8) (small : v < 256 ^ size) (sp : Spells p p.offset size v) where
  pub peek_value : peek_int_len size p ≡ ok v p
  peek_value =
      let (low, high) = halves_value p size v h small sp in
      peek_runs p size fits within h
      ∙ ap (λ n. ok n p) (halves_join p size fits within h (omega arith) ∙ omega arith)

  pub get_value : get_int_len size p ≡ ok v (record p { offset = p.offset + size })
  unfolding get_int_len
  get_value = ground (arith, peek_value)

-- In a packet whose length fits 32 bits `get_int_len` reads the integer that `append_int_len` wrote,
-- of up to eight bytes and fitting its size, and goes on to the end of it; `peek_int_len` reads it and
-- stays.
pub get_int_len-append :
    (front back : List ℕ) (size v : ℕ)
    → size ≤ 8
    → v < 256 ^ size
    → length front + size + length back < 2 ^ 32
    → let p : Packet = record {
      bytes = append_int_len front v size ++ back;
      offset = length front;
    } in
      (peek_int_len size p ≡ ok v p)
      × (get_int_len size p ≡ ok v (record p { offset = length (append_int_len front v size) }))
get_int_len-append front back size v h small fits =
    rw
      (
        append_int_len-bytes front v size,
        append_assoc front (le_bytes size v) back,
        length-append front (le_bytes size v),
        length-le_bytes size v,
      )
      (
        peek_value p size v (omega (arith, total)) (omega (arith, total)) h small sp,
        get_value p size v (omega (arith, total)) (omega (arith, total)) h small sp,
      )
  where
    p : Packet
    p = record { bytes = front ++ (le_bytes size v ++ back); offset = length front }

    total : len p ≡ length front + size + length back
    total = omega (
      arith,
      length-append front (le_bytes size v ++ back),
      length-append (le_bytes size v) back,
      length-le_bytes size v,
    )

    sp : Spells p (length front) size v
    sp = le_bytes-Spells size v (length front) (length front) _ front back refl refl
