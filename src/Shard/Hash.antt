-- ===== src/Shard/Hash.antt =====
-- plugins/shard/sharding-parser.c: the hash of a string key, and the remainder that picks a bucket.
use Prim.Native.Nat.{bit_xor}
use cetus.Common.{
  ℕ, suc, ◌-◌, ◌/◌, ◌%◌, ◌^◌, List, [], ◌∷◌, length, take, drop, min, add32, shl32, ltb,
  if◌then◌else◌,
}
use cetus.Common.Int.{ℤ, pos, negsuc, ◌+ℤ◌, neg, ltb_ℤ}

-- All words are `unsigned int`.
unfoldable pub supplemental_hash : ℕ → ℕ
supplemental_hash value =
    let h : ℕ = bit_xor value (bit_xor (value / 2 ^ 20) (value / 2 ^ 12)) in
    bit_xor h (bit_xor (h / 2 ^ 7) (h / 2 ^ 4))

-- `for (…) { code <<= 4; code += key[i]; }`
unfoldable pub fold_bytes : ℕ → List ℕ → ℕ
fold_bytes code [] = code
fold_bytes code (b ∷ key) = fold_bytes (add32 (shl32 code 4) b) key

-- The first eight bytes, and beyond eight bytes the last eight too.
unfoldable pub cetus_str_hash : List ℕ → ℕ
cetus_str_hash key =
    let head = fold_bytes 0 (take (min 8 (length key)) key) in
    if ltb 8 (length key)
    then supplemental_hash (bit_xor head (fold_bytes 0 (drop (length key - 8) key)))
    else supplemental_hash head

-- C's `a % b`, which has the sign of `a`.
abbrev pub rem : ℤ → ℕ → ℤ
rem (pos n) b = pos (n % b)
rem (negsuc n) b = neg (pos (suc n % b))

-- `b` is the number of buckets, which is positive in a valid database; C traps on zero.
unfoldable pub modulo : ℤ → ℕ → ℤ
modulo a b = let r = rem a b in if ltb_ℤ r (pos 0) then r +ℤ pos b else r
