-- ===== src/Wire/Auth.antt =====
-- src/network-mysqld-proto.c: the hash of a password and its scramble with a challenge.
use cetus.Common.{
  ℕ, zero, suc, ◌||◌, Bool, Option, none, some, List, [], ◌∷◌, ◌++◌, length, take, ◌==◌, bit_xor,
  if◌then◌else◌, not,
}

-- `for (i = 0; i < n; i++) response[i] = response[i] ^ hashed_pwd[i];` with n bytes in both.
unfoldable pub xor_first : ℕ → List ℕ → List ℕ → List ℕ
xor_first zero response key = response
xor_first (suc n) [] key = []
xor_first (suc n) (r ∷ response) [] = r ∷ response
xor_first (suc n) (r ∷ response) (k ∷ key) = bit_xor r k ∷ xor_first n response key

-- A length of 20 or 21 bytes.
abbrev pub is_digest_len : ℕ → Bool
is_digest_len n = 20 == n || 21 == n

-- A 21st byte is cut off.
abbrev pub cut : List ℕ → List ℕ
cut s = if length s == 21 then take 20 s else s

-- `sha1` is the digest that glib's checksum functions compute.
module _ (sha1 : List ℕ → List ℕ) where
  unfoldable pub password_hash : List ℕ → List ℕ
  password_hash password = sha1 password

  -- `none` is the return value -1. A NULL pointer is `none` too.
  unfoldable pub password_scramble : Option (List ℕ) → Option (List ℕ) → Option (List ℕ)
  password_scramble none hashed_pwd = none
  password_scramble (some challenge) none = none
  password_scramble (some challenge) (some hashed_pwd) =
      if not (is_digest_len (length challenge)) || not (is_digest_len (length hashed_pwd))
      then none
      else let step2 = password_hash (cut hashed_pwd) in
        some (xor_first 20 (sha1 (cut challenge ++ step2)) (cut hashed_pwd))
