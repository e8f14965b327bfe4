-- ===== src/Wire/Login.antt =====
-- src/network-mysqld-proto.c: the scramble of a password against the server's check of it.
use cetus.Common.{
  ◌≤◌, length-append, take, take-append, append-nil, ℕ, zero, suc, ◌≡◌, refl, ap, arith, some, List,
  [], ◌∷◌, ◌++◌, length, bit_xor_undo,
}
use cetus.Wire.Auth.{cut, xor_first, password_hash, password_scramble}

-- XOR with the same bytes again gives the key.
xor_first_undo :
    (n : ℕ) (r k : List ℕ) → length r ≡ n → length k ≡ n → xor_first n r (xor_first n r k) ≡ k
unfolding xor_first
xor_first_undo zero [] [] hr hk = refl
xor_first_undo zero (x ∷ r) k hr hk = absurd (omega arith)
xor_first_undo zero [] (y ∷ k) hr hk = absurd (omega arith)
xor_first_undo (suc n) [] k hr hk = absurd (omega arith)
xor_first_undo (suc n) (x ∷ r) [] hr hk = absurd (omega arith)
xor_first_undo (suc n) (x ∷ r) (y ∷ k) hr hk =
    rw bit_xor_undo (ap (◌∷◌ y) (xor_first_undo n r k (omega arith) (omega arith)))

cut_spacing :
    (challenge spacing : List ℕ)
    → length challenge ≡ 20
    → length spacing ≤ 1
    → cut (challenge ++ spacing) ≡ challenge
cut_spacing challenge [] len short = rw append-nil (ground arith)
cut_spacing challenge (x ∷ []) len short = ground (arith, length-append challenge (x ∷ []), taken)
  where
    taken : take 20 (challenge ++ x ∷ []) ≡ challenge
    taken = rw (← len) (take-append challenge (x ∷ []))
cut_spacing challenge (x ∷ y ∷ spacing) len short = absurd (omega arith)

module _ (sha1 : List ℕ → List ℕ) where
  -- The server's side of the protocol. It knows SHA1 (SHA1 (password)), and undoes the XOR.
  abbrev pub ServerAccepts : List ℕ → List ℕ → List ℕ → Type 0
  ServerAccepts challenge stored response =
      sha1 (xor_first 20 (sha1 (challenge ++ stored)) response) ≡ stored

  -- For a challenge of 20 bytes, with or without the spacing byte that newer servers send behind it, and
  -- a digest function of 20 bytes, the scramble of a hashed password is a response that a server which
  -- stores only the hash of the hash accepts.
  pub password_scramble-accepted :
      ((s : List ℕ) → length (sha1 s) ≡ 20)
      → (challenge spacing password : List ℕ) → length challenge ≡ 20
      → length spacing ≤ 1
      → (response : List ℕ) × (password_scramble sha1
            (some (challenge ++ spacing))
            (some (password_hash sha1 password))
          ≡ some response)
        × ServerAccepts challenge (sha1 (sha1 password)) response
  unfolding password_scramble password_hash
  password_scramble-accepted digest challenge spacing password len short =
      let key = sha1 password in
      (
        xor_first 20 (sha1 (challenge ++ sha1 key)) key,
        ground (
          arith,
          digest password,
          length-append challenge spacing,
          cut_spacing challenge spacing len short,
        ),
        ap sha1 (xor_first_undo 20 _ _ (digest _) (digest _)),
      )
