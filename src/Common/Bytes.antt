-- ===== src/Common/Bytes.antt =====
-- Equality of byte strings: `strcmp (a, b) == 0` and `g_string_equal (a, b)`.
use Prim.Native.Nat.{ℕ}
use mathlib.Core.Path.{◌≡◌, refl}
use mathlib.Core.Bool.{Bool, true, false, ◌&&◌}
use mathlib.Core.List.{List, [], ◌∷◌}
use native.Mathlib.Omega.{arith}
use cetus.Common.Tests.{◌==◌, &&-true}

unfoldable pub same : List ℕ → List ℕ → Bool
same [] [] = true
same [] (y ∷ t) = false
same (x ∷ s) [] = false
same (x ∷ s) (y ∷ t) = (x == y) && same s t

pub same_refl : (s : List ℕ) → same s s ≡ true
unfolding same
same_refl [] = refl
same_refl (x ∷ s) = ground (arith, same_refl s)

pub same→≡ : (s t : List ℕ) → same s t ≡ true → s ≡ t
unfolding same
same→≡ [] [] h = refl
same→≡ [] (y ∷ t) h = absurd (ground arith)
same→≡ (x ∷ s) [] h = absurd (ground arith)
same→≡ (x ∷ s) (y ∷ t) h =
    let e = same→≡ s t (&&-true (x == y) (same s t) h).1 in
    let d : x ≡ y = ground arith in rw (d, e) refl
