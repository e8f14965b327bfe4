-- ===== src/Shard/Order.antt =====
-- libc's order on strings is a total order.
use Prim.Native.Nat.{Ordering}
use cetus.Common.{ℕ, true, false, ◌≡◌, refl, arith, List, [], ◌∷◌}
use cetus.Shard.Condition.{strcmp, is_gt}

abbrev pub flip : Ordering → Ordering
flip Ordering.lt = Ordering.gt
flip Ordering.eq = Ordering.eq
flip Ordering.gt = Ordering.lt

pub strcmp-flip : (s t : List ℕ) → strcmp t s ≡ flip (strcmp s t)
unfolding strcmp
strcmp-flip [] [] = refl
strcmp-flip [] (y ∷ t) = refl
strcmp-flip (x ∷ s) [] = refl
strcmp-flip (x ∷ s) (y ∷ t) = ground (arith, strcmp-flip s t)

pub strcmp-eq : (s t : List ℕ) → strcmp s t ≡ Ordering.eq → s ≡ t
unfolding strcmp
strcmp-eq [] [] h = refl
strcmp-eq [] (y ∷ t) h = ground arith
strcmp-eq (x ∷ s) [] h = ground arith
strcmp-eq (x ∷ s) (y ∷ t) h = ground (arith, strcmp-eq s t)

-- s < t and t ≤ u give s < u.
pub strcmp_trans :
    (s t u : List ℕ)
    → is_gt (strcmp t s) ≡ true
    → is_gt (strcmp t u) ≡ false
    → is_gt (strcmp u s) ≡ true
unfolding strcmp
strcmp_trans [] [] u h k = ground arith
strcmp_trans (x ∷ s) [] u h k = ground arith
strcmp_trans s (y ∷ t) [] h k = cc
strcmp_trans [] (y ∷ t) (z ∷ u) h k = refl
strcmp_trans (x ∷ s) (y ∷ t) (z ∷ u) h k = ground (arith, strcmp_trans s t u)
