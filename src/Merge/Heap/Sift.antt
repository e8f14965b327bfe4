-- ===== src/Merge/Heap/Sift.antt =====
-- heap_adjust moves its element down to where the heap is in order again.
use cetus.Common.{
  ℕ, zero, suc, ◌+◌, ◌*◌, ◌<◌, ◌≡◌, ◌≢◌, refl, sym, ap, arith, ◌∙◌, Bool, true, false, List, [],
  ◌∷◌, length, get_or, set, if◌then◌else◌, ◌==◌, Bool-cases, inl, inr,
}
use cetus.Merge.Heap.{HeapElement, HeapType, at, update, set_refreshed}
use cetus.Merge.Heap.Order.{view, Cached, Apart}

-- How often an address is in a list.
abbrev pub one_if : Bool → ℕ
one_if true = 1
one_if false = 0

abbrev pub count : ℕ → List ℕ → ℕ
count p [] = 0
count p (x ∷ xs) = one_if (x == p) + count p xs

pub get_or-set :
    (xs : List ℕ) (i k v : ℕ)
    → i < length xs
    → get_or (set xs i v) k 0 ≡ (if i == k then v else get_or xs k 0)
get_or-set [] i k v h = absurd (omega arith)
get_or-set (x ∷ xs) zero zero v h = refl
get_or-set (x ∷ xs) zero (suc k) v h = ground arith
get_or-set (x ∷ xs) (suc i) zero v h = ground arith
get_or-set (x ∷ xs) (suc i) (suc k) v h = get_or-set xs i k v (omega arith) ∙ same_if
  where
    same_if : (if i == k then v else get_or xs k 0) ≡ (if suc i == suc k then v else get_or xs k 0)
    same_if = ground arith

pub length-set : (xs : List ℕ) (i v : ℕ) → length (set xs i v) ≡ length xs
length-set [] i v = refl
length-set (x ∷ xs) zero v = refl
length-set (x ∷ xs) (suc i) v = ap suc (length-set xs i v)

pub count-set :
    (p : ℕ) (xs : List ℕ) (i v : ℕ)
    → i < length xs
    → count p (set xs i v) + one_if (get_or xs i 0 == p) ≡ count p xs + one_if (v == p)
count-set p [] i v h = absurd (omega arith)
count-set p (x ∷ xs) zero v h = omega arith
count-set p (x ∷ xs) (suc i) v h = omega (arith, count-set p xs i v (omega arith))

module _ (prior : HeapElement → HeapElement → Bool × Bool × Bool) (elem : ℕ → HeapElement) where
  -- A heap with its elements apart and its remembered comparisons right, but for those that `skip` leaves out.
  pub record IsSound (n : ℕ) (heap : HeapType) (skip : ℕ → Bool) : Type 0 where
    pub long : length heap.element ≡ n
    pub apart : Apart prior elem n (at heap)
    pub cached : Cached prior elem n (at heap) heap.flags skip

  -- What holds in every round; `held` counts the addresses of the heap.
  pub record Sifting (n : ℕ) (held : ℕ → ℕ) (rc : ℕ) (heap : HeapType) (s : ℕ) : Type 0 where
    pub inside : s < n
    pub long : length heap.element ≡ n
    pub apart : Apart prior elem n (view prior elem rc heap s)
    pub cached : Cached prior elem n (view prior elem rc heap s) heap.flags (λ i. i == s)
    pub counted : (p : ℕ) → count p (set heap.element s rc) ≡ held p

  -- The hole and the child `j` change places.
  abbrev pub moved : HeapType → ℕ → ℕ → HeapType
  moved heap s j = record heap {
    element = set heap.element s (at heap j);
    flags = set_refreshed true (at heap j) heap.flags;
  }

  pub moved-view :
      (heap : HeapType) (rc s j i : ℕ)
      → s < length heap.element
      → s ≢ j
      → view prior elem rc (moved heap s j) j i ≡ (
          if i == j
          then view prior elem rc heap s s
          else if i == s
          then view prior elem rc heap s j
          else view prior elem rc heap s i)
  moved-view heap rc s j i h ne = ground (arith, get_or-set heap.element s i (at heap j) h)

  exchange : ℕ → ℕ → ℕ → ℕ
  exchange s j i = if i == j then s else if i == s then j else i

  exchange-lt : (n s j i : ℕ) → s < n → j < n → i < n → exchange s j i < n
  unfolding exchange
  exchange-lt n s j i hs hj hi = ground arith

  exchange_inj : (s j i k : ℕ) → exchange s j i ≡ exchange s j k → i ≡ k
  unfolding exchange
  exchange_inj s j i k e = ground arith

  exchange_view :
      (v : ℕ → ℕ) (s j i : ℕ)
      → (if i == j then v s else if i == s then v j else v i) ≡ v (exchange s j i)
  unfolding exchange
  exchange_view v s j i = elim (Bool-cases (i == j)) [
    | inl hit ↦ rw hit refl
    | inr miss ↦
        rw miss (elim (Bool-cases (i == s)) [ inl hit ↦ rw hit refl | inr other ↦ rw other refl ])
  ]

  Apart-swap :
      (n : ℕ) (v w : ℕ → ℕ) (s j : ℕ)
      → s < n
      → j < n
      → Apart prior elem n v
      → ((i : ℕ) → w i ≡ (if i == j then v s else if i == s then v j else v i))
      → Apart prior elem n w
  Apart-swap n v w s j hs hj a e i k hi hk same = exchange_inj s j i k (
      a (exchange s j i) (exchange s j k) (exchange-lt n s j i hs hj hi)
        (exchange-lt n s j k hs hj hk)
        (sym (e i ∙ exchange_view v s j i) ∙ same ∙ e k ∙ exchange_view v s j k))

  module _ (n : ℕ) (held : ℕ → ℕ) (rc : ℕ) (heap : HeapType) (s j : ℕ)
      (inv : Sifting n held rc heap s) (inside : j < n) (ne : s ≢ j) where
    pub into :
        (i : ℕ)
        → view prior elem rc (moved heap s j) j i ≡ (
            if i == j
            then view prior elem rc heap s s
            else if i == s
            then view prior elem rc heap s j
            else view prior elem rc heap s i)
    into i = moved-view heap rc s j i (omega (arith, inv.inside, inv.long)) ne

    pub child_there : view prior elem rc heap s j ≡ at heap j
    child_there = ground arith

    refreshed_there : ((moved heap s j).flags (at heap j)).refreshed ≡ true
    unfolding update
    refreshed_there = ground arith

    flags_elsewhere : (p : ℕ) → p ≢ at heap j → (moved heap s j).flags p ≡ heap.flags p
    unfolding update
    flags_elsewhere p h = ground arith

    came_in :
        (i : ℕ)
        → (i == j) ≡ false
        → (i == s) ≡ true
        → view prior elem rc (moved heap s j) j i ≡ at heap j
    came_in i skip hit = into i ∙ rw (skip, hit) child_there

    stayed :
        (i : ℕ)
        → (i == j) ≡ false
        → (i == s) ≡ false
        → view prior elem rc (moved heap s j) j i ≡ view prior elem rc heap s i
    stayed i skip miss = into i ∙ rw (skip, miss) refl

    not_child : (i : ℕ) → i < n → (i == j) ≡ false → view prior elem rc heap s i ≢ at heap j
    not_child i h skip e = absurd (ground (arith, inv.apart i j h inside (e ∙ sym child_there)))

    moved-flags :
        (i : ℕ)
        → i < n
        → (i == j) ≡ false
        → (i == s) ≡ false
        → (moved heap s j).flags (view prior elem rc (moved heap s j) j i)
          ≡ heap.flags (view prior elem rc heap s i)
    moved-flags i h skip miss =
        ap (moved heap s j).flags (stayed i skip miss)
        ∙ flags_elsewhere (view prior elem rc heap s i) (not_child i h skip)

    not_fresh :
        (i : ℕ)
        → (i == j) ≡ false
        → ((moved heap s j).flags (view prior elem rc (moved heap s j) j i)).refreshed ≡ false
        → (i == s) ≡ false
    not_fresh i skip r = elim (Bool-cases (i == s)) [
      | inl hit ↦
          let fresh = ap (λ p. ((moved heap s j).flags p).refreshed) (came_in i skip hit) in
          let no_way : ◌≡◌ {A = Bool} false true = sym r ∙ fresh ∙ refreshed_there in
          absurd (ground arith)
      | inr miss ↦ miss
    ]

    -- A pair without the hole, where the child did not come in, is the one that was there.
    moved-Cached :
        Cached prior elem n
          (view prior elem rc (moved heap s j) j)
          (moved heap s j).flags
          (λ i. i == j)
    moved-Cached q small skip1 skip2 l1 l2 r1 r2 behind =
        let miss1 = not_fresh (2 * q + 1) skip1 r1 in
        let miss2 = not_fresh (2 * q + 2) skip2 r2 in
        let v1 = stayed (2 * q + 1) skip1 miss1 in
        let v2 = stayed (2 * q + 2) skip2 miss2 in
        let f1 = moved-flags (2 * q + 1) (omega arith) skip1 miss1 in
        let f2 = moved-flags (2 * q + 2) small skip2 miss2 in
        let known =
          inv.cached q small miss1 miss2 (rw v1 at l1) (rw v2 at l2) (rw f1 at r1) (rw f2 at r2)
            (rw f1 at behind) in
        rw (v1, v2) known

    moved-count : (p : ℕ) → count p (set (set heap.element s (at heap j)) j rc) ≡ held p
    moved-count p =
        let here : get_or (set heap.element s (at heap j)) j 0 ≡ at heap j =
          ground (
            arith,
            get_or-set heap.element s j (at heap j) (omega (arith, inv.inside, inv.long)),
          ) in
        omega (
          arith,
          inv.inside,
          inv.long,
          inv.counted p,
          count-set p heap.element s rc (omega (arith, inv.inside, inv.long)),
          count-set p heap.element s (at heap j) (omega (arith, inv.inside, inv.long)),
          count-set p (set heap.element s (at heap j)) j rc
              (omega (arith, inv.long, length-set heap.element s (at heap j))),
          ap (λ x. one_if (x == p)) here,
        )

    pub moved-Sifting : Sifting n held rc (moved heap s j) j
    moved-Sifting = record {
      inside = inside;
      long = rw (length-set heap.element s (at heap j)) inv.long;
      apart = Apart-swap n _ _ s j inv.inside inside inv.apart into;
      cached = moved-Cached;
      counted = moved-count;
    }
