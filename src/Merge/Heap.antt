-- ===== src/Merge/Heap.antt =====
-- src/resultset_merge.c, heap_adjust: the heap of the servers' next rows. An element is named by its address, a
-- number; what heap_adjust leaves alone of it is apart from the flags that it changes.
pub mod Order
pub mod Siblings
pub mod Pick
pub mod Sift
pub mod Place
pub mod Adjust
pub mod Ends
use cetus.Common.{
  ℕ, zero, suc, ◌+◌, ◌-◌, ◌*◌, Bool, true, false, ◌&&◌, ◌||◌, not, Option, none, some, List, get_or,
  set, if◌then◌else◌, ◌==◌, ltb,
}
use cetus.Common.Int.{ℤ, pos, negsuc, neg_part}

-- `row` is the packet that `record` points to; `none` is NULL.
pub record HeapElement : Type 0 where
  pub row : Option (List ℕ)
  pub index : ℕ
  pub is_over : Bool
  pub is_err : Bool

pub record HeapFlags : Type 0 where
  pub is_prior_to : ℤ
  pub refreshed : Bool
  pub is_dup : Bool

pub record HeapType : Type 0 where
  pub element : List ℕ
  pub flags : ℕ → HeapFlags
  pub compare_failed : Bool

abbrev pub at : HeapType → ℕ → ℕ
at heap i = get_or heap.element i 0

unfoldable pub update : (ℕ → HeapFlags) → ℕ → HeapFlags → ℕ → HeapFlags
update flags p new q = if p == q then new else flags q

abbrev pub set_prior : ℤ → ℕ → (ℕ → HeapFlags) → ℕ → HeapFlags
set_prior value p flags = update flags p (record (flags p) { is_prior_to = value })

abbrev pub set_refreshed : Bool → ℕ → (ℕ → HeapFlags) → ℕ → HeapFlags
set_refreshed value p flags = update flags p (record (flags p) { refreshed = value })

abbrev pub set_dup : ℕ → (ℕ → HeapFlags) → ℕ → HeapFlags
set_dup p flags = update flags p (record (flags p) { is_dup = true })

-- `is_prior_to == -1`
abbrev pub is_behind : HeapFlags → Bool
is_behind f = neg_part f.is_prior_to == 1

-- Where `rc` stays, one of two equal rows is marked. `element[s]` is `rc` only in the first round.
unfoldable pub mark_dup : Bool → HeapType → ℕ → ℕ → HeapType
mark_dup false heap s c = heap
mark_dup true heap s c = record heap {
  flags = if (heap.flags c).is_dup then set_dup (at heap s) heap.flags else set_dup c heap.flags;
}

-- The child `c` goes up to `s`.
abbrev pub move_up : HeapType → ℕ → ℕ → HeapType
move_up heap s c = record heap {
  element = set heap.element s c;
  flags = set_refreshed true c heap.flags;
}

abbrev pub with_failed : Bool → HeapType → HeapType
with_failed failed heap = record heap { compare_failed = heap.compare_failed || failed }

-- Whether `rc` is over, and else the comparison of `rc` with `c`.
unfoldable pub place_by : Bool → Bool × Bool × Bool → HeapType → ℕ → ℕ → Bool × HeapType
place_by true compared heap s c = (false, move_up heap s c)
place_by false (true, is_dup, failed) heap s c =
    (true, mark_dup is_dup (with_failed failed heap) s c)
place_by false (false, is_dup, failed) heap s c = (false, move_up (with_failed failed heap) s c)

-- `rest` is the loop from the next round on.
unfoldable pub after_place :
    (HeapType → ℕ → Option (HeapType × ℕ)) → ℕ → ℕ → Bool × HeapType → Option (HeapType × ℕ)
after_place rest s j (true, heap) = some (heap, s)
after_place rest s j (false, heap) = rest heap j

abbrev pub put_back : ℕ → Option (HeapType × ℕ) → Option HeapType
put_back rc none = none
put_back rc (some (heap, s)) =
    some (record heap { element = set heap.element s rc; flags = set_refreshed true rc heap.flags })

-- `prior` is is_prior_to on two elements: its result, `is_dup`, and whether `compare_failed` is set. `elem` has the
-- elements at their addresses.
module _ (prior : HeapElement → HeapElement → Bool × Bool × Bool) (elem : ℕ → HeapElement) where
  abbrev pub over : ℕ → Bool
  over p = (elem p).is_over

  -- The two children at `j` and `j + 1`, neither of which is over, are compared.
  unfoldable pub compare_children : HeapType → ℕ → HeapType × ℕ
  compare_children heap j =
      let a = at heap j in
      let b = at heap (suc j) in
      let (first, is_dup, failed) = prior (elem a) (elem b) in
      let marked =
        if first
        then set_prior (pos 1) a (if is_dup then set_dup b heap.flags else heap.flags)
        else set_prior (negsuc 0) b heap.flags in
      (
        record heap {
          flags = set_refreshed false b (set_refreshed false a marked);
          compare_failed = heap.compare_failed || failed;
        },
        if first then j else suc j,
      )

  -- The child to go on with; `none` is the break.
  unfoldable pub pick_child : HeapType → ℕ → ℕ → Option (HeapType × ℕ)
  pick_child heap j m =
      let a = at heap j in
      let b = at heap (suc j) in
      if ltb j m
      then if over a && over b
        then none
        else if over a
        then some (heap, suc j)
        else if over b
        then some (heap, j)
        else if not (heap.flags a).refreshed
            && not (heap.flags b).refreshed
            && is_behind (heap.flags a)
        then some (heap, suc j)
        else some (compare_children heap j)
      else if over a
      then none
      else some (heap, j)

  -- One round with the child `c` at `j`: whether `rc` stays, and the heap.
  unfoldable pub place : ℕ → HeapType → ℕ → ℕ → Bool × HeapType
  place rc heap s j = let c = at heap j in place_by (over rc) (prior (elem rc) (elem c)) heap s c

  unfoldable pub after_pick :
      ℕ
      → (HeapType → ℕ → Option (HeapType × ℕ))
      → HeapType
      → ℕ
      → Option (HeapType × ℕ)
      → Option (HeapType × ℕ)
  after_pick rc rest heap s none = some (heap, s)
  after_pick rc rest heap s (some (heap', j)) = after_place rest s j (place rc heap' s j)

  -- The heap and `s` at the end of the loop; `none` is that the fuel has run out.
  unfoldable pub sift : ℕ → ℕ → HeapType → ℕ → ℕ → Option (HeapType × ℕ)
  sift zero rc heap s m = none
  sift (suc fuel) rc heap s m =
      let next = after_pick rc (λ h j. sift fuel rc h j m) heap s (pick_child heap (2 * s + 1) m) in
      if ltb m (2 * s + 1) then some (heap, s) else next

  unfoldable pub heap_adjust : HeapType → ℕ → ℕ → Option HeapType
  heap_adjust heap s m = let rc = at heap (s - 1) in put_back rc (sift m rc heap (s - 1) (m - 1))
