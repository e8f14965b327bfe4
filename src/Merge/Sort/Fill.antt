-- ===== src/Merge/Sort/Fill.antt =====
-- The first loop of create_heap_for_merge_sort gives every server its next row.
use cetus.Common.{
  subst, ℕ, zero, suc, ◌+◌, ◌<◌, ◌≡◌, ◌≢◌, refl, sym, ap, arith, ◌∙◌, Bool, true, false, Option,
  none, some, List, [], ◌∷◌, get_or, ◌==◌, ==_iff, Bool-cases, ◌⊎◌, inl, inr,
}
use cetus.Merge.Heap.{HeapElement, at, update}
use cetus.Merge.Sort.{SortHeap, is_end, put, no_flags, with_end, with_row, reset, fill_one, fill}

abbrev Shown : Bool → List ℕ → ℕ → HeapElement → Type 0
Shown true item i e = e.is_over ≡ true
Shown false item i e = (e.row ≡ some item) × (e.index ≡ i) × (e.is_over ≡ false)

-- The element has the first packet of its server, or is over with it.
abbrev pub Fronts : List (Option (List ℕ)) → ℕ → HeapElement → Type 0
Fronts [] i e = Unit
Fronts (none ∷ candidates) i e = ⊥
Fronts (some item ∷ candidates) i e = Shown (is_end item) item i e

-- `elements` are the addresses; those below `iter` are filled.
pub record Filled (candidates : ℕ → List (Option (List ℕ))) (elements : List ℕ) (iter : ℕ)
    (state : SortHeap) : Type 0 where
  pub same : state.heap.element ≡ elements
  pub fronts : (i : ℕ) → i < iter → Fronts (candidates i) i (state.elem i)
  pub flags : (i : ℕ) → i < iter → state.heap.flags i ≡ no_flags

put_there : (elem : ℕ → HeapElement) (p q : ℕ) (e : HeapElement) → p ≢ q → put elem p e q ≡ elem q
put_there elem p q e h = ground arith

-- What one round does to the element at `p`, and to the others.
pub record Fills (p : ℕ) (candidates : List (Option (List ℕ))) (state state' : SortHeap)
    : Type 0 where
  pub same : state'.heap.element ≡ state.heap.element
  pub front : Fronts candidates p (state'.elem p)
  pub other : (q : ℕ) → p ≢ q → state'.elem q ≡ state.elem q
  pub no_flags_here : state'.heap.flags p ≡ no_flags
  pub flags_there : (q : ℕ) → p ≢ q → state'.heap.flags q ≡ state.heap.flags q

fill_one_lem :
    (p : ℕ) (candidates : List (Option (List ℕ))) (state : SortHeap)
    → (fill_one p p candidates state ≡ none)
      ⊎ ((state' : SortHeap) × (fill_one p p candidates state ≡ some state')
          × Fills p candidates state state')
unfolding fill_one reset with_end with_row update
fill_one_lem p [] state = inr (
  reset p state,
  refl,
  record {
    same = refl;
    front = tt;
    other = λ q h. put_there state.elem p q _ h;
    no_flags_here = ground arith;
    flags_there = λ q h. ground arith;
  },
)
fill_one_lem p (none ∷ candidates) state = inl refl
fill_one_lem p (some item ∷ candidates) state = elim (Bool-cases (is_end item)) [
  | inl end ↦ inr (
    with_end p item (reset p state),
    rw end refl,
    record {
      same = refl;
      front = rw end (ground arith);
      other = λ q h. ground arith;
      no_flags_here = ground arith;
      flags_there = λ q h. ground arith;
    },
  )
  | inr row ↦ inr (
    with_row p p item (reset p state),
    rw row refl,
    record {
      same = refl;
      front = rw row (ground arith, ground arith, ground arith);
      other = λ q h. ground arith;
      no_flags_here = ground arith;
      flags_there = λ q h. ground arith;
    },
  )
]

Filled-step :
    (candidates : ℕ → List (Option (List ℕ))) (elements : List ℕ) (iter : ℕ)
    (state state' : SortHeap)
    → Filled candidates elements iter state
    → Fills iter (candidates iter) state state'
    → Filled candidates elements (suc iter) state'
Filled-step candidates elements iter state state' inv f = record {
  same = f.same ∙ inv.same;
  fronts = λ i h. elim (Bool-cases (i == iter)) [
    | inl hit ↦ rw ((==_iff i iter).0 hit) f.front
    | inr miss ↦
        let ne : iter ≢ i = λ e. absurd (ground arith) in
        rw (f.other i ne) (inv.fronts i (ground arith))
  ];
  flags = λ i h. elim (Bool-cases (i == iter)) [
    | inl hit ↦ rw ((==_iff i iter).0 hit) f.no_flags_here
    | inr miss ↦
        let ne : iter ≢ i = λ e. absurd (ground arith) in
        f.flags_there i ne ∙ inv.flags i (ground arith)
  ];
}

pub fill_lem :
    (candidates : ℕ → List (Option (List ℕ))) (elements : List ℕ) (n rounds iter : ℕ)
    (state : SortHeap)
    → rounds + iter ≡ n
    → ((i : ℕ) → i < n → at state.heap i ≡ i)
    → Filled candidates elements iter state
    → ((i : ℕ) × (fill candidates rounds iter state ≡ inl i))
      ⊎ ((state' : SortHeap) × (fill candidates rounds iter state ≡ inr state')
          × Filled candidates elements n state')
unfolding fill
fill_lem candidates elements n zero iter state size here inv =
    inr (state, refl, subst (λ k. Filled candidates elements k state) (omega arith) inv)
fill_lem candidates elements n (suc rounds) iter state size here inv =
    let own = here iter (omega arith) in
    elim (fill_one_lem iter (candidates iter) state) [
      | inl waits ↦ inl (iter, rw (own, waits) refl)
      | inr (state', run, f) ↦
          rw (own, run)
            (fill_lem candidates elements n rounds (suc iter) state' (omega arith)
              (λ i h. ap (λ xs. get_or xs i 0) f.same ∙ here i h)
              (Filled-step candidates elements iter state state' inv f))
    ]

pub fill-Filled :
    (candidates : ℕ → List (Option (List ℕ))) (n : ℕ) (state state' : SortHeap)
    → ((i : ℕ) → i < n → at state.heap i ≡ i)
    → fill candidates n 0 state ≡ inr state'
    → Filled candidates state.heap.element n state'
fill-Filled candidates n state state' own run =
    elim (fill_lem candidates state.heap.element n n 0 state (omega arith) own (record {
      same = refl;
      fronts = λ i h. absurd (omega arith);
      flags = λ i h. absurd (omega arith);
    })) [
      | inl (i, waits) ↦ absurd (ground (arith, sym waits ∙ run))
      | inr (there, run', filled) ↦
          let same : there ≡ state' = ground (arith, sym run' ∙ run) in rw (sym same) filled
    ]
