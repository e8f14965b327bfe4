-- ===== src/Merge/Sort/Linked.antt =====
-- What ties the heap of do_sort_merge to the packets that have been read, whatever the order of the rows.
use cetus.Common.{
  ℕ, ◌<◌, ◌≡◌, ◌≢◌, refl, sym, ap, arith, ◌∙◌, subst, false, Option, none, some, List, [], ◌∷◌,
  if◌then◌else◌, ◌==◌, ==_iff, Bool-cases, ◌⊎◌, inl, inr,
}
use cetus.Merge.Heap.{HeapElement, HeapType, at}
use cetus.Merge.Sort.Loop.{MergeState, top, top_element}
use cetus.Merge.Sort.Next.{
  TopChanged, with_heap, next_state, next-TopChanged, next-candidates, next-top,
}
use cetus.Merge.Sort.Refill.{filled}

module _ (len : ℕ) where
  -- The candidate of server `p`, which is there, is the record of its element.
  pub record HasRow (candidates : List (Option (List ℕ))) (p : ℕ) (e : HeapElement) : Type 0 where
    pub item : List ℕ
    pub rest : List (Option (List ℕ))
    pub here : candidates ≡ some item ∷ rest
    pub row : e.row ≡ some item
    pub index : e.index ≡ p
    pub server : p < len

  abbrev pub RowAt : MergeState → ℕ → Type 0
  RowAt state p =
      (state.sort.elem p).is_over ≡ false → HasRow (state.candidates p) p (state.sort.elem p)

  -- The element on top has no record; nothing has come in of its server, or some packet, be it a row or the
  -- packet that ends its rows.
  pub record IsLacking (state : MergeState) : Type 0 where
    pub live : (top_element state).is_over ≡ false
    pub no_record : (top_element state).row ≡ none
    pub index : (top_element state).index ≡ top state
    pub server : top state < len
    pub next :
        (state.candidates (top state) ≡ [])
        ⊎ ((item : List ℕ) × (rest : List (Option (List ℕ))) × (state.candidates (top state)
              ≡ some item ∷ rest))

  -- Every element that is not over has its row, unless it is on top and its server is waited for.
  pub record IsLinked (state : MergeState) : Type 0 where
    pub some_server : 0 < len
    pub others : (p : ℕ) → p ≢ top state → RowAt state p
    pub first : RowAt state (top state) ⊎ IsLacking state

  changed-RowAt :
      (state state' : MergeState)
      → TopChanged state state'
      → (p : ℕ) → p ≢ top state
      → state'.candidates p ≡ state.candidates p
      → RowAt state p
      → RowAt state' p
  changed-RowAt state state' c p ne candidates row live =
      let same = c.elem p ne in
      let s = row (sym (ap (λ e. e.is_over) same) ∙ live) in
      record {
        item = s.item;
        rest = s.rest;
        here = candidates ∙ s.here;
        row = ap (λ e. e.row) same ∙ s.row;
        index = ap (λ e. e.index) same ∙ s.index;
        server = s.server;
      }

  -- Where every element has its row, any heap will do.
  pub all-IsLinked :
      (state : MergeState) (heap : HeapType)
      → 0 < len
      → ((p : ℕ) → RowAt state p)
      → IsLinked (with_heap state heap)
  all-IsLinked state heap h rows = record {
    some_server = h;
    others = λ p ne. rows p;
    first = inl (rows (at heap 0));
  }

  -- With the packet that has come in.
  pub filled-RowAt :
      (state : MergeState)
      → IsLacking state
      → ((p : ℕ) → p ≢ top state → RowAt state p)
      → (item : List ℕ) (rest : List (Option (List ℕ)))
      → state.candidates (top state) ≡ some item ∷ rest
      → (p : ℕ) → RowAt (filled state (some item)) p
  filled-RowAt state w others item rest here p = elim (Bool-cases (p == top state)) [
    | inl hit ↦
        let e : top state ≡ p = sym ((==_iff p (top state)).0 hit) in
        subst (RowAt (filled state (some item))) e (λ live. record {
          item = item;
          rest = rest;
          here = here;
          row = ground arith;
          index = ground (arith, w.index);
          server = w.server;
        })
    | inr miss ↦
        let ne : p ≢ top state = λ e. absurd (ground arith) in
        changed-RowAt state (filled state (some item))
          (record { same = refl; elem = λ q h. ground arith; flags = λ q h. refl }) p ne refl
          (others p ne)
  ]

  module _ (state : MergeState) (index : (top_element state).index ≡ top state)
      (server : top state < len) (item : List ℕ) (rest : List (Option (List ℕ))) where
    next-here : (next_state state item rest).candidates (top state) ≡ some item ∷ rest
    next-here = next-candidates state item rest (top state) ∙ ground (arith, index)

    pub next-elsewhere :
        (p : ℕ)
        → (p == top state) ≡ false
        → (next_state state item rest).candidates p ≡ state.candidates p
    next-elsewhere p miss = next-candidates state item rest p ∙ ground (arith, index)

    -- With the next packet of the server on top, which is a row or ends its rows.
    pub next-RowAt : ((p : ℕ) → RowAt state p) → (p : ℕ) → RowAt (next_state state item rest) p
    next-RowAt rows p = elim (Bool-cases (p == top state)) [
      | inl hit ↦
          let e : top state ≡ p = sym ((==_iff p (top state)).0 hit) in
          subst (RowAt (next_state state item rest)) e (λ live.
            let (going, row, same) = next-top state item rest live in
            record {
              item = item;
              rest = rest;
              here = next-here;
              row = row;
              index = same ∙ index;
              server = server;
            })
      | inr miss ↦
          let ne : p ≢ top state = λ e. absurd (ground arith) in
          changed-RowAt state (next_state state item rest) (next-TopChanged state item rest) p ne
            (next-elsewhere p miss) (rows p)
    ]

    -- A row less is left of the server on top.
    pub next_dropped :
        (taken : List ℕ)
        → state.candidates (top state) ≡ some taken ∷ some item ∷ rest
        → (p : ℕ)
        → state.candidates p ≡ (
            if p == top state
            then some taken ∷ (next_state state item rest).candidates p
            else (next_state state item rest).candidates p)
    next_dropped taken here p = elim (Bool-cases (p == top state)) [
      | inl hit ↦
          let e : p ≡ top state = (==_iff p (top state)).0 hit in
          rw hit (
            ap state.candidates e
            ∙ here
            ∙ ap (◌∷◌ (some taken))
                (sym (ap (next_state state item rest).candidates e ∙ next-here)))
      | inr miss ↦ rw miss (sym (next-elsewhere p miss))
    ]
