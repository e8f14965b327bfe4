-- ===== src/Merge/Sort/Round.antt =====
-- The state of do_sort_merge between two rounds, and behind a wait.
use cetus.Common.{
  ℕ, ◌-◌, ◌<◌, ◌≡◌, ◌≢◌, sym, ap, arith, ◌∙◌, Bool, true, false, Option, none, some, List, [], ◌∷◌,
  ◌==◌, ◌⊎◌,
}
use cetus.Merge.Columns.{TimeReaders}
use cetus.Merge.Heap.{HeapElement, at}
use cetus.Merge.Heap.Order.{IsOrder, IsLive, Sinks, IsHeapFrom}
use cetus.Merge.Heap.Sift.{IsSound, count}
use cetus.Merge.Sort.{row_prior, element_prior, is_end}
use cetus.Merge.Sort.Loop.{MergeState, MergeParameters, top, top_element, head_data}

module _ (readers : TimeReaders) (parameters : MergeParameters) (R : List ℕ → Type 0)
    (leq : List ℕ → List ℕ → Bool) where
  abbrev pub prior : HeapElement → HeapElement → Bool × Bool × Bool
  prior = element_prior readers parameters.order_array

  -- is_prior_to tells an order `leq` of the rows `R`, and does not fail. Two rows of one server are not compared.
  pub record TellsOrder : Type 0 where
    pub agrees :
        (i j : ℕ) (a b : List ℕ)
        → R a
        → R b
        → (i ≡ j → a ≡ b)
        → (row_prior readers parameters.order_array i j (some a) (some b)).0 ≡ leq a b
    pub decides :
        (i j : ℕ) (a b : List ℕ)
        → R a
        → R b
        → (i ≡ j → a ≡ b)
        → (row_prior readers parameters.order_array i j (some a) (some b)).2 ≡ false
    pub total : (a b : List ℕ) → R a → R b → leq a b ≡ false → leq b a ≡ true
    pub trans :
        (a b c : List ℕ) → R a → R b → R c → leq a b ≡ true → leq b c ≡ true → leq a c ≡ true

  -- What a server sends behind a row: rows in order, up to the packet that ends them. Packets have data.
  abbrev pub Ascends : List ℕ → List (Option (List ℕ)) → Type 0
  Ascends a [] = Unit
  Ascends a (none ∷ rest) = ⊥
  Ascends a (some b ∷ rest) = is_end b ≡ false → R b × (leq a b ≡ true) × Ascends b rest

  -- An element that is not over has the next row of its server, which is not in front of `last`.
  pub record Shows (last : List ℕ) (candidates : List (Option (List ℕ))) (p : ℕ) (e : HeapElement)
      : Type 0 where
    pub item : List ℕ
    pub rest : List (Option (List ℕ))
    pub here : candidates ≡ some item ∷ rest
    pub row : e.row ≡ some item
    pub index : e.index ≡ p
    pub server : p < parameters.len
    pub is_row : R item
    pub later : leq last item ≡ true
    pub ascends : Ascends item rest

  -- The packet that ends the rows of a server is its candidate.
  abbrev pub Ends : List (Option (List ℕ)) → Type 0
  Ends [] = ⊥
  Ends (none ∷ rest) = ⊥
  Ends (some item ∷ rest) = is_end item ≡ true

  -- A heap that is in order but for the element on top.
  pub record IsUnsettled (state : MergeState) : Type 0 where
    pub some_server : 0 < parameters.len
    pub unfailed : state.sort.heap.compare_failed ≡ false
    pub sinks : Sinks prior state.sort.elem 0 parameters.len (at state.sort.heap) 0
    pub sound : IsSound prior state.sort.elem parameters.len state.sort.heap (λ i. i == 1 - 1)
    pub held : (p : ℕ) → IsLive prior state.sort.elem p → 0 < count p state.sort.heap.element

  -- An element is over only where its server's rows have ended.
  abbrev pub IsEnded : MergeState → Type 0
  IsEnded state =
      (p : ℕ) → p < parameters.len → (state.sort.elem p).is_over ≡ true → Ends (state.candidates p)

  -- The state between two rounds, where the rows up to `last` are taken.
  pub record IsMerging (last : List ℕ) (state : MergeState) : Type 0 where
    pub some_server : 0 < parameters.len
    pub unfailed : state.sort.heap.compare_failed ≡ false
    pub order : IsHeapFrom prior state.sort.elem 0 parameters.len (at state.sort.heap)
    pub sound : IsSound prior state.sort.elem parameters.len state.sort.heap (λ i. false)
    pub held : (p : ℕ) → IsLive prior state.sort.elem p → 0 < count p state.sort.heap.element
    pub ended : IsEnded state
    pub shows :
        (p : ℕ)
        → IsLive prior state.sort.elem p
        → Shows last (state.candidates p) p (state.sort.elem p)

  -- A row that is not in front of `last` has come in, with what stands behind it.
  pub record Arrives (last : List ℕ) (candidates : List (Option (List ℕ))) : Type 0 where
    pub item : List ℕ
    pub rest : List (Option (List ℕ))
    pub here : candidates ≡ some item ∷ rest
    pub is_row : R item
    pub later : leq last item ≡ true
    pub ascends : Ascends item rest

  -- The state in which a merge waits for a server, whose element is on top with no record; its next row may
  -- have come in.
  pub record IsWaiting (last : List ℕ) (state : MergeState) : Type 0 where
    pub unsettled : IsUnsettled state
    pub live : IsLive prior state.sort.elem (top state)
    pub no_record : (top_element state).row ≡ none
    pub index : (top_element state).index ≡ top state
    pub server : top state < parameters.len
    pub next : (state.candidates (top state) ≡ []) ⊎ Arrives last (state.candidates (top state))
    pub ended : IsEnded state
    pub shows :
        (p : ℕ)
        → p ≢ top state
        → IsLive prior state.sort.elem p
        → Shows last (state.candidates p) p (state.sort.elem p)

  same_item :
      (last : List ℕ) (elem : ℕ → HeapElement) (candidates : ℕ → List (Option (List ℕ))) (p q : ℕ)
      (sp : Shows last (candidates p) p (elem p)) (sq : Shows last (candidates q) q (elem q))
      → (elem p).index ≡ (elem q).index
      → sp.item ≡ sq.item
  same_item last elem candidates p q sp sq e =
      let pq : p ≡ q = sym sp.index ∙ e ∙ sq.index in
      let heads : some sp.item ≡ some sq.item =
        sym (ap head_data sp.here) ∙ ap (λ i. head_data (candidates i)) pq ∙ ap head_data sq.here in
      ground arith

  pub pair_decides :
      (last : List ℕ) (o : TellsOrder) (elem : ℕ → HeapElement)
      (candidates : ℕ → List (Option (List ℕ))) (p q : ℕ)
      (sp : Shows last (candidates p) p (elem p)) (sq : Shows last (candidates q) q (elem q))
      → (prior (elem p) (elem q)).2 ≡ false
  unfolding element_prior
  pair_decides last o elem candidates p q sp sq =
      rw (sp.row, sq.row)
        (o.decides (elem p).index (elem q).index sp.item sq.item sp.is_row sq.is_row
          (same_item last elem candidates p q sp sq))

  pub pair_prior :
      (last : List ℕ) (o : TellsOrder) (elem : ℕ → HeapElement)
      (candidates : ℕ → List (Option (List ℕ))) (p q : ℕ)
      (sp : Shows last (candidates p) p (elem p)) (sq : Shows last (candidates q) q (elem q))
      → (prior (elem p) (elem q)).0 ≡ leq sp.item sq.item
  unfolding element_prior
  pair_prior last o elem candidates p q sp sq =
      rw (sp.row, sq.row)
        (o.agrees (elem p).index (elem q).index sp.item sq.item sp.is_row sq.is_row
          (same_item last elem candidates p q sp sq))

  pub merging-IsOrder :
      (last : List ℕ) (elem : ℕ → HeapElement) (candidates : ℕ → List (Option (List ℕ)))
      → TellsOrder
      → ((p : ℕ) → IsLive prior elem p → Shows last (candidates p) p (elem p))
      → IsOrder prior elem
  merging-IsOrder last elem candidates o shows = record {
    total = λ p q lp lq h.
        let sp = shows p lp in
        let sq = shows q lq in
        pair_prior last o elem candidates q p sq sp
        ∙ o.total sp.item sq.item sp.is_row sq.is_row
            (sym (pair_prior last o elem candidates p q sp sq) ∙ h);
    trans = λ p q r lp lq lr h k.
        let sp = shows p lp in
        let sq = shows q lq in
        let sr = shows r lr in
        pair_prior last o elem candidates p r sp sr
        ∙ o.trans sp.item sq.item sr.item sp.is_row sq.is_row sr.is_row
            (sym (pair_prior last o elem candidates p q sp sq) ∙ h)
            (sym (pair_prior last o elem candidates q r sq sr) ∙ k);
  }
