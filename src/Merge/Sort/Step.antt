-- ===== src/Merge/Sort/Step.antt =====
-- The row that do_sort_merge takes is not behind any other, and what is left is a heap again.
use cetus.Common.{
  ℕ, ◌<◌, ◌≡◌, ◌≢◌, refl, sym, ap, arith, ◌∙◌, subst, Bool, true, false, Option, none, some, List,
  [], ◌∷◌, if◌then◌else◌, ◌==◌, ==_iff, Bool-cases, inl, inr,
}
use cetus.Merge.Columns.{TimeReaders}
use cetus.Merge.Heap.{HeapType, update}
use cetus.Merge.Sort.Loop.{MergeState, MergeParameters, top, top_element, advance_top, adjust_top}
use cetus.Merge.Sort.Changed.{merging-IsUnsettled, changed-IsUnsettled}
use cetus.Merge.Sort.Round.{TellsOrder, Ascends, IsEnded, IsWaiting, Ends}
use cetus.Merge.Sort.Next.{
  TopChanged, with_heap, next_state, next-TopChanged, next-candidates, next-top, next-failed,
  next-over,
}
use cetus.Merge.Sort.Settle.{Merging, Shown, Live, settle, least}

module _ (readers : TimeReaders) (parameters : MergeParameters) (R : List ℕ → Type 0)
    (leq : List ℕ → List ℕ → Bool) (o : TellsOrder readers parameters R leq) where
  module _ (last : List ℕ) (state : MergeState)
      (inv : Merging readers parameters R leq o last state)
      (live : Live readers parameters R leq o state (top state)) where
    abbrev pub taken_row : List ℕ
    taken_row = (inv.shows (top state) live).item

    -- The rows of the other servers are not in front of the row on top.
    others-Shown :
        (state' : MergeState)
        → TopChanged state state'
        → (p : ℕ) → p ≢ top state
        → state'.candidates p ≡ state.candidates p
        → Live readers parameters R leq o state' p
        → Shown readers parameters R leq o taken_row state' p
    others-Shown state' c p ne candidates live_p =
        let same = c.elem p ne in
        let live_q : Live readers parameters R leq o state p =
          sym (ap (λ e. e.is_over) same) ∙ live_p in
        let q = inv.shows p live_q in
        record {
          item = q.item;
          rest = q.rest;
          here = candidates ∙ q.here;
          row = ap (λ e. e.row) same ∙ q.row;
          index = ap (λ e. e.index) same ∙ q.index;
          server = q.server;
          is_row = q.is_row;
          later = least readers parameters R leq o last state inv live p live_q;
          ascends = q.ascends;
        }

    others-Ended :
        (state' : MergeState)
        → TopChanged state state'
        → (p : ℕ) → p ≢ top state
        → state'.candidates p ≡ state.candidates p
        → p < parameters.len
        → (state'.sort.elem p).is_over ≡ true
        → Ends readers parameters R leq (state'.candidates p)
    others-Ended state' c p ne candidates h over =
        subst (Ends readers parameters R leq) (sym candidates)
          (inv.ended p h (sym (ap (λ e. e.is_over) (c.elem p ne)) ∙ over))

    module _ (item : List ℕ) (rest : List (Option (List ℕ)))
        (behind : (inv.shows (top state) live).rest ≡ some item ∷ rest) where
      abbrev pub next : MergeState
      next = next_state state item rest

      changed : TopChanged state next
      changed = next-TopChanged state item rest

      pub at_top : next.candidates (top state) ≡ some item ∷ rest
      at_top =
          next-candidates state item rest (top state)
          ∙ ground (arith, (inv.shows (top state) live).index)

      pub elsewhere : (p : ℕ) → (p == top state) ≡ false → next.candidates p ≡ state.candidates p
      elsewhere p miss =
          next-candidates state item rest p ∙ ground (arith, (inv.shows (top state) live).index)

      next-Shown :
          (p : ℕ)
          → Live readers parameters R leq o next p
          → Shown readers parameters R leq o taken_row next p
      next-Shown p live_p =
          let s = inv.shows (top state) live in
          elim (Bool-cases (p == top state)) [
            | inl hit ↦
                let e : top state ≡ p = sym ((==_iff p (top state)).0 hit) in
                let (going, row, index) = next-top state item rest (rw e live_p) in
                let (is_row, later, ascends) =
                  subst (Ascends readers parameters R leq taken_row) behind s.ascends going in
                subst (Shown readers parameters R leq o taken_row next) e (record {
                  item = item;
                  rest = rest;
                  here = at_top;
                  row = row;
                  index = index ∙ s.index;
                  server = s.server;
                  is_row = is_row;
                  later = later;
                  ascends = ascends;
                })
            | inr miss ↦
                let ne : p ≢ top state = λ e. absurd (ground arith) in
                others-Shown next changed p ne (elsewhere p miss) live_p
          ]

      next-Ended : IsEnded readers parameters R leq next
      next-Ended p h over = elim (Bool-cases (p == top state)) [
        | inl hit ↦
            let e : p ≡ top state = (==_iff p (top state)).0 hit in
            rw e (
              subst (Ends readers parameters R leq) (sym at_top)
                (next-over state item rest (rw e at over)))
        | inr miss ↦
            let ne : p ≢ top state = λ e. absurd (ground arith) in
            others-Ended next changed p ne (elsewhere p miss) h over
      ]

      pub next_settled :
          (heap' : HeapType) × (adjust_top readers parameters next ≡ some heap')
          × (heap'.compare_failed ≡ false)
          × Merging readers parameters R leq o taken_row (with_heap next heap')
      next_settled =
          settle readers parameters R leq o taken_row next
            (changed-IsUnsettled readers parameters R leq state next
              (merging-IsUnsettled readers parameters R leq last state inv) changed
              (next-failed state item rest))
            next-Ended next-Shown

    module _ (behind : (inv.shows (top state) live).rest ≡ []) where
      abbrev pub waiting : MergeState
      waiting = advance_top [] state

      waiting-TopChanged : TopChanged state waiting
      unfolding advance_top update
      waiting-TopChanged = record {
        same = refl;
        elem = λ q h. ground arith;
        flags = λ q h. ground arith;
      }

      pub waiting-candidates :
          (p : ℕ)
          → waiting.candidates p
            ≡ (if p == (top_element state).index then [] else state.candidates p)
      unfolding advance_top
      waiting-candidates p = refl

      pub none_there : waiting.candidates (top state) ≡ []
      none_there =
          waiting-candidates (top state) ∙ ground (arith, (inv.shows (top state) live).index)

      pub not_there : (p : ℕ) → (p == top state) ≡ false → waiting.candidates p ≡ state.candidates p
      not_there p miss = waiting-candidates p ∙ ground (arith, (inv.shows (top state) live).index)

      waiting-failed : waiting.sort.heap.compare_failed ≡ state.sort.heap.compare_failed
      unfolding advance_top
      waiting-failed = refl

      waiting-top : top waiting ≡ top state
      unfolding advance_top
      waiting-top = refl

      waiting-element :
          ((waiting.sort.elem (top state)).is_over ≡ false)
          × ((waiting.sort.elem (top state)).row ≡ none)
          × ((waiting.sort.elem (top state)).index ≡ (top_element state).index)
      unfolding advance_top
      waiting-element = (ground (arith, live), ground arith, ground arith)

      waiting-Ended : IsEnded readers parameters R leq waiting
      waiting-Ended p h over = elim (Bool-cases (p == top state)) [
        | inl hit ↦
            let e : p ≡ top state = (==_iff p (top state)).0 hit in
            let live_top = waiting-element.0 in
            let no_way : ◌≡◌ {A = Bool} false true = sym live_top ∙ rw e at over in
            absurd (ground arith)
        | inr miss ↦
            let ne : p ≢ top state = λ e. absurd (ground arith) in
            others-Ended waiting waiting-TopChanged p ne (not_there p miss) h over
      ]

      pub waiting-IsWaiting : IsWaiting readers parameters R leq taken_row waiting
      unfolding advance_top
      waiting-IsWaiting =
          let s = inv.shows (top state) live in
          record {
            unsettled =
                changed-IsUnsettled readers parameters R leq state waiting
                  (merging-IsUnsettled readers parameters R leq last state inv) waiting-TopChanged
                  waiting-failed;
            live = rw waiting-top waiting-element.0;
            no_record = rw waiting-top waiting-element.1;
            index = rw waiting-top (waiting-element.2 ∙ s.index);
            server = rw waiting-top s.server;
            next = inl (rw waiting-top none_there);
            ended = waiting-Ended;
            shows = λ p ne live_p.
                let ne' : p ≢ top state = rw waiting-top at ne in
                let miss : (p == top state) ≡ false = ground arith in
                others-Shown waiting waiting-TopChanged p ne' (not_there p miss) live_p;
          }
