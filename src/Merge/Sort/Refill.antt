-- ===== src/Merge/Sort/Refill.antt =====
-- do_sort_merge behind a wait: the next row of the server is put on top, and the heap is in order again.
use cetus.Common.{
  ℕ, ◌≡◌, ◌≢◌, refl, sym, ap, arith, ◌∙◌, subst, Bool, false, Option, some, List, ◌==◌, ==_iff,
  Bool-cases, inl, inr,
}
use cetus.Merge.Columns.{TimeReaders}
use cetus.Merge.Heap.{HeapType}
use cetus.Merge.Sort.{put}
use cetus.Merge.Sort.Loop.{MergeState, MergeParameters, top, top_element, adjust_top}
use cetus.Merge.Sort.Next.{TopChanged, with_heap}
use cetus.Merge.Sort.Changed.{changed-IsUnsettled}
use cetus.Merge.Sort.Round.{TellsOrder, Arrives, IsEnded, IsWaiting}
use cetus.Merge.Sort.Settle.{Merging, Live, Shown, settle}

abbrev pub filled : MergeState → Option (List ℕ) → MergeState
filled state packet = record state {
  sort = record state.sort {
    elem = put state.sort.elem (top state) (record (top_element state) { row = packet });
  };
}

module _ (readers : TimeReaders) (parameters : MergeParameters) (R : List ℕ → Type 0)
    (leq : List ℕ → List ℕ → Bool) (o : TellsOrder readers parameters R leq) where
  filled-TopChanged :
      (state : MergeState) (packet : Option (List ℕ)) → TopChanged state (filled state packet)
  filled-TopChanged state packet = record {
    same = refl;
    elem = λ q h. ground arith;
    flags = λ q h. refl;
  }

  module _ (last : List ℕ) (state : MergeState) (w : IsWaiting readers parameters R leq last state)
      (a : Arrives readers parameters R leq last (state.candidates (top state))) where
    abbrev full : MergeState
    full = filled state (some a.item)

    full-Shown :
        (p : ℕ)
        → Live readers parameters R leq o full p
        → Shown readers parameters R leq o last full p
    full-Shown p live = elim (Bool-cases (p == top state)) [
      | inl hit ↦
          let e : top state ≡ p = sym ((==_iff p (top state)).0 hit) in
          subst (Shown readers parameters R leq o last full) e (record {
            item = a.item;
            rest = a.rest;
            here = a.here;
            row = ground arith;
            index = ground (arith, w.index);
            server = w.server;
            is_row = a.is_row;
            later = a.later;
            ascends = a.ascends;
          })
      | inr miss ↦
          let ne : p ≢ top state = λ e. absurd (ground arith) in
          let same = (filled-TopChanged state (some a.item)).elem p ne in
          let s = w.shows p ne (sym (ap (λ e. e.is_over) same) ∙ live) in
          record {
            item = s.item;
            rest = s.rest;
            here = s.here;
            row = ap (λ e. e.row) same ∙ s.row;
            index = ap (λ e. e.index) same ∙ s.index;
            server = s.server;
            is_row = s.is_row;
            later = s.later;
            ascends = s.ascends;
          }
    ]

    over_same : (p : ℕ) → (full.sort.elem p).is_over ≡ (state.sort.elem p).is_over
    over_same p = elim (Bool-cases (p == top state)) [
      | inl hit ↦ let e : p ≡ top state = (==_iff p (top state)).0 hit in rw e (ground arith)
      | inr miss ↦ ground arith
    ]

    full-Ended : IsEnded readers parameters R leq full
    full-Ended p h over = w.ended p h (sym (over_same p) ∙ over)

    pub full_settled :
        (heap' : HeapType) × (adjust_top readers parameters full ≡ some heap')
        × (heap'.compare_failed ≡ false)
        × Merging readers parameters R leq o last (with_heap full heap')
    full_settled =
        settle readers parameters R leq o last full
          (changed-IsUnsettled readers parameters R leq state full w.unsettled
            (filled-TopChanged state (some a.item)) refl)
          full-Ended full-Shown

    -- The server that was waited for has a row.
    pub full-Live : Live readers parameters R leq o full (top state)
    full-Live = over_same (top state) ∙ w.live
