-- ===== src/Merge/Sort/Settle.antt =====
-- heap_adjust puts the element on top where it belongs; then the row on top is not behind any other.
use cetus.Common.{ℕ, suc, ◌≡◌, sym, ap, arith, ◌∙◌, Bool, true, false, none, some, List}
use cetus.Merge.Columns.{TimeReaders}
use cetus.Merge.Heap.{HeapType, at}
use cetus.Merge.Heap.Order.{le}
use cetus.Merge.Heap.Adjust.{heap_adjust_lem}
use cetus.Merge.Heap.Ends.{Decides, heap_adjust_ends}
use cetus.Merge.Sort.Loop.{MergeState, MergeParameters, top, adjust_top}
use cetus.Merge.Sort.Round.{
  prior, TellsOrder, Shows, IsMerging, merging-IsOrder, pair_prior, pair_decides, IsUnsettled,
  IsEnded,
}
use cetus.Merge.Sort.Minimum.{find, top_least}
use cetus.Merge.Sort.Next.{with_heap}

module _ (readers : TimeReaders) (parameters : MergeParameters) (R : List ℕ → Type 0)
    (leq : List ℕ → List ℕ → Bool) (o : TellsOrder readers parameters R leq) where
  abbrev pub Merging : List ℕ → MergeState → Type 0
  Merging = IsMerging readers parameters R leq

  abbrev pub Shown : List ℕ → MergeState → ℕ → Type 0
  Shown last state p =
      Shows readers parameters R leq last (state.candidates p) p (state.sort.elem p)

  abbrev pub Live : MergeState → ℕ → Type 0
  Live state p = (state.sort.elem p).is_over ≡ false

  rows-Decides :
      (last : List ℕ) (state : MergeState)
      → ((p : ℕ) → Live state p → Shown last state p)
      → Decides (prior readers parameters R leq) state.sort.elem
  rows-Decides last state shows p q live_p live_q =
      pair_decides readers parameters R leq last o state.sort.elem state.candidates p q
        (shows p live_p) (shows q live_q)

  -- heap_adjust puts the element on top where it belongs, and does not fail.
  pub settle :
      (last : List ℕ) (state : MergeState)
      → IsUnsettled readers parameters R leq state
      → IsEnded readers parameters R leq state
      → ((p : ℕ) → Live state p → Shown last state p)
      → (heap' : HeapType) × (adjust_top readers parameters state ≡ some heap')
        × (heap'.compare_failed ≡ false)
        × Merging last (with_heap state heap')
  settle last state u ended shows =
      let order =
        merging-IsOrder readers parameters R leq last state.sort.elem state.candidates o shows in
      let (heap', run, order', sound', counts) =
        heap_adjust_lem (prior readers parameters R leq) state.sort.elem order 0 parameters.len
          state.sort.heap 1 (omega arith) (omega (arith, u.some_server)) u.sound u.sinks in
      let (heap2, run2, kept, top_kept) =
        heap_adjust_ends (prior readers parameters R leq) state.sort.elem state.sort.heap 1
          parameters.len (omega arith) (omega (arith, u.some_server)) in
      let same : heap2 ≡ heap' = some_inj (sym run2 ∙ run) in
      let unfailed : heap'.compare_failed ≡ false =
        sym (ap (λ h. h.compare_failed) same) ∙ kept (rows-Decides last state shows) u.unfailed in
      (
        heap',
        run,
        unfailed,
        record {
          some_server = u.some_server;
          unfailed = unfailed;
          order = order';
          sound = sound';
          held = λ p live. rw (counts p) (u.held p live);
          ended = ended;
          shows = shows;
        },
      )
    where
      some_inj : {a b : HeapType} → some a ≡ some b → a ≡ b
      some_inj {a} e = ap (λ r. elim r as (λ _. HeapType) [ some h ↦ h | none ↦ a ]) e

  pub below_top :
      (last : List ℕ) (state : MergeState)
      → Merging last state
      → (q : ℕ) → Live state q
      → le (prior readers parameters R leq) state.sort.elem (top state) q ≡ true
  below_top last state inv q live_q =
      let order =
        merging-IsOrder readers parameters R leq last state.sort.elem state.candidates o
          inv.shows in
      let (i, inside, there) = find q state.sort.heap.element (inv.held q live_q) in
      rw (sym there) (
        top_least (prior readers parameters R leq) state.sort.elem order parameters.len
          (at state.sort.heap) inv.order (suc i) i (omega arith) (omega (arith, inv.sound.long)))

  -- Where some element is not over, the one on top is not.
  pub top-Live :
      (last : List ℕ) (state : MergeState)
      → Merging last state
      → (q : ℕ) → Live state q
      → Live state (top state)
  top-Live last state inv q live_q = ground (arith, below_top last state inv q live_q)

  -- The row on top is not behind any other.
  pub least :
      (last : List ℕ) (state : MergeState) (inv : Merging last state)
      (live : Live state (top state)) (q : ℕ) (live_q : Live state q)
      → leq (inv.shows (top state) live).item (inv.shows q live_q).item ≡ true
  least last state inv live q live_q =
      let below = below_top last state inv q live_q in
      let first : (prior readers parameters R leq (state.sort.elem (top state))
            (state.sort.elem q)).0
          ≡ true =
        ground arith in
      sym (
        pair_prior readers parameters R leq last o state.sort.elem state.candidates (top state) q
          (inv.shows (top state) live) (inv.shows q live_q))
      ∙ first
