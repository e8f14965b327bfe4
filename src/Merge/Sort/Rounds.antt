-- ===== src/Merge/Sort/Rounds.antt =====
-- A round of do_sort_merge ends, whatever the order of the rows, and takes a packet off where it goes on.
use cetus.Common.{
  ℕ, ◌<◌, ◌≡◌, ◌≢◌, refl, sym, ap, arith, ◌∙◌, subst, false, ◌||◌, Option, none, some, List, [],
  ◌∷◌, if◌then◌else◌, ◌==◌, ==_iff, leb, Bool-cases, inl, inr,
}
use cetus.Merge.Columns.{TimeReaders}
use cetus.Merge.Heap.Ends.{heap_adjust_ends}
use cetus.Merge.Sort.{element_prior}
use cetus.Merge.Sort.Loop.{
  MergeState, MergeParameters, top, top_element, put_out, forget_offsets, Round, goes_on, leaves,
  waits_read, fails, behind_head, advance_top, with_adjusted, go_on, take_row, refill, start_round,
  merge_round,
}
use cetus.Merge.Sort.Next.{with_heap, next_state}
use cetus.Merge.Sort.Output.{put_out-same}
use cetus.Merge.Sort.Refill.{filled}
use cetus.Merge.Sort.Linked.{
  HasRow, RowAt, IsLacking, IsLinked, all-IsLinked, filled-RowAt, next-RowAt, next_dropped,
}

module _ (readers : TimeReaders) (parameters : MergeParameters) where
  -- A packet of one of the servers is taken off.
  pub record TakesOne (state state' : MergeState) : Type 0 where
    pub at_server : ℕ
    pub server : at_server < parameters.len
    pub taken : List ℕ
    pub dropped :
        (p : ℕ)
        → state.candidates p
          ≡ (if p == at_server then some taken ∷ state'.candidates p else state'.candidates p)

  abbrev pub Outcome : MergeState → Round → Type 0
  Outcome state (leaves state') = Unit
  Outcome state (waits_read i state') = Unit
  Outcome state fails = Unit
  Outcome state (goes_on state' last') = IsLinked parameters.len state' × TakesOne state state'

  abbrev pub Ended : MergeState → Option Round → Type 0
  Ended state run = (r : Round) × (run ≡ some r) × Outcome state r

  -- What is taken of `out` is taken of `state`, which has the same candidates.
  same-Outcome :
      (state out : MergeState) (r : Round)
      → out.candidates ≡ state.candidates
      → Outcome out r
      → Outcome state r
  same-Outcome state out (leaves state') c g = tt
  same-Outcome state out (waits_read i state') c g = tt
  same-Outcome state out fails c g = tt
  same-Outcome state out (goes_on state' last') c (linked, t) = (
    linked,
    record {
      at_server = t.at_server;
      server = t.server;
      taken = t.taken;
      dropped = λ p. ap (λ f. f p) (sym c) ∙ t.dropped p;
    },
  )

  go_on_ends :
      (state : MergeState) (rows : (p : ℕ) → RowAt parameters.len state p)
      (s : HasRow parameters.len (state.candidates (top state)) (top state) (top_element state))
      (index : Option ℕ) (rest : List (Option (List ℕ)))
      → s.rest ≡ rest
      → Ended state (go_on readers parameters index rest (advance_top rest state))
  unfolding go_on with_adjusted
  go_on_ends state rows s index [] e = (_, refl, tt)
  go_on_ends state rows s index (none ∷ rest) e = (_, refl, tt)
  go_on_ends state rows s index (some item ∷ rest) e =
      let seen = next_state state item rest in
      let (heap', run, kept, top_kept) =
        heap_adjust_ends (element_prior readers parameters.order_array) seen.sort.elem
          seen.sort.heap 1 parameters.len (omega arith) (omega (arith, s.server)) in
      elim (Bool-cases heap'.compare_failed) [
        | inl failed ↦ (fails, rw (run, failed) refl, tt)
        | inr fine ↦ (
          goes_on (with_heap seen heap') index,
          rw (run, fine) refl,
          (
            all-IsLinked parameters.len seen heap' (omega (arith, s.server))
                (next-RowAt parameters.len state s.index s.server item rest rows),
            record {
              at_server = top state;
              server = s.server;
              taken = s.item;
              dropped =
                  next_dropped parameters.len state s.index s.server item rest s.item
                    (s.here ∙ ap (◌∷◌ (some s.item)) e);
            },
          ),
        )
      ]

  take_row_ends :
      (state : MergeState) (rows : (p : ℕ) → RowAt parameters.len state p) (index : Option ℕ)
      → (top_element state).is_over ≡ false
      → Ended state (
          take_row readers parameters index
            (top_element state).row
            (state.candidates (top_element state).index)
            state)
  unfolding take_row forget_offsets
  take_row_ends state rows index live =
      let s = rows (top state) live in
      let out = (put_out parameters s.item (forget_offsets state) index).0 in
      let last' = (put_out parameters s.item (forget_offsets state) index).1 in
      let (e, c, k) = put_out-same parameters s.item (forget_offsets state) index in
      let rows' : (p : ℕ) → RowAt parameters.len out p = rw (e, c) rows in
      let s' = rows' (top out) (rw e live) in
      let there = ap state.candidates s.index ∙ s.here in
      let same_top : out.candidates (top out) ≡ state.candidates (top state) = rw (e, c) refl in
      let same_rest : s'.rest ≡ s.rest = ap behind_head (sym s'.here ∙ same_top ∙ s.here) in
      let (r, run, g) = go_on_ends out rows' s' last' s.rest same_rest in
      (
        r,
        ap
              (λ packet.
                take_row readers parameters index packet
                  (state.candidates (top_element state).index) state)
              s.row
            ∙ ap (λ candidates. take_row readers parameters index (some s.item) candidates state)
                there
            ∙ run,
        same-Outcome state out r c g,
      )

  start_row_ends :
      (state : MergeState) (rows : (p : ℕ) → RowAt parameters.len state p) (index : Option ℕ)
      → (top_element state).is_over ≡ false
      → Ended state (start_round readers parameters index (top_element state).row state)
  unfolding start_round
  start_row_ends state rows index live =
      let s = rows (top state) live in
      let (r, run, g) = take_row_ends state rows index live in
      (
        r,
        ap (λ packet. start_round readers parameters index packet state) s.row
            ∙ sym (
                ap
                  (λ packet.
                    take_row readers parameters index packet
                      (state.candidates (top_element state).index) state)
                  s.row)
            ∙ run,
        g,
      )

  -- What was waited for has come in.
  start_lacking_ends :
      (state : MergeState)
      → IsLacking parameters.len state
      → ((p : ℕ) → p ≢ top state → RowAt parameters.len state p)
      → (index : Option ℕ)
      → Ended state (start_round readers parameters index (top_element state).row state)
  unfolding start_round refill with_adjusted
  start_lacking_ends state w others index = elim w.next [
    | inl nothing ↦
        let there = ap state.candidates w.index ∙ nothing in
        (
          _,
          ap (λ packet. start_round readers parameters index packet state) w.no_record
              ∙ ap (λ candidates. refill readers parameters index candidates state) there,
          tt,
        )
    | inr (item, rest, here) ↦
        let full = filled state (some item) in
        let (heap', run, kept, top_kept) =
          heap_adjust_ends (element_prior readers parameters.order_array) full.sort.elem
            full.sort.heap 1 parameters.len (omega arith) (omega (arith, w.server)) in
        let top_live : (full.sort.elem (top state)).is_over ≡ false = ground (arith, w.live) in
        let live = top_kept top_live top_live in
        let there = ap state.candidates w.index ∙ here in
        let began =
          ap (λ packet. start_round readers parameters index packet state) w.no_record
          ∙ ap (λ candidates. refill readers parameters index candidates state) there in
        elim (Bool-cases heap'.compare_failed) [
          | inl failed ↦ (fails, began ∙ rw (run, failed) refl, tt)
          | inr fine ↦
              let (r, taken, g) =
                take_row_ends (with_heap full heap')
                  (filled-RowAt parameters.len state w others item rest here) index live in
              (r, began ∙ rw (run, fine) taken, same-Outcome state (with_heap full heap') r refl g)
        ]
  ]

  start_round_ends :
      (state : MergeState) (index : Option ℕ)
      → IsLinked parameters.len state
      → (top_element state).is_over ≡ false
      → Ended state (start_round readers parameters index (top_element state).row state)
  start_round_ends state index linked live = elim linked.first [
    | inl first ↦
        start_row_ends state
          (λ p. elim (Bool-cases (p == top state)) [
            | inl hit ↦
                subst (RowAt parameters.len state) (sym ((==_iff p (top state)).0 hit)) first
            | inr miss ↦ linked.others p (λ e. absurd (ground arith))
          ])
          index live
    | inr w ↦ start_lacking_ends state w linked.others index
  ]

  pub merge_round_ends :
      (state : MergeState) (index : Option ℕ)
      → IsLinked parameters.len state
      → Ended state (merge_round readers parameters index state)
  unfolding merge_round
  merge_round_ends state index linked =
      elim (Bool-cases (leb parameters.row_count state.row_cnter)) [
        | inl enough ↦ (leaves state, rw enough refl, tt)
        | inr room ↦ elim (Bool-cases (top_element state).is_over) [
          | inl over ↦ (
            leaves (record state { is_pack_err = state.is_pack_err || state.sort.heap_is_err }),
            rw (room, over) refl,
            tt,
          )
          | inr live ↦
              let (r, run, g) = start_round_ends state index linked live in
              (r, rw (room, live) run, g)
        ]
      ]
