-- ===== src/Merge/Sort/Taking.antt =====
-- What do_sort_merge does with the row on top, and what a round of it may do.
use cetus.Common.{
  ℕ, ◌≤◌, ◌<◌, ◌≡◌, refl, sym, ap, arith, ◌∙◌, subst, Bool, true, ◌||◌, Option, none, some, List,
  [], ◌∷◌, if◌then◌else◌, ◌==◌, ◌⊎◌, inr,
}
use cetus.Merge.Columns.{TimeReaders}
use cetus.Merge.Order.{cache_set}
use cetus.Merge.Heap.{at}
use cetus.Merge.Sort.Loop.{
  MergeState, MergeParameters, top, top_element, put_out, forget_offsets, advance_top, Round,
  goes_on, leaves, waits_read, fails, go_on, take_row, behind_head, head_data,
}
use cetus.Merge.Sort.Round.{TellsOrder, Ascends, Ends, IsMerging, IsWaiting}
use cetus.Merge.Sort.Output.{put_out-same, progress, PutOut, put_out-PutOut}
use cetus.Merge.Sort.Take.{same-IsMerging, Drops, Goes, wait_lem, next_lem}
use cetus.Merge.Sort.Settle.{Merging, Live}

module _ (readers : TimeReaders) (parameters : MergeParameters) (R : List ℕ → Type 0)
    (leq : List ℕ → List ℕ → Bool) where
  -- In `mid`, which is `state` with the row that was waited for filled in and the heap in order, the row
  -- `taken` is on top. It is put out, its offsets are forgotten, and it goes off the candidates of its server.
  pub record Takes (last : List ℕ) (index : Option ℕ) (state : MergeState) (taken : List ℕ)
      (state' : MergeState) (last' : Option ℕ) : Type 0 where
    pub mid : MergeState
    pub merging : IsMerging readers parameters R leq last mid
    pub same : (mid.candidates ≡ state.candidates) × (progress mid ≡ progress state)
    pub is_top : (top_element mid).row ≡ some taken
    pub later : leq last taken ≡ true
    pub server : top mid < parameters.len
    pub drops :
        (p : ℕ)
        → state.candidates p
          ≡ (if p == top mid then some taken ∷ state'.candidates p else state'.candidates p)
    pub put : PutOut parameters taken mid index (progress state') last'
    pub forgotten : state'.field_offsets_cache ≡ cache_set state.field_offsets_cache (top mid) 0

  -- Between two rounds, or behind a wait.
  abbrev pub Ready : List ℕ → MergeState → Type 0
  Ready last state =
      IsMerging readers parameters R leq last state ⊎ IsWaiting readers parameters R leq last state

  -- The loop is left at the limit, or where the rows of every server have ended. It waits for the server on
  -- top, as it did before or having taken a row. It goes on having taken a row.
  abbrev pub Steps : List ℕ → Option ℕ → MergeState → Round → Type 0
  Steps last index state (leaves state') =
      ((parameters.row_count ≤ state.row_cnter) × (state' ≡ state))
      ⊎ (((p : ℕ) → p < parameters.len → Ends readers parameters R leq (state.candidates p))
          × (state' ≡ record state { is_pack_err = state.is_pack_err || state.sort.heap_is_err }))
  Steps last index state (waits_read i state') =
      (i ≡ top state')
      × (state'.candidates i ≡ [])
      × (((state' ≡ state) × ((top_element state).row ≡ none))
          ⊎ ((taken : List ℕ) × (last' : Option ℕ) × Takes last index state taken state' last'
              × IsWaiting readers parameters R leq taken state'))
  Steps last index state fails = ⊥
  Steps last index state (goes_on state' last') =
      (taken : List ℕ) × Takes last index state taken state' last'
      × IsMerging readers parameters R leq taken state'

  module _ (o : TellsOrder readers parameters R leq) where
    -- On the row on top of `state`, with what stands behind it.
    row-Goes :
        (last : List ℕ) (state : MergeState) (inv : Merging readers parameters R leq o last state)
        (live : Live readers parameters R leq o state (top state)) (index : Option ℕ)
        (rest : List (Option (List ℕ)))
        → (inv.shows (top state) live).rest ≡ rest
        → Ascends readers parameters R leq (inv.shows (top state) live).item rest
        → (r : Round) × (go_on readers parameters index rest (advance_top rest state) ≡ some r)
          × Goes readers parameters R leq (inv.shows (top state) live).item index state r
    row-Goes last state inv live index [] e ascends =
        wait_lem readers parameters R leq o last state inv live index e
    row-Goes last state inv live index (none ∷ rest) e ascends = absurd ascends
    row-Goes last state inv live index (some item ∷ rest) e ascends =
        next_lem readers parameters R leq o last state inv live index item rest e

    module _ (last : List ℕ) (index : Option ℕ) (state mid : MergeState)
        (inv : Merging readers parameters R leq o last mid)
        (live : Live readers parameters R leq o mid (top mid))
        (candidates : mid.candidates ≡ state.candidates) (counts : progress mid ≡ progress state)
        (cache : mid.field_offsets_cache ≡ state.field_offsets_cache) where
      abbrev row : List ℕ
      row = (inv.shows (top mid) live).item

      abbrev out : MergeState
      out = (put_out parameters row (forget_offsets mid) index).0

      abbrev last' : Option ℕ
      last' = (put_out parameters row (forget_offsets mid) index).1

      out-same :
          (out.sort ≡ mid.sort)
          × (out.candidates ≡ mid.candidates)
          × (out.field_offsets_cache ≡ cache_set mid.field_offsets_cache (top mid) 0)
      unfolding forget_offsets
      out-same =
          let (e, c, k) = put_out-same parameters row (forget_offsets mid) index in
          (
            e,
            c,
            k ∙ ap (λ i. cache_set mid.field_offsets_cache i 0) (inv.shows (top mid) live).index,
          )

      out-PutOut : PutOut parameters row mid index (progress out) last'
      unfolding forget_offsets
      out-PutOut = put_out-PutOut parameters row (forget_offsets mid) index

      out-Takes :
          (state' : MergeState)
          → Drops readers parameters R leq row out state'
          → Takes last index state row state' last'
      out-Takes state' d =
          let s = inv.shows (top mid) live in
          let (e, c, k) = out-same in
          record {
            mid = mid;
            merging = inv;
            same = (candidates, counts);
            is_top = s.row;
            later = s.later;
            server = s.server;
            drops = λ p.
                ap (λ f. f p) (sym candidates ∙ sym c)
                ∙ d.dropped p
                ∙ ap
                    (λ sort.
                      if p == at sort.heap 0
                      then some row ∷ state'.candidates p
                      else state'.candidates p)
                    e;
            put =
                subst (λ after. PutOut parameters row mid index after last') (sym d.counted)
                  out-PutOut;
            forgotten = d.cache ∙ k ∙ ap (λ cache. cache_set cache (top mid) 0) cache;
          }

      out-Steps :
          (r : Round) → Goes readers parameters R leq row last' out r → Steps last index state r
      out-Steps (leaves state') g = absurd g
      out-Steps fails g = absurd g
      out-Steps (waits_read i state') (waiting, at_top, nothing, drops) =
          (at_top, nothing, inr (row, last', out-Takes state' drops, waiting))
      out-Steps (goes_on state' other) (merging, same, drops) = (
        row,
        subst (Takes last index state row state') (sym same) (out-Takes state' drops),
        merging,
      )

      pub take_row_lem :
          (r : Round) × (take_row readers parameters index
              (top_element mid).row
              (mid.candidates (top_element mid).index)
              mid
            ≡ some r)
          × Steps last index state r
      unfolding take_row
      take_row_lem =
          let s = inv.shows (top mid) live in
          let (e, c, k) = out-same in
          let inv' = same-IsMerging readers parameters R leq last mid out e c inv in
          let live' : Live readers parameters R leq o out (top out) = rw e live in
          let s' = inv'.shows (top out) live' in
          let there : mid.candidates (top_element mid).index ≡ some s.item ∷ s.rest =
            ap mid.candidates s.index ∙ s.here in
          let same_top : out.candidates (top out) ≡ mid.candidates (top mid) = rw (e, c) refl in
          let lists = sym s'.here ∙ same_top ∙ s.here in
          let same_rest : s'.rest ≡ s.rest = ap behind_head lists in
          let same_head : some s'.item ≡ some s.item = ap head_data lists in
          let same_item : s'.item ≡ s.item = ground arith in
          let (r, run, goes) = row-Goes last out inv' live' last' s.rest same_rest (
            subst (λ item. Ascends readers parameters R leq item s.rest) (sym same_item)
              s.ascends) in
          (
            r,
            ap
                  (λ packet.
                    take_row readers parameters index packet
                      (mid.candidates (top_element mid).index) mid)
                  s.row
                ∙ ap (λ candidates. take_row readers parameters index (some s.item) candidates mid)
                    there
                ∙ run,
            out-Steps r
                (subst (λ item. Goes readers parameters R leq item last' out r) same_item goes),
          )
