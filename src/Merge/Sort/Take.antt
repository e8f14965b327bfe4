-- ===== src/Merge/Sort/Take.antt =====
-- What do_sort_merge leaves where it has taken the row on top: the server's next row, or a wait for it.
use cetus.Common.{
  ℕ, ◌≡◌, refl, sym, ap, ◌∙◌, Bool, false, Option, some, List, [], ◌∷◌, if◌then◌else◌, ◌==◌, ==_iff,
  Bool-cases, inl, inr,
}
use cetus.Merge.Columns.{TimeReaders}
use cetus.Merge.Heap.{at}
use cetus.Merge.Sort.{is_end}
use cetus.Merge.Sort.Loop.{
  MergeState, MergeParameters, top, top_element, send_part, advance_top, look_at, Round, goes_on,
  leaves, waits_read, fails, with_adjusted, go_on,
}
use cetus.Merge.Sort.Next.{with_heap, next_state}
use cetus.Merge.Sort.Round.{TellsOrder, IsMerging, IsWaiting}
use cetus.Merge.Sort.Output.{
  send_part-same, progress, progress-send_part, progress-look_at, progress-advance_top,
}
use cetus.Merge.Sort.Settle.{Merging, Live}
use cetus.Merge.Sort.Step.{
  taken_row, next_settled, at_top, elsewhere, none_there, not_there, waiting-IsWaiting,
}

look_at-cache :
    (item : List ℕ) (state : MergeState)
    → (look_at item state).field_offsets_cache ≡ state.field_offsets_cache
unfolding look_at
look_at-cache item state = elim (Bool-cases (is_end item)) [
  | inl end ↦ rw end refl
  | inr going ↦ rw going refl
]

advance_top-cache :
    (rest : List (Option (List ℕ))) (state : MergeState)
    → (advance_top rest state).field_offsets_cache ≡ state.field_offsets_cache
unfolding advance_top
advance_top-cache rest state = refl

module _ (readers : TimeReaders) (parameters : MergeParameters) (R : List ℕ → Type 0)
    (leq : List ℕ → List ℕ → Bool) where
  -- Waiting is a matter of the heap and the candidates.
  same-IsWaiting :
      (last : List ℕ) (state out : MergeState)
      → out.sort ≡ state.sort
      → out.candidates ≡ state.candidates
      → IsWaiting readers parameters R leq last state
      → IsWaiting readers parameters R leq last out
  same-IsWaiting last state out e c w = record {
    unsettled = record {
      some_server = w.unsettled.some_server;
      unfailed = rw e w.unsettled.unfailed;
      sinks = rw e w.unsettled.sinks;
      sound = rw e w.unsettled.sound;
      held = rw e w.unsettled.held;
    };
    live = rw e w.live;
    no_record = rw e w.no_record;
    index = rw e w.index;
    server = rw e w.server;
    next = rw (e, c) w.next;
    ended = rw (e, c) w.ended;
    shows = rw (e, c) w.shows;
  }

  pub same-IsMerging :
      (last : List ℕ) (state out : MergeState)
      → out.sort ≡ state.sort
      → out.candidates ≡ state.candidates
      → IsMerging readers parameters R leq last state
      → IsMerging readers parameters R leq last out
  same-IsMerging last state out e c inv = record {
    some_server = inv.some_server;
    unfailed = rw e inv.unfailed;
    order = rw e inv.order;
    sound = rw e inv.sound;
    held = rw e inv.held;
    ended = rw (e, c) inv.ended;
    shows = rw (e, c) inv.shows;
  }

  -- The row goes off the candidates; what is counted and remembered is not changed any more.
  pub record Drops (taken : List ℕ) (state state' : MergeState) : Type 0 where
    pub dropped :
        (p : ℕ)
        → state.candidates p
          ≡ (if p == top state then some taken ∷ state'.candidates p else state'.candidates p)
    pub counted : progress state' ≡ progress state
    pub cache : state'.field_offsets_cache ≡ state.field_offsets_cache

  abbrev pub Goes : List ℕ → Option ℕ → MergeState → Round → Type 0
  Goes taken index state (leaves state') = ⊥
  Goes taken index state fails = ⊥
  Goes taken index state (waits_read i state') =
      IsWaiting readers parameters R leq taken state'
      × (i ≡ top state')
      × (state'.candidates i ≡ [])
      × Drops taken state state'
  Goes taken index state (goes_on state' last') =
      IsMerging readers parameters R leq taken state' × (last' ≡ index) × Drops taken state state'

  module _ (o : TellsOrder readers parameters R leq) where
    module _ (last : List ℕ) (state : MergeState)
        (inv : Merging readers parameters R leq o last state)
        (live : Live readers parameters R leq o state (top state)) where
      abbrev taken : List ℕ
      taken = taken_row readers parameters R leq o last state inv live

      -- `state'` has the candidates of `rest` at the server on top, and the others.
      dropped_from :
          (rest : List (Option (List ℕ))) (state' : MergeState)
          → (inv.shows (top state) live).rest ≡ rest
          → state'.candidates (top state) ≡ rest
          → ((p : ℕ) → (p == top state) ≡ false → state'.candidates p ≡ state.candidates p)
          → (p : ℕ)
          → state.candidates p
            ≡ (if p == top state then some taken ∷ state'.candidates p else state'.candidates p)
      dropped_from rest state' behind here there p =
          let s = inv.shows (top state) live in
          elim (Bool-cases (p == top state)) [
            | inl hit ↦
                let e : p ≡ top state = (==_iff p (top state)).0 hit in
                let at_p : state'.candidates p ≡ rest = ap state'.candidates e ∙ here in
                rw hit (ap state.candidates e ∙ s.here ∙ ap (◌∷◌ (some s.item)) (behind ∙ sym at_p))
            | inr miss ↦ rw miss (sym (there p miss))
          ]

      pub wait_lem :
          (index : Option ℕ)
          → (inv.shows (top state) live).rest ≡ []
          → (r : Round) × (go_on readers parameters index [] (advance_top [] state) ≡ some r)
            × Goes taken index state r
      unfolding go_on advance_top
      wait_lem index behind =
          let w = advance_top [] state in
          let sent = send_part parameters w in
          let (e, c, k) = send_part-same parameters w in
          let waits = waiting-IsWaiting readers parameters R leq o last state inv live behind in
          let at_index : (top_element w).index ≡ top w = waits.index in
          let there = none_there readers parameters R leq o last state inv live behind in
          (
            waits_read (top_element w).index sent,
            refl,
            (
              same-IsWaiting taken w sent e c waits,
              at_index ∙ ap (λ s. at s.heap 0) (sym e),
              ap sent.candidates at_index ∙ ap (λ f. f (top state)) c ∙ there,
              record {
                dropped = dropped_from [] sent behind (ap (λ f. f (top state)) c ∙ there) (λ p miss.
                    ap (λ f. f p) c
                    ∙ not_there readers parameters R leq o last state inv live behind p miss);
                counted = progress-send_part parameters w ∙ progress-advance_top [] state;
                cache = k ∙ advance_top-cache [] state;
              },
            ),
          )

      pub next_lem :
          (index : Option ℕ) (item : List ℕ) (rest : List (Option (List ℕ)))
          → (inv.shows (top state) live).rest ≡ some item ∷ rest
          → (r : Round) × (go_on readers parameters index
                (some item ∷ rest)
                (advance_top (some item ∷ rest) state)
              ≡ some r)
            × Goes taken index state r
      unfolding go_on with_adjusted
      next_lem index item rest behind =
          let (heap', run, unfailed, settled) =
            next_settled readers parameters R leq o last state inv live item rest behind in
          let seen = next_state state item rest in
          (
            goes_on (with_heap seen heap') index,
            rw (run, unfailed) refl,
            (
              settled,
              refl,
              record {
                dropped =
                    dropped_from (some item ∷ rest) seen behind
                      (at_top readers parameters R leq o last state inv live item rest behind)
                      (elsewhere readers parameters R leq o last state inv live item rest behind);
                counted =
                    progress-look_at item (advance_top (some item ∷ rest) state)
                    ∙ progress-advance_top (some item ∷ rest) state;
                cache =
                    look_at-cache item (advance_top (some item ∷ rest) state)
                    ∙ advance_top-cache (some item ∷ rest) state;
              },
            ),
          )
