-- ===== src/Merge/Sort/Ends.antt =====
-- do_sort_merge ends, also where it resumes behind a wait: every round but the last takes a row off the candidates.
use cetus.Common.{ℕ, zero, suc, ◌<◌, ◌≡◌, refl, arith, false, Option, none, some}
use cetus.Merge.Columns.{TimeReaders}
use cetus.Merge.Sort.Loop.{
  MergeState, MergeParameters, Round, goes_on, leaves, waits_read, fails, merge_round, Merged,
  returned, merge_fails, after_loop, after_round, merge_loop, do_sort_merge,
}
use cetus.Merge.Sort.Linked.{IsLinked}
use cetus.Merge.Sort.Pending.{pending, pending_drops}
use cetus.Merge.Sort.Rounds.{Outcome, merge_round_ends}

module _ (readers : TimeReaders) (parameters : MergeParameters) where
  -- From the outcome of a round, with `again` for the rounds behind it.
  continue :
      (fuel : ℕ) (index : Option ℕ) (state : MergeState)
      → pending parameters.len state.candidates < suc fuel
      → (r : Round) → merge_round readers parameters index state ≡ some r
      → Outcome readers parameters state r
      → ((last' : Option ℕ) (state' : MergeState)
          → pending parameters.len state'.candidates < fuel
          → IsLinked parameters.len state'
          → (m : Merged) × (merge_loop readers parameters fuel last' state' ≡ some m))
      → (m : Merged) × (merge_loop readers parameters (suc fuel) index state ≡ some m)
  unfolding merge_loop after_round
  continue fuel index state enough (leaves state') run g again =
      (after_loop parameters state', rw run refl)
  continue fuel index state enough (waits_read i state') run g again =
      (returned false state', rw run refl)
  continue fuel index state enough fails run g again = (merge_fails, rw run refl)
  continue fuel index state enough (goes_on state' last') run (linked, t) again =
      let fewer =
        pending_drops parameters.len t.at_server t.taken state.candidates state'.candidates t.server
          t.dropped in
      rw run (again last' state' (omega (arith, fewer)) linked)

  merge_loop_ends :
      (fuel : ℕ) (index : Option ℕ) (state : MergeState)
      → pending parameters.len state.candidates < fuel
      → IsLinked parameters.len state
      → (m : Merged) × (merge_loop readers parameters fuel index state ≡ some m)
  merge_loop_ends zero index state enough linked = absurd (omega arith)
  merge_loop_ends (suc fuel) index state enough linked =
      let (r, run, g) = merge_round_ends readers parameters state index linked in
      continue fuel index state enough r run g
        (λ last' state' enough' linked'. merge_loop_ends fuel last' state' enough' linked')

  -- From a state between two rounds, or one that resumes behind a wait, be it that nothing, a row or the
  -- packet that ends the rows has come in of the server that was waited for, do_sort_merge returns or
  -- fails after at most one round more than there are packets, whatever is_prior_to answers. In such a
  -- state every element that is not over has the candidate of its server as its record, but for the
  -- element on top behind a wait.
  pub do_sort_merge_ends :
      (state : MergeState)
      → IsLinked parameters.len state
      → (m : Merged) × (do_sort_merge readers parameters
            (suc (pending parameters.len state.candidates))
            state
          ≡ some m)
  unfolding do_sort_merge
  do_sort_merge_ends state linked =
      merge_loop_ends (suc (pending parameters.len state.candidates)) none state (omega arith)
        linked
