-- ===== src/Merge/Sort/Changed.antt =====
-- What is left of the state of do_sort_merge where the element on top changes.
use cetus.Common.{
  ℕ, ◌+◌, ◌-◌, ◌*◌, ◌<◌, ◌≡◌, ◌≢◌, refl, sym, ap, arith, ◌∙◌, Bool, List, get_or, ◌==◌, ==_iff,
  Bool-cases, inl, inr,
}
use cetus.Merge.Columns.{TimeReaders}
use cetus.Merge.Heap.{at, is_behind}
use cetus.Merge.Heap.Order.{parent, le, Sinks}
use cetus.Merge.Heap.Sift.{IsSound}
use cetus.Merge.Sort.Minimum.{count_at}
use cetus.Merge.Sort.Loop.{MergeState, MergeParameters, top}
use cetus.Merge.Sort.Next.{TopChanged}
use cetus.Merge.Sort.Round.{prior, IsMerging, IsUnsettled}

module _ (readers : TimeReaders) (parameters : MergeParameters) (R : List ℕ → Type 0)
    (leq : List ℕ → List ℕ → Bool) where
  -- A heap in order is in order but for the element on top.
  pub merging-IsUnsettled :
      (last : List ℕ) (state : MergeState)
      → IsMerging readers parameters R leq last state
      → IsUnsettled readers parameters R leq state
  merging-IsUnsettled last state inv = record {
    some_server = inv.some_server;
    unfailed = inv.unfailed;
    sinks = record {
      edges = λ i pi hi l ne. inv.order i pi hi l;
      bridged = λ i pi hi e p0 l. absurd (omega arith);
    };
    sound = record {
      long = inv.sound.long;
      apart = inv.sound.apart;
      cached = λ q small skip1 skip2 l1 l2 r1 r2 behind.
          inv.sound.cached q small refl refl l1 l2 r1 r2 behind;
    };
    held = inv.held;
  }

  module _ (state state' : MergeState) (inv : IsUnsettled readers parameters R leq state)
      (c : TopChanged state state') where
    not_top : (i : ℕ) → 0 < i → i < parameters.len → at state.sort.heap i ≢ top state
    not_top i p h e = absurd (omega (arith, inv.sound.apart i 0 h inv.some_server e))

    at_same : (i : ℕ) → at state'.sort.heap i ≡ at state.sort.heap i
    at_same i = ap (λ xs. get_or xs i 0) c.same

    le_same :
        (i j : ℕ)
        → 0 < i
        → 0 < j
        → i < parameters.len
        → j < parameters.len
        → le
            (prior readers parameters R leq)
            state'.sort.elem
            (at state'.sort.heap i)
            (at state'.sort.heap j)
          ≡ le
              (prior readers parameters R leq)
              state.sort.elem
              (at state.sort.heap i)
              (at state.sort.heap j)
    le_same i j pi pj hi hj =
        rw
          (
            at_same i,
            at_same j,
            c.elem (at state.sort.heap i) (not_top i pi hi),
            c.elem (at state.sort.heap j) (not_top j pj hj),
          )
          refl

    pub changed-Sinks :
        Sinks
          (prior readers parameters R leq)
          state'.sort.elem
          0
          parameters.len
          (at state'.sort.heap)
          0
    changed-Sinks = record {
      edges = λ i pi hi l ne.
          le_same (parent i) i (omega (arith, ne)) pi (omega arith) hi
          ∙ inv.sinks.edges i pi hi l ne;
      bridged = λ i pi hi e p0 l. absurd (omega arith);
    }

    pub changed-IsSound :
        IsSound
          (prior readers parameters R leq)
          state'.sort.elem
          parameters.len
          state'.sort.heap
          (λ i. i == 1 - 1)
    changed-IsSound = record {
      long = rw c.same inv.sound.long;
      apart = rw c.same inv.sound.apart;
      cached = λ q small skip1 skip2 l1 l2 r1 r2 behind.
          let h1 : 2 * q + 1 < parameters.len = omega arith in
          let ne1 = not_top (2 * q + 1) (omega arith) h1 in
          let ne2 = not_top (2 * q + 2) (omega arith) small in
          let e1 = ap state'.sort.elem (at_same (2 * q + 1)) ∙ c.elem _ ne1 in
          let e2 = ap state'.sort.elem (at_same (2 * q + 2)) ∙ c.elem _ ne2 in
          let f1 = ap state'.sort.heap.flags (at_same (2 * q + 1)) ∙ c.flags _ ne1 in
          let f2 = ap state'.sort.heap.flags (at_same (2 * q + 2)) ∙ c.flags _ ne2 in
          le_same (2 * q + 2) (2 * q + 1) (omega arith) (omega arith) small h1
          ∙ inv.sound.cached q small skip1 skip2 (sym (ap (λ e. e.is_over) e1) ∙ l1)
              (sym (ap (λ e. e.is_over) e2) ∙ l2) (sym (ap (λ f. f.refreshed) f1) ∙ r1)
              (sym (ap (λ f. f.refreshed) f2) ∙ r2) (sym (ap is_behind f1) ∙ behind);
    }

    -- The failure is kept, and every element that is not over is still in the heap.
    pub changed-IsUnsettled :
        state'.sort.heap.compare_failed ≡ state.sort.heap.compare_failed
        → IsUnsettled readers parameters R leq state'
    changed-IsUnsettled failed = record {
      some_server = inv.some_server;
      unfailed = failed ∙ inv.unfailed;
      sinks = changed-Sinks;
      sound = changed-IsSound;
      held = λ p live. elim (Bool-cases (p == top state)) [
        | inl hit ↦
            let e : p ≡ top state = (==_iff p (top state)).0 hit in
            rw (c.same, e)
              (count_at state.sort.heap.element 0 (omega (arith, inv.some_server, inv.sound.long)))
        | inr miss ↦
            let ne : p ≢ top state = λ e. absurd (ground arith) in
            rw c.same (inv.held p (sym (ap (λ e. e.is_over) (c.elem p ne)) ∙ live))
      ];
    }
