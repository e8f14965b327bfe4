-- ===== src/Merge/Heap/Order.antt =====
-- The order of a heap, seen from the hole that heap_adjust moves down.
use cetus.Common.{
  ℕ, ◌+◌, ◌-◌, ◌*◌, ◌/◌, ◌≤◌, ◌<◌, ◌≡◌, ◌≢◌, arith, Bool, true, false, ◌&&◌, ◌||◌, not,
  if◌then◌else◌, ◌==◌,
}
use cetus.Merge.Heap.{HeapElement, HeapFlags, HeapType, at, is_behind}

abbrev pub parent : ℕ → ℕ
parent c = (c - 1) / 2

module _ (prior : HeapElement → HeapElement → Bool × Bool × Bool) (elem : ℕ → HeapElement) where
  -- Rows that are over come last.
  abbrev pub le : ℕ → ℕ → Bool
  le p q = (elem q).is_over || (not (elem p).is_over && (prior (elem p) (elem q)).0)

  abbrev pub IsLive : ℕ → Type 0
  IsLive p = (elem p).is_over ≡ false

  -- What the code relies on in is_prior_to, for the rows at hand.
  pub record IsOrder : Type 0 where
    pub total :
        (p q : ℕ)
        → IsLive p
        → IsLive q
        → (prior (elem p) (elem q)).0 ≡ false
        → (prior (elem q) (elem p)).0 ≡ true
    pub trans :
        (p q r : ℕ)
        → IsLive p
        → IsLive q
        → IsLive r
        → (prior (elem p) (elem q)).0 ≡ true
        → (prior (elem q) (elem r)).0 ≡ true
        → (prior (elem p) (elem r)).0 ≡ true

  pub le_trans : IsOrder → (p q r : ℕ) → le p q ≡ true → le q r ≡ true → le p r ≡ true
  le_trans o p q r h k = ground (arith, o.trans p q r)

  -- The addresses in order, with `rc` in the hole at `s`.
  abbrev pub view : ℕ → HeapType → ℕ → ℕ → ℕ
  view rc heap s i = if i == s then rc else at heap i

  -- Only the edges below the hole may be out of order.
  pub record Sinks (lo n : ℕ) (v : ℕ → ℕ) (s : ℕ) : Type 0 where
    pub edges :
        (c : ℕ) → 0 < c → c < n → lo ≤ parent c → parent c ≢ s → le (v (parent c)) (v c) ≡ true
    pub bridged :
        (c : ℕ)
        → 0 < c
        → c < n
        → parent c ≡ s
        → 0 < s
        → lo ≤ parent s
        → le (v (parent s)) (v c) ≡ true

  abbrev pub IsHeapFrom : ℕ → ℕ → (ℕ → ℕ) → Type 0
  IsHeapFrom lo n v = (c : ℕ) → 0 < c → c < n → lo ≤ parent c → le (v (parent c)) (v c) ≡ true

  -- A comparison of two siblings that is not made again still holds, but for the pair with the hole.
  abbrev pub Cached : ℕ → (ℕ → ℕ) → (ℕ → HeapFlags) → (ℕ → Bool) → Type 0
  Cached n v flags skip =
      (q : ℕ)
      → 2 * q + 2 < n
      → skip (2 * q + 1) ≡ false
      → skip (2 * q + 2) ≡ false
      → (elem (v (2 * q + 1))).is_over ≡ false
      → (elem (v (2 * q + 2))).is_over ≡ false
      → (flags (v (2 * q + 1))).refreshed ≡ false
      → (flags (v (2 * q + 2))).refreshed ≡ false
      → is_behind (flags (v (2 * q + 1))) ≡ true
      → le (v (2 * q + 2)) (v (2 * q + 1)) ≡ true

  abbrev pub Apart : ℕ → (ℕ → ℕ) → Type 0
  Apart n v = (i j : ℕ) → i < n → j < n → v i ≡ v j → i ≡ j

  -- The hole goes from `s` to its child `m`, which is not behind the other child, and before which `rc` is not.
  pub Sinks-step :
      IsOrder
      → (lo n : ℕ) (v w : ℕ → ℕ) (s m : ℕ) → Sinks lo n v s
      → 0 < m
      → m < n
      → parent m ≡ s
      → ((c : ℕ) → 0 < c → c < n → parent c ≡ s → le (v m) (v c) ≡ true)
      → le (v m) (v s) ≡ true
      → ((i : ℕ) → w i ≡ (if i == m then v s else if i == s then v m else v i))
      → Sinks lo n w m
  Sinks-step o lo n v w s m k pm mn pa least below e = record {
    edges = λ c pc cn lc ne. ground (arith, e c, e (parent c), k.edges c, k.bridged m, least c);
    bridged = λ c pc cn ec pm' lm. ground (arith, e c, e (parent m), k.edges c);
  }
