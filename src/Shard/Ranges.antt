-- ===== src/Shard/Ranges.antt =====
-- src/sharding-config.c: setup_partitions cuts the range of number keys into pieces that do not meet.
use Prim.Native.Nat.{Ordering}
use cetus.Common.{
  ℕ, true, false, ◌≡◌, ◌≢◌, refl, sym, ◌∙◌, ap, arith, inl, inr, Option, none, List, [], ◌∷◌, All,
  Elem, All-Elem, Bool-cases, if◌then◌else◌,
}
use cetus.Common.Int.{ℤ, pos, ◌<ℤ◌, ◌≤ℤ◌, leb_ℤ}
use cetus.Shard.Partition.{ShardingPartition, ShardKeyType, is_str, range}
use cetus.Shard.Condition.{Value}
use cetus.Shard.Setup.{
  record_low, setup_partitions, ShardingVdb, Sort, cmp_shard_range_groups_int, int_min, is_range,
  has_num,
}
use cetus.Shard.Rows.{InPartition}

-- The upper bounds do not fall, from `prev` on.
abbrev Rising : ℤ → List ShardingPartition → Type 0
Rising prev [] = Unit {0}
Rising prev (p ∷ ps) = (prev ≤ℤ p.value.num) × Rising p.value.num ps

abbrev IsRange : ShardingPartition → Type 0
IsRange p = p.method ≡ range

-- No element comes after its successor.
abbrev Ascending :
    (ShardingPartition → ShardingPartition → Ordering) → List ShardingPartition → Type 0
Ascending cmp [] = Unit {0}
Ascending cmp (p ∷ []) = Unit {0}
Ascending cmp (p ∷ q ∷ ps) = (cmp p q ≢ Ordering.gt) × Ascending cmp (q ∷ ps)

-- What glib documents of its sort, for the comparison of bounds that are numbers: the result has the
-- elements that were given, and they ascend.
abbrev pub IsSort : Sort → List ShardingPartition → Type 0
IsSort sort ps =
    let sorted = sort cmp_shard_range_groups_int ps in
    Ascending cmp_shard_range_groups_int sorted
    × ((p : ShardingPartition) → (Elem p ps → Elem p sorted) × (Elem p sorted → Elem p ps))

cmp-le :
    (p q : ShardingPartition)
    → cmp_shard_range_groups_int p q ≢ Ordering.gt
    → p.value.num ≤ℤ q.value.num
unfolding cmp_shard_range_groups_int
cmp-le p q h = ground arith

Ascending-Rising :
    (prev : ℤ) (p : ShardingPartition) (ps : List ShardingPartition)
    → prev ≤ℤ p.value.num
    → Ascending cmp_shard_range_groups_int (p ∷ ps)
    → Rising prev (p ∷ ps)
Ascending-Rising prev p [] b a = (b, tt)
Ascending-Rising prev p (q ∷ ps) b a = (b, Ascending-Rising p.value.num q ps (cmp-le p q a.0) a.1)

Rising-low :
    (prev : ℤ) (ps : List ShardingPartition)
    → All (λ p. prev ≤ℤ p.value.num) ps
    → Ascending cmp_shard_range_groups_int ps
    → Rising prev ps
Rising-low prev [] b a = tt
Rising-low prev (p ∷ ps) b a = Ascending-Rising prev p ps b.0 a

-- Over keys that are numbers, the piece between `prev` and the bound of `q`.
module _ (t : ShardKeyType) (numbers : is_str t ≡ false) (x : Value) where
  abbrev piece : ℤ → Option (List ℕ) → ShardingPartition → ShardingPartition
  piece prev s q = record q {
    key_type = t;
    low_value =
        if is_str t then record { num = pos 0; str = s } else record { num = prev; str = none };
  }

  piece_lem :
      (prev : ℤ) (s : Option (List ℕ)) (q : ShardingPartition)
      → IsRange q
      → InPartition (piece prev s q) x ≡ ((prev <ℤ x.num) × (x.num ≤ℤ q.value.num))
  piece_lem prev s q m = rw (m, numbers) refl

  in_piece :
      (prev : ℤ) (s : Option (List ℕ)) (q p : ShardingPartition)
      → IsRange q
      → p ≡ piece prev s q
      → InPartition p x
      → (prev <ℤ x.num) × (x.num ≤ℤ q.value.num)
  in_piece prev s q p m here h = rw (ap (λ p'. InPartition p' x) here, piece_lem prev s q m) at h

  low-lt :
      (prev : ℤ) (s : Option (List ℕ)) (ps : List ShardingPartition) (p : ShardingPartition)
      → Rising prev ps
      → All IsRange ps
      → Elem p (record_low t prev s ps)
      → InPartition p x
      → prev <ℤ x.num
  unfolding record_low
  low-lt prev s [] p r m at h = absurd at
  low-lt prev s (q ∷ ps) p r m (inl here) h = (in_piece prev s q p m.0 here h).0
  low-lt prev s (q ∷ ps) p r m (inr later) h =
      let above = low-lt q.value.num q.value.str ps p r.1 m.1 later h in
      let rises = r.0 in omega arith

  -- A key is not in two pieces.
  record_low_one :
      (prev : ℤ) (s : Option (List ℕ)) (ps : List ShardingPartition) (p p' : ShardingPartition)
      → Rising prev ps
      → All IsRange ps
      → Elem p (record_low t prev s ps)
      → Elem p' (record_low t prev s ps)
      → InPartition p x
      → InPartition p' x
      → p ≡ p'
  unfolding record_low
  record_low_one prev s [] p p' r m at at' h h' = absurd at
  record_low_one prev s (q ∷ ps) p p' r m (inl here) (inl here') h h' = here ∙ sym here'
  record_low_one prev s (q ∷ ps) p p' r m (inl here) (inr later') h h' =
      let below = (in_piece prev s q p m.0 here h).1 in
      let above = low-lt q.value.num q.value.str ps p' r.1 m.1 later' h' in absurd (omega arith)
  record_low_one prev s (q ∷ ps) p p' r m (inr later) (inl here') h h' =
      let below = (in_piece prev s q p' m.0 here' h').1 in
      let above = low-lt q.value.num q.value.str ps p r.1 m.1 later h in absurd (omega arith)
  record_low_one prev s (q ∷ ps) p p' r m (inr later) (inr later') h h' =
      record_low_one q.value.num q.value.str ps p p' r.1 m.1 later later' h h'

  first_piece :
      (prev : ℤ) (s : Option (List ℕ)) (q : ShardingPartition) (ps : List ShardingPartition)
      → IsRange q
      → prev <ℤ x.num
      → leb_ℤ x.num q.value.num ≡ true
      → (p : ShardingPartition) × Elem p (record_low t prev s (q ∷ ps)) × InPartition p x
  unfolding record_low
  first_piece prev s q ps m low below =
      let upto : x.num ≤ℤ q.value.num = ground arith in
      (piece prev s q, inl refl, rw (piece_lem prev s q m) (low, upto))

  -- A key between `prev` and the bound of some element is in a piece.
  record_low_some :
      (prev : ℤ) (s : Option (List ℕ)) (ps : List ShardingPartition) (top : ShardingPartition)
      → All IsRange ps
      → prev <ℤ x.num
      → Elem top ps
      → x.num ≤ℤ top.value.num
      → (p : ShardingPartition) × Elem p (record_low t prev s ps) × InPartition p x
  unfolding record_low
  record_low_some prev s [] top m low at high = absurd at
  record_low_some prev s (q ∷ ps) top m low (inl here) high =
      elim (Bool-cases (leb_ℤ x.num q.value.num)) [
        | inl below ↦ first_piece prev s q ps m.0 low below
        | inr above ↦
            let same : top.value.num ≡ q.value.num = ap (λ p. p.value.num) here in
            absurd (ground (arith, same))
      ]
  record_low_some prev s (q ∷ ps) top m low (inr later) high =
      elim (Bool-cases (leb_ℤ x.num q.value.num)) [
        | inl below ↦ first_piece prev s q ps m.0 low below
        | inr above ↦
            let rest =
              record_low_some q.value.num q.value.str ps top m.1 (ground arith) later high in
            (rest.0, inr rest.1, rest.2)
      ]

All-below :
    (P : ShardingPartition → Type 0) (ps qs : List ShardingPartition)
    → ((p : ShardingPartition) → Elem p ps → Elem p qs)
    → All P qs
    → All P ps
All-below P [] qs f h = tt
All-below P (p ∷ ps) qs f h =
    (All-Elem p P qs h (f p (inl refl)), All-below P ps qs (λ p' at. f p' (inr at)) h)

has_num-is_str : (t : ShardKeyType) → has_num t ≡ true → is_str t ≡ false
has_num-is_str ShardKeyType.str h = sym h
has_num-is_str ShardKeyType.unsupported h = refl
has_num-is_str ShardKeyType.int h = refl
has_num-is_str ShardKeyType.date h = refl
has_num-is_str ShardKeyType.datetime h = refl

module _ (sort : Sort) (vdb : ShardingVdb) (ps : List ShardingPartition) (x : Value)
    (sorts : IsSort sort ps) (method : is_range vdb.method ≡ true)
    (numbers : has_num vdb.key_type ≡ true) (ranges : All IsRange ps) where
  sorted-IsRange : All IsRange (sort cmp_shard_range_groups_int ps)
  sorted-IsRange =
      All-below IsRange (sort cmp_shard_range_groups_int ps) ps (λ p. (sorts.1 p).1) ranges

  -- Partitions that are all by range, over keys that are numbers, do not overlap once they are set up
  -- with a sort that does what glib documents, if their bounds are at least INT_MIN: no key is in two
  -- that differ.
  pub setup_partitions_one :
      (p p' : ShardingPartition)
      → All (λ q. int_min ≤ℤ q.value.num) ps
      → Elem p (setup_partitions sort ps vdb)
      → Elem p' (setup_partitions sort ps vdb)
      → InPartition p x
      → InPartition p' x
      → p ≡ p'
  unfolding setup_partitions
  setup_partitions_one p p' bounds =
      let below =
        All-below (λ q. int_min ≤ℤ q.value.num) (sort cmp_shard_range_groups_int ps) ps
          (λ q. (sorts.1 q).1) bounds in
      rw (method, numbers)
        (record_low_one vdb.key_type (has_num-is_str vdb.key_type numbers) x int_min none
          (sort cmp_shard_range_groups_int ps) p p'
          (Rising-low int_min (sort cmp_shard_range_groups_int ps) below sorts.0) sorted-IsRange)

  -- Partitions that are all by range, over keys that are numbers, leave no gap once they are set up with
  -- a sort that does what glib documents: every key above INT_MIN and up to the bound of some partition
  -- is in one of them.
  pub setup_partitions-covers :
      (top : ShardingPartition)
      → int_min <ℤ x.num
      → Elem top ps
      → x.num ≤ℤ top.value.num
      → (p : ShardingPartition) × Elem p (setup_partitions sort ps vdb) × InPartition p x
  unfolding setup_partitions
  setup_partitions-covers top low at high =
      rw (method, numbers)
        (record_low_some vdb.key_type (has_num-is_str vdb.key_type numbers) x int_min none
          (sort cmp_shard_range_groups_int ps) top sorted-IsRange low ((sorts.1 top).0 at) high)
