-- ===== src/Shard/Sound.antt =====
-- plugins/shard/sharding-parser.c: partitions_filter_expr keeps every partition that holds a row which
-- meets the WHERE clause.
use cetus.Common.{
  ℕ, zero, suc, Bool, true, false, ◌&&◌, not, ◌≡◌, refl, ap, sym, ◌∙◌, arith, List, [], ◌∷◌, ◌⊎◌,
  inl, inr, Bool-cases, &&-true, ||-true, All, All-append, Elem, Elem-append_left,
  Elem-append_right,
}
use cetus.Shard.Partition.{ShardingPartition, ShardKeyType, is_str}
use cetus.Shard.Condition.{CompareOp, eq, le, ge, Value, Condition, partition_satisfies}
use cetus.Shard.Filter.{
  Readers, Parsed, ok, unrecognized, error, stuck, ◌>>=◌, Operand, expr_parse_sharding_value,
  partitions_filter, partitions_collect, partitions_merge, partitions_filter_inequation_expr,
  partitions_filter_between_expr, partitions_collect_in_expr, collect_all,
}
use cetus.Shard.Where.{
  Expr, or, and, compare, between, in_list, other, filter_leaf, filter_loop, unless_empty,
  partitions_filter_expr, size,
}
use cetus.Shard.Rows.{
  Row, InPartition, key_meets, meets, meets_any, meets_both, meets_operand, TimeFits, TimesFit,
}
use cetus.Shard.Literal.{expr_parse_sharding_value_lem}
use cetus.Shard.Satisfies.{partition_satisfies_sound}

-- All partitions have keys of one type.
abbrev pub Typed : ShardKeyType → List ShardingPartition → Type 0
Typed kt = All (λ p. p.key_type ≡ kt)

-- What a call returns, if it returns PARSE_OK.
abbrev pub Returns : {A : Type 0} → (A → Type 0) → Parsed A → Type 0
Returns P (ok a) = P a
Returns P _ = Unit {0}

pub >>=-Returns :
    {A B : Type 0} (Q : B → Type 0) (m : Parsed A) (f : A → Parsed B)
    → ((a : A) → m ≡ ok a → Returns Q (f a))
    → Returns Q (m >>= f)
>>=-Returns Q (ok a) f k = k a refl
>>=-Returns Q unrecognized f k = tt
>>=-Returns Q error f k = tt
>>=-Returns Q stuck f k = tt

pub Returns-ok : {A : Type 0} (P : A → Type 0) (m : Parsed A) (a : A) → Returns P m → m ≡ ok a → P a
Returns-ok P m a h e = rw e at h

false_true : {A : Type 0} → false ≡ true → A
false_true h = cc

module _ (readers : Readers) (kt : ShardKeyType) (row : Row) (part : ShardingPartition)
    (home : InPartition part row.key) where
  -- The partitions have keys of one type, and under the condition `C` the row's partition is among them.
  abbrev Keeps : Type 0 → List ShardingPartition → Type 0
  Keeps C ps = Typed kt ps × (C → Elem part ps)

  filter-Typed :
      (ps : List ShardingPartition) (cond : Condition)
      → Typed kt ps
      → Typed kt (partitions_filter ps cond)
  unfolding partitions_filter
  filter-Typed [] cond t = tt
  filter-Typed (p ∷ ps) cond t = ground (arith, filter-Typed ps cond t.1)

  filter-Elem :
      (ps : List ShardingPartition) (op : CompareOp) (v : Value)
      → Typed kt ps
      → key_meets (is_str kt) op row.key v ≡ true
      → Elem part ps
      → Elem part (partitions_filter ps (record { op = op; v = v }))
  unfolding partitions_filter
  filter-Elem (p ∷ ps) op v t m (inl e) =
      let passes : partition_satisfies p (record { op = op; v = v }) ≡ true = rw (← e) (
        partition_satisfies_sound part row.key v op home
          (let same : part.key_type ≡ kt = ap (λ q. q.key_type) e ∙ t.0 in rw same m)) in
      rw passes (inl e)
  filter-Elem (p ∷ ps) op v t m (inr i) =
      elim (Bool-cases (partition_satisfies p (record { op = op; v = v }))) [
        | inl keep ↦ rw keep (inr (filter-Elem ps op v t.1 m i))
        | inr drop ↦ rw drop (filter-Elem ps op v t.1 m i)
      ]
  filter-Elem [] op v t m i = absurd i

  filter-Keeps :
      (C : Type 0) (ps : List ShardingPartition) (op : CompareOp) (v : Value)
      → Keeps C ps
      → (C → key_meets (is_str kt) op row.key v ≡ true)
      → Keeps C (partitions_filter ps (record { op = op; v = v }))
  filter-Keeps C ps op v k m = (filter-Typed ps _ k.0, λ c. filter-Elem ps op v k.0 (m c) (k.1 c))

  -- An operand is parsed at the type of the first partition's keys, and is compared with the key.
  abbrev parse : Operand → ShardKeyType → Parsed Value
  parse = expr_parse_sharding_value readers

  -- The operand is met by the key, and a time that it names fits an int.
  abbrev MeetsFit : CompareOp → Operand → Bool → Type 0
  MeetsFit op right unknown =
      (meets_operand readers kt row op right unknown ≡ true) × TimeFits readers kt right

  operand_value :
      (t : ShardKeyType) (op : CompareOp) (right : Operand) (unknown : Bool) (v : Value)
      → t ≡ kt
      → parse right t ≡ ok v
      → MeetsFit op right unknown
      → key_meets (is_str kt) op row.key v ≡ true
  operand_value t op right unknown v same e (m, fits) =
      let value =
        expr_parse_sharding_value_lem readers right kt fits v (sym (ap (parse right) same) ∙ e) in
      rw (value, meets_operand) at m

  inequation-Keeps :
      (C : Type 0) (ps : List ShardingPartition) (op : CompareOp) (right : Operand) (unknown : Bool)
      → Keeps C ps
      → (C → MeetsFit op right unknown)
      → Returns (Keeps C) (partitions_filter_inequation_expr readers ps op right)
  unfolding partitions_filter_inequation_expr
  inequation-Keeps C [] op right unknown k m = k
  inequation-Keeps C (gp ∷ ps) op right unknown k m =
      >>=-Returns (Keeps C) (parse right gp.key_type) _ λ v e.
        filter-Keeps C (gp ∷ ps) op v k
          (λ c. operand_value gp.key_type op right unknown v k.0.0 e (m c))

  between-Keeps :
      (C : Type 0) (ps : List ShardingPartition) (btlist : List Operand) (unknown : Bool)
      → Keeps C ps
      → (C → (meets_both readers kt row btlist unknown ≡ true) × All (TimeFits readers kt) btlist)
      → Returns (Keeps C) (partitions_filter_between_expr readers ps btlist)
  unfolding partitions_filter_between_expr
  between-Keeps C [] btlist unknown k m = k
  between-Keeps C (gp ∷ ps) (low ∷ high ∷ []) unknown k m =
      >>=-Returns (Keeps C) (parse low gp.key_type) _ λ v e.
        >>=-Returns (Keeps C) (parse high gp.key_type) _ λ w f.
          filter-Keeps C (partitions_filter (gp ∷ ps) (record { op = ge; v = v })) le w
            (filter-Keeps C (gp ∷ ps) ge v k (λ c.
              operand_value gp.key_type ge low unknown v k.0.0 e
                ((&&-true _ _ (m c).0).0, (m c).1.0)))
            (λ c.
              operand_value gp.key_type le high unknown w k.0.0 f
                ((&&-true _ _ (m c).0).1, (m c).1.1.0))
  between-Keeps C (gp ∷ ps) _ unknown k m = k

  collect-Keeps :
      (C : Type 0) (ps : List ShardingPartition) (t : ShardKeyType) (args : List Operand)
      (collected : List ShardingPartition) (unknown : Bool)
      → t ≡ kt
      → Keeps C ps
      → Typed kt collected
      → (C
          → Elem part collected
            ⊎ ((meets_any readers kt row args unknown ≡ true) × All (TimeFits readers kt) args))
      → Returns (Keeps C) (collect_all readers ps t args collected)
  unfolding collect_all partitions_collect meets_any
  collect-Keeps C ps t [] collected unknown same k typed m =
      (typed, λ c. elim (m c) [ inl i ↦ i | inr empty ↦ false_true empty.0 ])
  collect-Keeps C ps t (arg ∷ args) collected unknown same k typed m =
      >>=-Returns (Keeps C) (parse arg t) _ λ v e.
        collect-Keeps C ps t args _ unknown same k
          (All-append _ collected _ typed (filter-Typed ps _ k.0))
          (λ c. elim (m c) [
            | inl i ↦ inl (Elem-append_left part collected _ i)
            | inr any ↦ elim (||-true _ _ any.0) [
              | inl first ↦ inl (
                  Elem-append_right part collected _ (
                    filter-Elem ps eq v k.0
                      (operand_value t eq arg unknown v same e (first, any.1.0)) (k.1 c)))
              | inr others ↦ inr (others, any.1.1)
            ]
          ])

  in_list-Keeps :
      (C : Type 0) (ps : List ShardingPartition) (args : List Operand) (unknown : Bool)
      → Keeps C ps
      → (C → (meets_any readers kt row args unknown ≡ true) × All (TimeFits readers kt) args)
      → Returns (Keeps C) (partitions_collect_in_expr readers ps args)
  unfolding partitions_collect_in_expr
  in_list-Keeps C [] args unknown k m = k
  in_list-Keeps C (gp ∷ ps) [] unknown k m = tt
  in_list-Keeps C (gp ∷ ps) (arg ∷ args) unknown k m =
      collect-Keeps C (gp ∷ ps) gp.key_type (arg ∷ args) [] unknown k.0.0 k tt (λ c. inr (m c))

  abbrev Met : Expr → Type 0
  Met e = (meets readers kt row e ≡ true) × TimesFit readers kt e

  -- Under `C` the row meets the condition of the leaf.
  leaf-Keeps :
      (C : Type 0) (ps : List ShardingPartition) (e : Expr)
      → Keeps C ps
      → (C → Met e)
      → Returns (Keeps C) (filter_leaf readers ps e)
  unfolding filter_leaf meets
  leaf-Keeps C ps (or l r) k m = k
  leaf-Keeps C ps (and l r) k m = k
  leaf-Keeps C ps (other id) k m = k
  leaf-Keeps C ps (compare id flags op right) k m =
      elim (Bool-cases (flags.shard_cond && not flags.join_link)) [
        | inl on ↦
            rw on
              (inequation-Keeps C ps op right (row.truth id) k (λ c. (rw on at (m c).0, (m c).1)))
        | inr off ↦ rw off k
      ]
  leaf-Keeps C ps (between id flags btlist) k m = elim (Bool-cases flags.shard_cond) [
    | inl on ↦ rw on (between-Keeps C ps btlist (row.truth id) k (λ c. (rw on at (m c).0, (m c).1)))
    | inr off ↦ rw off k
  ]
  leaf-Keeps C ps (in_list id flags args) k m = elim (Bool-cases flags.shard_cond) [
    | inl on ↦ rw on (in_list-Keeps C ps args (row.truth id) k (λ c. (rw on at (m c).0, (m c).1)))
    | inr off ↦ rw off k
  ]

  unless_empty-Keeps :
      (C D : Type 0) (ps : List ShardingPartition) (r : Parsed (List ShardingPartition))
      → (D → C)
      → Keeps C ps
      → Returns (Keeps D) r
      → Returns (Keeps D) (unless_empty readers ps r)
  unless_empty-Keeps C D [] r weaker k h = (tt, λ d. k.1 (weaker d))
  unless_empty-Keeps C D (p ∷ ps) r weaker k h = h

  merge-Keeps :
      (C A B : Type 0) (ps qs : List ShardingPartition)
      → (C → A ⊎ B)
      → Keeps A ps
      → Keeps B qs
      → Keeps C (partitions_merge ps qs)
  unfolding partitions_merge
  merge-Keeps C A B ps qs side k l = (
    All-append _ ps qs k.0 l.0,
    λ c. elim (side c) [
      | inl a ↦ Elem-append_left part ps qs (k.1 a)
      | inr b ↦ Elem-append_right part ps qs (l.1 b)
    ],
  )

  loop-Keeps :
      (f : ℕ) (C : Type 0) (st : List Expr) (ps : List ShardingPartition)
      → Keeps C ps
      → (C → All Met st)
      → Returns (Keeps C) (filter_loop readers f st ps)
  unfolding filter_loop meets
  loop-Keeps zero C st ps k m = tt
  loop-Keeps (suc f) C [] ps k m = k
  loop-Keeps (suc f) C (or l r ∷ st) ps k m =
      let left : Returns (Keeps (C × Met l)) (filter_loop readers f (l ∷ []) ps) =
        loop-Keeps f (C × Met l) (l ∷ []) ps (k.0, λ c. k.1 c.0) (λ c. (c.1, tt)) in
      let right : Returns (Keeps (C × Met r)) (filter_loop readers f (r ∷ []) ps) =
        loop-Keeps f (C × Met r) (r ∷ []) ps (k.0, λ c. k.1 c.0) (λ c. (c.1, tt)) in
      >>=-Returns (Keeps C) (unless_empty readers ps (filter_loop readers f (l ∷ []) ps)) _
        λ kept e.
          >>=-Returns (Keeps C) (unless_empty readers ps (filter_loop readers f (r ∷ []) ps)) _
            λ others g.
              loop-Keeps f C st (partitions_merge kept others)
                (merge-Keeps C (C × Met l) (C × Met r) kept others
                  (λ c. elim (||-true _ _ (m c).0.0) [
                    | inl a ↦ inl (c, (a, (m c).0.1.0))
                    | inr b ↦ inr (c, (b, (m c).0.1.1))
                  ])
                  (Returns-ok (Keeps (C × Met l)) _ kept
                    (unless_empty-Keeps C (C × Met l) ps _ (λ c. c.0) k left) e)
                  (Returns-ok (Keeps (C × Met r)) _ others
                    (unless_empty-Keeps C (C × Met r) ps _ (λ c. c.0) k right) g))
                (λ c. (m c).1)
  loop-Keeps (suc f) C (and l r ∷ st) ps k m = loop-Keeps f C (l ∷ r ∷ st) ps k (λ c.
      let both = &&-true _ _ (m c).0.0 in ((both.0, (m c).0.1.0), ((both.1, (m c).0.1.1), (m c).1)))
  loop-Keeps (suc f) C (e ∷ st) ps k m =
      >>=-Returns (Keeps C) (filter_leaf readers ps e) _ λ kept g.
        loop-Keeps f C st kept (Returns-ok (Keeps C) _ kept (leaf-Keeps C ps e k (λ c. (m c).0)) g)
          (λ c. (m c).1)

-- The routing of a WHERE clause loses no row: if the partitions have keys of one type, one of them
-- holds the key of a row, the times that the clause compares dates with fit an int, and the row meets
-- the clause, where a constant has the value that its signs and digits, its string or its time have,
-- then that partition is among those that are kept.
pub partitions_filter_expr_sound :
    (readers : Readers) (kt : ShardKeyType) (row : Row) (part : ShardingPartition)
    (partitions kept : List ShardingPartition) (expr : Expr)
    → Typed kt partitions
    → Elem part partitions
    → InPartition part row.key
    → TimesFit readers kt expr
    → meets readers kt row expr ≡ true
    → partitions_filter_expr readers partitions expr ≡ ok kept
    → Elem part kept
unfolding partitions_filter_expr
partitions_filter_expr_sound readers kt row part [] kept expr typed at home fits met e = absurd at
partitions_filter_expr_sound readers kt row part (gp ∷ ps) kept expr typed at home fits met e =
    let run =
      loop-Keeps readers kt row part home (suc (size expr)) (Unit {0}) (expr ∷ []) (gp ∷ ps)
        (typed, λ _. at) (λ _. ((met, fits), tt)) in
    (Returns-ok _ _ kept run e).1 tt
