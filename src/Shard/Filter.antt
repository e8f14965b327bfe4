-- ===== src/Shard/Filter.antt =====
-- plugins/shard/sharding-parser.c: the partitions that a WHERE clause leaves.
use cetus.Common.{
  ℕ, ◌-◌, ◌%◌, ◌^◌, Bool, true, false, Option, none, some, List, [], ◌∷◌, ◌++◌, length,
  if◌then◌else◌, ◌==◌, ltb,
}
use cetus.Common.Int.{ℤ, neg, pos, negsuc}
use cetus.Shard.Partition.{ShardingPartition, ShardKeyType, unsupported, int, str, date, datetime}
use cetus.Shard.Condition.{CompareOp, eq, ge, le, Condition, Value, partition_satisfies}

unfoldable pub partitions_filter : List ShardingPartition → Condition → List ShardingPartition
partitions_filter [] cond = []
partitions_filter (gp ∷ partitions) cond =
    let rest = partitions_filter partitions cond in
    if partition_satisfies gp cond then gp ∷ rest else rest

-- The partitions are appended to `to_partitions`.
unfoldable pub partitions_collect :
    List ShardingPartition → Condition → List ShardingPartition → List ShardingPartition
partitions_collect from cond to_partitions = to_partitions ++ partitions_filter from cond

-- The first partition that satisfies the condition.
unfoldable pub partitions_get : List ShardingPartition → Condition → Option ShardingPartition
partitions_get [] cond = none
partitions_get (gp ∷ partitions) cond =
    if partition_satisfies gp cond then some gp else partitions_get partitions cond

unfoldable pub partitions_merge :
    List ShardingPartition → List ShardingPartition → List ShardingPartition
partitions_merge partitions other = partitions ++ other

-- PARSE_OK with what was asked for, PARSE_UNRECOGNIZED and PARSE_ERROR. `stuck` is no value of the
-- source: a loop ran out of fuel.
pub data Parsed (A : Type 0) : Type 0 where
  ok : A → Parsed A
  unrecognized error stuck : Parsed A

infixl 5 ◌>>=◌
abbrev pub ◌>>=◌ : {A B : Type 0} → Parsed A → (A → Parsed B) → Parsed B
ok a >>= f = f a
unrecognized >>= f = unrecognized
error >>= f = error
stuck >>= f = stuck

-- An operand as the grammar builds it. `compound` is a function, a subquery, a column or an arithmetic
-- expression, `token` any other node.
pub data Operand : Type 0 where
  integer : ℤ → Operand
  uminus uplus : Operand → Operand
  string : List ℕ → Operand
  compound token : Operand

-- lib/sql-expression.c: sql_expr_get_int.
unfoldable pub get_int : Operand → Option ℤ
get_int (integer n) = some n
get_int (uminus p) = elim (get_int p) [ none ↦ none | some n ↦ some (neg n) ]
get_int (uplus p) = get_int p
get_int _ = none

-- The two formats of a date: with the time of day, and without.
pub data DateFormat : Type 0 where
  date_time date_only : DateFormat

-- glib's and libc's readers of numbers and dates: g_ascii_strtoll gives the value, the number of bytes
-- that it has read, and whether errno is ERANGE; strptime gives the fields of a `struct tm`, or NULL.
pub record Readers : Type 0 where
  pub strtoll : List ℕ → ℤ × ℕ × Bool
  pub strptime : DateFormat → List ℕ → Option (List ℤ)
  pub mktime : List ℤ → ℤ

-- The low 32 bits of a time_t, and an int with these bits.
unfoldable pub low_word : ℤ → ℕ
low_word (pos n) = n % 2 ^ 32
low_word (negsuc n) = 2 ^ 32 - 1 - n % 2 ^ 32

unfoldable pub int_of_word : ℕ → ℤ
int_of_word w = if ltb w (2 ^ 31) then pos w else negsuc (2 ^ 32 - 1 - w)

-- `return mktime (&t);` in a function that returns an int.
abbrev pub to_int : ℤ → ℤ
to_int n = int_of_word (low_word n)

-- src/chassis-timings.c; `none` is a false `ok`.
unfoldable pub chassis_epoch_from_string : Readers → List ℕ → Option ℤ
chassis_epoch_from_string readers s = elim (readers.strptime date_time s) [
  | some t ↦ some (to_int (readers.mktime t))
  | none ↦ elim (readers.strptime date_only s) [
    | some d ↦ some (to_int (readers.mktime d))
    | none ↦ none
  ]
]

abbrev pub num_value : ℤ → Value
num_value n = record { num = n; str = [] }

abbrev pub str_value : List ℕ → Value
str_value s = record { num = pos 0; str = s }

module _ (readers : Readers) where
  open readers use {strtoll}

  -- `str == endptr || *endptr != 0`: nothing was read, or not all.
  abbrev pub parse_int : List ℕ → Parsed Value
  parse_int s =
      let (n, used, range_error) = strtoll s in
      if range_error
      then error
      else if used == 0
      then error
      else if ltb used (length s)
      then error
      else ok (num_value n)

  abbrev pub epoch_value : Option ℤ → Parsed Value
  epoch_value none = error
  epoch_value (some n) = ok (num_value n)

  abbrev pub parse_epoch : List ℕ → Parsed Value
  parse_epoch s = epoch_value (chassis_epoch_from_string readers s)

  unfoldable pub string_to_sharding_value : List ℕ → ShardKeyType → Parsed Value
  string_to_sharding_value s str = ok (str_value s)
  string_to_sharding_value s date = parse_epoch s
  string_to_sharding_value s datetime = parse_epoch s
  string_to_sharding_value s int = parse_int s
  string_to_sharding_value s unsupported = error

  abbrev pub is_int : ShardKeyType → Bool
  is_int int = true
  is_int _ = false

  -- The tests behind the one on `sql_expr_get_int (p) && expected == SHARD_DATA_TYPE_INT`.
  abbrev pub parse_other : Operand → ShardKeyType → Parsed Value
  parse_other (string s) expected = string_to_sharding_value s expected
  parse_other compound expected = unrecognized
  parse_other _ expected = error

  abbrev pub parse_number_or : Option ℤ → Operand → ShardKeyType → Parsed Value
  parse_number_or none p expected = parse_other p expected
  parse_number_or (some n) p expected =
      if is_int expected then ok (num_value n) else parse_other p expected

  unfoldable pub expr_parse_sharding_value : Operand → ShardKeyType → Parsed Value
  expr_parse_sharding_value p expected = parse_number_or (get_int p) p expected

  -- The three leaves that are filtered by; each returns at once if no partition is left.
  unfoldable pub partitions_filter_inequation_expr :
      List ShardingPartition → CompareOp → Operand → Parsed (List ShardingPartition)
  partitions_filter_inequation_expr [] op right = ok []
  partitions_filter_inequation_expr (gp ∷ partitions) op right =
      expr_parse_sharding_value right gp.key_type >>= λ v.
      ok (partitions_filter (gp ∷ partitions) (record { op = op; v = v }))

  -- A list that has not two elements filters nothing.
  unfoldable pub partitions_filter_between_expr :
      List ShardingPartition → List Operand → Parsed (List ShardingPartition)
  partitions_filter_between_expr [] btlist = ok []
  partitions_filter_between_expr (gp ∷ partitions) (low ∷ high ∷ []) =
      expr_parse_sharding_value low gp.key_type >>= λ v.
      let above = partitions_filter (gp ∷ partitions) (record { op = ge; v = v }) in
      expr_parse_sharding_value high gp.key_type >>= λ w.
      ok (partitions_filter above (record { op = le; v = w }))
  partitions_filter_between_expr (gp ∷ partitions) btlist = ok (gp ∷ partitions)

  unfoldable pub collect_all :
      List ShardingPartition
      → ShardKeyType
      → List Operand
      → List ShardingPartition
      → Parsed (List ShardingPartition)
  collect_all partitions key_type [] collected = ok collected
  collect_all partitions key_type (arg ∷ args) collected =
      expr_parse_sharding_value arg key_type >>= λ v.
      collect_all partitions key_type args
        (partitions_collect partitions (record { op = eq; v = v }) collected)

  unfoldable pub partitions_collect_in_expr :
      List ShardingPartition → List Operand → Parsed (List ShardingPartition)
  partitions_collect_in_expr [] args = ok []
  partitions_collect_in_expr (part ∷ partitions) [] = unrecognized
  partitions_collect_in_expr (part ∷ partitions) (arg ∷ args) =
      collect_all (part ∷ partitions) part.key_type (arg ∷ args) []
