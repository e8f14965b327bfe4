-- ===== src/Shard/Rows.antt =====
-- What a condition means for a row, and which partition holds the row: the specification of routing.
use Prim.Native.Nat.{Ordering}
use cetus.Common.{
  ℕ, zero, suc, ◌-◌, ◌^◌, ◌==◌, leb, length, All, Option, none, some, Bool, true, false, ◌&&◌, ◌||◌,
  not, ◌≡◌, List, [], ◌∷◌, if◌then◌else◌,
}
use cetus.Common.Int.{ℤ, pos, negsuc, ltb_ℤ, leb_ℤ, eqb_ℤ, ◌≤ℤ◌, ◌<ℤ◌}
use cetus.Shard.Hash.{modulo}
use cetus.Shard.Partition.{
  ShardingPartition, ShardKeyType, int, str, date, datetime, is_str, is_hash, contain_hash,
}
use cetus.Shard.Condition.{
  CompareOp, eq, ne, lt, le, gt, ge, Value, strcmp, is_lt, is_gt, above_low, upto_high, hash_value,
}
use cetus.Shard.Filter.{
  Readers, Operand, integer, uminus, uplus, string, compound, token, date_time, date_only,
}
use cetus.Shard.Where.{Expr, or, and, compare, between, in_list, other}

-- A row: its sharding key, and the truth of the conditions that routing does not look into.
pub record Row : Type 0 where
  pub key : Value
  pub truth : ℕ → Bool

abbrev pub compare_num : CompareOp → ℤ → ℤ → Bool
compare_num eq x v = eqb_ℤ x v
compare_num ne x v = not (eqb_ℤ x v)
compare_num lt x v = ltb_ℤ x v
compare_num le x v = leb_ℤ x v
compare_num gt x v = ltb_ℤ v x
compare_num ge x v = leb_ℤ v x

-- Strings are compared byte by byte.
abbrev is_eq : Ordering → Bool
is_eq Ordering.eq = true
is_eq _ = false

abbrev pub compare_str : CompareOp → List ℕ → List ℕ → Bool
compare_str eq x v = is_eq (strcmp x v)
compare_str ne x v = not (is_eq (strcmp x v))
compare_str lt x v = is_lt (strcmp x v)
compare_str le x v = not (is_gt (strcmp x v))
compare_str gt x v = is_gt (strcmp x v)
compare_str ge x v = not (is_lt (strcmp x v))

-- `key op v`, at the type of the keys.
unfoldable pub key_meets : Bool → CompareOp → Value → Value → Bool
key_meets true op x v = compare_str op x.str v.str
key_meets false op x v = compare_num op x.num v.num

-- The keys of a partition: those whose hash is in its set, or those in (low, high].
abbrev pub Holds : Bool → Bool → ShardingPartition → Value → Type 0
Holds true _ p x = contain_hash p (modulo (hash_value p x) p.hash_count) ≡ true
Holds false true p x =
    (above_low x.str p.low_value.str ≡ true) × (upto_high x.str p.value.str ≡ true)
Holds false false p x = (p.low_value.num <ℤ x.num) × (x.num ≤ℤ p.value.num)

abbrev pub InPartition : ShardingPartition → Value → Type 0
InPartition p x = Holds (is_hash p.method) (is_str p.key_type) p x

-- The number that a constant stands for: integers with any signs in front.
abbrev pub opposite : ℤ → ℤ
opposite (pos zero) = pos 0
opposite (pos (suc n)) = negsuc n
opposite (negsuc n) = pos (suc n)

abbrev pub map_number : (ℤ → ℤ) → Option ℤ → Option ℤ
map_number f none = none
map_number f (some n) = some (f n)

abbrev pub number_of : Operand → Option ℤ
number_of (integer n) = some n
number_of (uminus p) = map_number opposite (number_of p)
number_of (uplus p) = number_of p
number_of (string s) = none
number_of compound = none
number_of token = none

abbrev pub as_num : Option ℤ → Option Value
as_num none = none
as_num (some n) = some (record { num = n; str = [] })

abbrev pub or_else : Option ℤ → Option ℤ → Option ℤ
or_else none n = n
or_else (some m) n = some m

-- An int has 32 bits.
abbrev pub FitsInt : ℤ → Type 0
FitsInt n = (negsuc (2 ^ 31 - 1) ≤ℤ n) × (n ≤ℤ pos (2 ^ 31 - 1))

module _ (readers : Readers) where
  -- A string that is a number as a whole, in the range of a gint64.
  abbrev pub whole_number : List ℕ → Option ℤ
  whole_number s =
      let (n, used, range_error) = readers.strtoll s in
      if not range_error && not (used == 0) && leb (length s) used then some n else none

  abbrev pub at_time : Option (List ℤ) → Option ℤ
  at_time none = none
  at_time (some t) = some (readers.mktime t)

  -- The time that a string names, in seconds, of any size.
  abbrev pub time_of : List ℕ → Option ℤ
  time_of s =
      or_else (at_time (readers.strptime date_time s)) (at_time (readers.strptime date_only s))

  -- The value of a constant at the type of the keys.
  unfoldable pub literal : ShardKeyType → Operand → Option Value
  literal int (string s) = as_num (whole_number s)
  literal int p = as_num (number_of p)
  literal str (string s) = some (record { num = pos 0; str = s })
  literal date (string s) = as_num (time_of s)
  literal datetime (string s) = as_num (time_of s)
  literal key_type p = none

  abbrev pub is_time : ShardKeyType → Bool
  is_time date = true
  is_time datetime = true
  is_time key_type = false

  -- A time that an operand names fits an int.
  abbrev pub TimeFits : ShardKeyType → Operand → Type 0
  TimeFits key_type p =
      (v : Value) → is_time key_type ≡ true → literal key_type p ≡ some v → FitsInt v.num

  -- All times of a condition fit ints.
  abbrev pub TimesFit : ShardKeyType → Expr → Type 0
  TimesFit key_type (or left right) = TimesFit key_type left × TimesFit key_type right
  TimesFit key_type (and left right) = TimesFit key_type left × TimesFit key_type right
  TimesFit key_type (compare id flags op right) = TimeFits key_type right
  TimesFit key_type (between id flags btlist) = All (TimeFits key_type) btlist
  TimesFit key_type (in_list id flags args) = All (TimeFits key_type) args
  TimesFit key_type (other id) = Unit {0}

module _ (readers : Readers) (key_type : ShardKeyType) (row : Row) where
  -- `key op right`; an operand that is no constant of the key's type is not looked into.
  abbrev pub meets_operand : CompareOp → Operand → Bool → Bool
  meets_operand op right unknown = elim (literal readers key_type right) [
    | some v ↦ key_meets (is_str key_type) op row.key v
    | none ↦ unknown
  ]

  unfoldable pub meets_any : List Operand → Bool → Bool
  meets_any [] unknown = false
  meets_any (arg ∷ args) unknown = meets_operand eq arg unknown || meets_any args unknown

  abbrev pub meets_both : List Operand → Bool → Bool
  meets_both (low ∷ high ∷ []) unknown =
      meets_operand ge low unknown && meets_operand le high unknown
  meets_both _ unknown = unknown

  -- Whether the row meets the condition.
  unfoldable pub meets : Expr → Bool
  meets (or left right) = meets left || meets right
  meets (and left right) = meets left && meets right
  meets (compare id flags op right) =
      if flags.shard_cond && not flags.join_link
      then meets_operand op right (row.truth id)
      else row.truth id
  meets (between id flags btlist) =
      if flags.shard_cond then meets_both btlist (row.truth id) else row.truth id
  meets (in_list id flags args) =
      if flags.shard_cond then meets_any args (row.truth id) else row.truth id
  meets (other id) = row.truth id
