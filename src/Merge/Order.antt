-- ===== src/Merge/Order.antt =====
-- src/resultset_merge.c, get_field_offsets, get_nth_short, compare_records_by_str and is_prior_to: the order of
-- two rows. `none` is a failed assertion or a write outside an array.
use cetus.Common.{
  ℕ, zero, suc, ◌-◌, ◌*◌, ◌/◌, ◌%◌, ◌^◌, Bool, true, false, ◌&&◌, ◌||◌, not, Option, none, some,
  List, [], ◌∷◌, if◌then◌else◌, ◌==◌, ltb, leb, add64,
}
use cetus.Common.Int.{ℤ, pos, pos_part}
use cetus.Wire.Packet.{Packet, Outcome, ok, fail, fault, byte_at}
use cetus.Wire.Decode.{skip, skip_lenenc_str, net_header_size}
use cetus.Wire.Strings.{get_column}
use cetus.Merge.Compare.{prior_to}
use cetus.Merge.Aggregate.{
  FieldType, tiny, short, long, longlong, int24, newdecimal, decimal, float, double, date, time,
  year, newdate, timestamp, datetime, var_string, string, unordered, other,
}
use cetus.Merge.Columns.{
  OrderBy, TimeReaders, compare_records_from_column, compare_value_from_records, column_of,
  with_both,
}

abbrev pub max_order_by_items : ℕ
max_order_by_items = 32

-- The first `n` columns of ORDER BY.
abbrev pub first_columns : ℕ → List OrderBy → List OrderBy
first_columns zero obs = []
first_columns (suc n) [] = []
first_columns (suc n) (ob ∷ obs) = ob ∷ first_columns n obs

unfoldable pub max_pos : List OrderBy → ℕ
max_pos [] = 0
max_pos (ob ∷ obs) = let rest = max_pos obs in if ltb rest ob.pos then ob.pos else rest

-- `map[p]`, where the first of `obs` has the number `i`; a later column at the same place wins.
unfoldable pub map_at : List OrderBy → ℕ → ℕ → ℕ
map_at [] i p = 0
map_at (ob ∷ obs) i p =
    let later = map_at obs (suc i) p in
    if not (later == 0) then later else if ob.pos == p then suc i else 0

-- What is added to `value` for the column with the number `seq`, whose offset is `new_value`.
unfoldable pub with_offset : ℕ → ℕ → ℕ → ℕ
with_offset value new_value seq =
    if leb new_value 0xffff then add64 value (new_value * 2 ^ (16 * seq) % 2 ^ 64) else value

unfoldable pub noted : List OrderBy → ℕ → ℕ → ℕ → ℕ
noted obs next_iter value offset =
    let place = map_at obs 0 next_iter in
    if ltb next_iter max_order_by_items && not (place == 0)
    then with_offset value offset (place - 1)
    else value

-- The loop; `after` is it from the next round on.
unfoldable pub offset_after :
    (ℕ → Packet → Option ℕ) → List OrderBy → ℕ → ℕ → Outcome (Unit {0}) → Option ℕ
offset_after next obs iter value (ok x p) = next (noted obs (suc iter) value p.offset) p
offset_after next obs iter value (fail p) = some 0
offset_after next obs iter value fault = none

-- The result of network_mysqld_proto_skip is not used.
abbrev pub ignored : Outcome (Unit {0}) → Outcome (Unit {0})
ignored (ok x p) = ok x p
ignored (fail p) = ok tt p
ignored fault = fault

unfoldable pub offsets_loop : ℕ → List OrderBy → ℕ → ℕ → Packet → Option ℕ
offsets_loop zero obs iter value p = some value
offsets_loop (suc rounds) obs iter value p =
    offset_after (offsets_loop rounds obs (suc iter)) obs iter value
      (if byte_at p p.offset == 251 then ignored (skip 1 p) else skip_lenenc_str p)

unfoldable pub get_field_offsets : List ℕ → List OrderBy → Option ℕ
get_field_offsets row order_array =
    let obs = first_columns 4 order_array in
    let rounds = max_pos obs in
    if ltb max_order_by_items rounds
    then some 0
    else if rounds == max_order_by_items
    then none
    else offsets_loop rounds obs 0 (if rounds == 0 then net_header_size else 0)
        (record { bytes = row; offset = net_header_size })

unfoldable pub get_nth_short : ℕ → ℕ → Option ℕ
get_nth_short base n = if ltb n 4 then some (base / 2 ^ (16 * n) % 2 ^ 16) else none

infixl 5 ◌>>=◌
abbrev pub ◌>>=◌ : {A B : Type 0} → Option A → (A → Option B) → Option B
none >>= f = none
some a >>= f = f a

-- field_offsets_cache
abbrev pub Cache : Type 0
Cache = ℕ → ℕ

abbrev pub cache_set : Cache → ℕ → ℕ → Cache
cache_set cache index offsets i = if index == i then offsets else cache i

abbrev pub stored : Cache → ℕ → Option ℕ → Option (ℕ × Cache)
stored cache index none = none
stored cache index (some offsets) = some (offsets, cache_set cache index offsets)

-- `offsets` of a row, from the cache or else put there.
unfoldable pub cached_offsets : List OrderBy → Cache → ℕ → List ℕ → Option (ℕ × Cache)
cached_offsets order_array cache index row =
    if cache index == 0
    then stored cache index (get_field_offsets row order_array)
    else some (cache index, cache)

abbrev pub column_at : List ℕ → Option ℕ → Option (List ℕ)
column_at row none = none
column_at row (some offset) = column_of (
    get_column 512
      (record { bytes = row; offset = if offset == 0 then net_header_size else offset }))

-- The two columns with the number `i`, and the cache.
unfoldable pub str_columns :
    List OrderBy
    → Cache
    → ℕ
    → ℕ
    → List ℕ
    → List ℕ
    → ℕ
    → Option ((Option (List ℕ) × Option (List ℕ)) × Cache)
str_columns order_array cache index1 index2 row1 row2 i = do
  first ← cached_offsets order_array cache index1 row1
  second ← cached_offsets order_array first.1 index2 row2
  some (
    (column_at row1 (get_nth_short first.0 i), column_at row2 (get_nth_short second.0 i)),
    second.1,
  )

-- What a column gives: whether the rows are equal in it, else what is_prior_to returns, whether
-- `compare_failed` is set, and the cache.
abbrev pub FieldOrder : Type 0
FieldOrder = (Bool × ℤ × Bool) × Cache

abbrev pub keep : Cache → Option (Bool × ℤ × Bool) → Option FieldOrder
keep cache none = none
keep cache (some compared) = some (compared, cache)

abbrev pub unfailing_with : Cache → Option (Bool × ℤ) → Option FieldOrder
unfailing_with cache none = none
unfailing_with cache (some (equal, result)) = some ((equal, result, false), cache)

abbrev pub of_columns : Bool → (Option (List ℕ) × Option (List ℕ)) × Cache → Option FieldOrder
of_columns desc ((first, second), cache) = unfailing_with cache (
    with_both first second
      (λ str1 str2. compare_records_from_column str1 str2 prior_to desc (pos 0)))

unfoldable pub compare_records_by_str :
    List OrderBy → Cache → ℕ → ℕ → List ℕ → List ℕ → ℕ → Bool → Option FieldOrder
compare_records_by_str order_array cache index1 index2 row1 row2 i desc =
    str_columns order_array cache index1 index2 row1 row2 i >>= of_columns desc

-- How the loop treats a type: it compares as another type, as a string, or returns 1.
pub data Comparison : Type 0 where
  as_value : FieldType → Comparison
  as_str : Comparison
  returns_1 : Bool → Comparison

unfoldable pub comparison : FieldType → Comparison
comparison tiny = as_value long
comparison short = as_value long
comparison long = as_value long
comparison longlong = as_value long
comparison int24 = as_value long
comparison newdecimal = as_value double
comparison decimal = as_value double
comparison float = as_value double
comparison double = as_value double
comparison date = as_value date
comparison time = as_value date
comparison year = as_value date
comparison newdate = returns_1 false
comparison timestamp = as_str
comparison datetime = as_str
comparison var_string = as_str
comparison string = as_str
comparison unordered = returns_1 false
comparison other = returns_1 true

module _ (readers : TimeReaders) (order_array : List OrderBy) (index1 index2 : ℕ)
    (row1 row2 : List ℕ) where
  unfoldable pub compare_field : Comparison → Cache → ℕ → OrderBy → Option FieldOrder
  compare_field (as_value type) cache i order =
      keep cache (compare_value_from_records readers row1 row2 order type (pos 0))
  compare_field as_str cache i order =
      compare_records_by_str order_array cache index1 index2 row1 row2 i order.desc
  compare_field (returns_1 failed) cache i order = some ((false, pos 1, failed), cache)

  -- `next` is the loop from the next round on.
  unfoldable pub after_field :
      (Bool → Cache → Option ((Bool × Bool × Bool) × Cache))
      → Bool
      → FieldOrder
      → Option ((Bool × Bool × Bool) × Cache)
  after_field next failed ((true, result, failed'), cache) = next (failed || failed') cache
  after_field next failed ((false, result, failed'), cache) =
      some ((ltb 0 (pos_part result), false, failed || failed'), cache)

  unfoldable pub prior_loop :
      List OrderBy → ℕ → Bool → Cache → Option ((Bool × Bool × Bool) × Cache)
  prior_loop [] i failed cache = some ((true, true, failed), cache)
  prior_loop (order ∷ orders) i failed cache =
      compare_field (comparison order.type) cache i order
      >>= after_field (prior_loop orders (suc i)) failed

  -- The result, `is_record_equal` and whether `compare_failed` is set, with the cache.
  unfoldable pub is_prior_to : Cache → Option ((Bool × Bool × Bool) × Cache)
  is_prior_to cache = prior_loop order_array 0 false cache
