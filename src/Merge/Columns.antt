-- ===== src/Merge/Columns.antt =====
-- src/resultset_merge.c, compare_date to compare_time_year, compare_records_from_column and
-- compare_value_from_records: the order of two columns.
use cetus.Common.{
  ℕ, zero, suc, ◌+◌, Bool, true, false, ◌&&◌, ◌||◌, not, Option, none, some, List, [], ◌∷◌,
  if◌then◌else◌, ◌==◌, ltb, leb,
}
use cetus.Common.Int.{ℤ, pos, negsuc, pos_part, neg_part, ltb_ℤ, eqb_ℤ}
use cetus.Wire.Packet.{Outcome, ok, fail, fault, ◌>>=◌, M}
use cetus.Wire.Decode.{skip, skip_lenenc_str, peek_int8, net_header_size}
use cetus.Wire.Strings.{get_column}
use cetus.Merge.Compare.{ComType, prior_to, nor_rel, compare_str_num_value, is_nil}
use cetus.Merge.Aggregate.{FieldType, long, double, date, time, year}

-- A column of ORDER BY or of GROUP BY.
pub record OrderBy : Type 0 where
  pub desc : Bool
  pub type : FieldType
  pub pos : ℕ

-- libc's readers. strptime leaves zeros in a `struct tm` for what it does not read; `tm_year` is counted
-- from the year 0 here, so that it is not negative.
pub record TimeReaders : Type 0 where
  pub year_month_day : List ℕ → ℕ × ℕ × ℕ
  pub hour_min_sec : List ℕ → ℕ × ℕ × ℕ
  pub atol : List ℕ → ℤ

-- "1970-01-01 00:00:00"
abbrev pub epoch : List ℕ
epoch =
    49 ∷ 57 ∷ 55 ∷ 48 ∷ 45 ∷ 48 ∷ 49 ∷ 45 ∷ 48 ∷ 49 ∷ 32 ∷ 48 ∷ 48 ∷ 58 ∷ 48 ∷ 48 ∷ 58 ∷ 48 ∷ 48
    ∷ []

abbrev pub or_epoch : List ℕ → List ℕ
or_epoch str = if is_nil str then epoch else str

-- `*result` where the first string is behind the second.
abbrev pub behind : ComType → ℤ
behind prior_to = pos 0
behind nor_rel = negsuc 0

-- The loop over the differences, each as its two numbers: the returned test for equality, and `*result`.
unfoldable pub compare_parts : ComType → Bool → ℤ → List (ℕ × ℕ) → Bool × ℤ
compare_parts com_type desc result [] = (true, result)
compare_parts com_type desc result ((a, b) ∷ diff) =
    let rest = compare_parts com_type desc result diff in
    if (desc && ltb b a) || (not desc && ltb a b)
    then (false, pos 1)
    else if (desc && ltb a b) || (not desc && ltb b a)
    then (false, behind com_type)
    else rest

abbrev pub pairs : ℕ × ℕ × ℕ → ℕ × ℕ × ℕ → List (ℕ × ℕ)
pairs (a, b, c) (a', b', c') = (a, a') ∷ (b, b') ∷ (c, c') ∷ []

unfoldable pub compare_date : TimeReaders → List ℕ → List ℕ → ComType → ℤ → Bool → Bool × ℤ
compare_date readers str1 str2 com_type result desc =
    let read = λ (s : List ℕ). readers.year_month_day (or_epoch s) in
    compare_parts com_type desc result (pairs (read str1) (read str2))

unfoldable pub compare_time : TimeReaders → List ℕ → List ℕ → ComType → ℤ → Bool → Bool × ℤ
compare_time readers str1 str2 com_type result desc =
    let read = λ (s : List ℕ). readers.hour_min_sec (or_epoch s) in
    compare_parts com_type desc result (pairs (read str1) (read str2))

unfoldable pub compare_year : TimeReaders → List ℕ → List ℕ → ComType → ℤ → Bool → Bool × ℤ
compare_year readers str1 str2 com_type result desc =
    let y1 = readers.atol (or_epoch str1) in
    let y2 = readers.atol (or_epoch str2) in
    if eqb_ℤ y1 y2
    then (true, result)
    else if (if desc then ltb_ℤ y2 y1 else ltb_ℤ y1 y2)
    then (false, pos 1)
    else (false, behind com_type)

abbrev pub to_lower : ℕ → ℕ
to_lower c = if leb 65 c && leb c 90 then c + 32 else c

-- libc's strcasecmp in the C locale, of which the sign is used.
unfoldable pub strcasecmp : List ℕ → List ℕ → ℤ
strcasecmp [] [] = pos 0
strcasecmp [] (b ∷ s2) = negsuc 0
strcasecmp (a ∷ s1) [] = pos 1
strcasecmp (a ∷ s1) (b ∷ s2) =
    let rest = strcasecmp s1 s2 in
    if ltb (to_lower a) (to_lower b)
    then negsuc 0
    else if ltb (to_lower b) (to_lower a)
    then pos 1
    else rest

unfoldable pub column_order : List ℕ → List ℕ → ℤ
column_order str1 str2 =
    if is_nil str1 && not (is_nil str2)
    then negsuc 0
    else if not (is_nil str1) && is_nil str2
    then pos 1
    else if not (is_nil str1) && not (is_nil str2)
    then strcasecmp str1 str2
    else pos 0

unfoldable pub compare_records_from_column : List ℕ → List ℕ → ComType → Bool → ℤ → Bool × ℤ
compare_records_from_column str1 str2 com_type desc result =
    let ret = column_order str1 str2 in
    if pos_part ret + neg_part ret == 0
    then (true, result)
    else if (desc && ltb 0 (pos_part ret)) || (not desc && ltb 0 (neg_part ret))
    then (false, pos 1)
    else (false, behind com_type)

-- One round of skip_field, after the byte `first`.
abbrev pub skip_one : ℕ → M (Unit {0})
skip_one first p =
    if first == 251
    then elim (skip 1 p) [ ok x q ↦ ok tt q | fail q ↦ ok tt q | fault ↦ fault ]
    else skip_lenenc_str p

unfoldable pub skip_field : ℕ → M (Unit {0})
skip_field zero p = ok tt p
skip_field (suc iter) p = (peek_int8 >>= skip_one >>= λ _. skip_field iter) p

-- The bytes in front of the first NUL.
unfoldable pub c_string : List ℕ → List ℕ
c_string [] = []
c_string (c ∷ s) = let rest = c_string s in if c == 0 then [] else c ∷ rest

-- The buffer of 512 zero bytes after network_mysqld_proto_get_column.
unfoldable pub column_of : Outcome (List ℕ) → Option (List ℕ)
column_of (ok s p) = some (c_string s)
column_of (fail p) = some []
column_of fault = none

-- The column that is read where skip_field leaves the packet, whether it fails or not.
unfoldable pub read_after : Outcome (Unit {0}) → Option (List ℕ)
read_after (ok x p) = column_of (get_column 512 p)
read_after (fail p) = column_of (get_column 512 p)
read_after fault = none

unfoldable pub column : ℕ → List ℕ → Option (List ℕ)
column skip row = read_after (skip_field skip (record { bytes = row; offset = net_header_size }))

abbrev pub unfailing : Bool × ℤ → Bool × ℤ × Bool
unfailing (equal, result) = (equal, result, false)

-- The returned test for equality, `*result`, and whether `compare_failed` is set.
unfoldable pub compare_value :
    TimeReaders → FieldType → Bool → List ℕ → List ℕ → ℤ → Bool × ℤ × Bool
compare_value readers long desc str1 str2 result =
    compare_str_num_value str1 str2 prior_to desc result
compare_value readers double desc str1 str2 result =
    compare_str_num_value str1 str2 prior_to desc result
compare_value readers date desc str1 str2 result =
    unfailing (compare_date readers str1 str2 prior_to result desc)
compare_value readers time desc str1 str2 result =
    unfailing (compare_time readers str1 str2 prior_to result desc)
compare_value readers year desc str1 str2 result =
    unfailing (compare_year readers str1 str2 prior_to result desc)
compare_value readers type desc str1 str2 result = (true, result, false)

abbrev pub with_both :
    {A : Type 0} → Option (List ℕ) → Option (List ℕ) → (List ℕ → List ℕ → A) → Option A
with_both (some str1) (some str2) f = some (f str1 str2)
with_both none str2 f = none
with_both (some str1) none f = none

-- `none` is that an assertion fails.
unfoldable pub compare_value_from_records :
    TimeReaders → List ℕ → List ℕ → OrderBy → FieldType → ℤ → Option (Bool × ℤ × Bool)
compare_value_from_records readers row1 row2 ob type result =
    with_both (column ob.pos row1) (column ob.pos row2)
      (λ str1 str2. compare_value readers type ob.desc str1 str2 result)
