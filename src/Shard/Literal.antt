-- ===== src/Shard/Literal.antt =====
-- plugins/shard/sharding-parser.c, expr_parse_sharding_value: what it reads is the value of the constant.
use cetus.Common.{
  ℕ, zero, suc, ◌≡◌, refl, sym, ap, ◌∙◌, arith, Bool, true, false, ◌&&◌, not, Option, none, some,
  List, length, ◌==◌, ltb, leb, if◌then◌else◌,
}
use cetus.Common.Int.{ℤ, pos, negsuc, neg}
use cetus.Shard.Partition.{ShardKeyType, int, str, date, datetime, unsupported}
use cetus.Shard.Condition.{Value}
use cetus.Shard.Filter.{
  Readers, Parsed, ok, unrecognized, error, stuck, Operand, integer, uminus, uplus, string,
  compound, token, date_time, date_only, get_int, low_word, int_of_word, to_int,
  chassis_epoch_from_string, string_to_sharding_value, expr_parse_sharding_value, parse_int,
  parse_epoch, is_int, epoch_value, parse_number_or, num_value, str_value, parse_other,
}
use cetus.Shard.Rows.{
  FitsInt, opposite, map_number, number_of, as_num, whole_number, at_time, time_of, or_else,
  literal, TimeFits,
}

to_int_fits : (n : ℤ) → FitsInt n → to_int n ≡ n
unfolding low_word int_of_word
to_int_fits (pos n) h = ground arith
to_int_fits (negsuc n) h = ground arith

opposite-neg : (n : ℤ) → neg n ≡ opposite n
unfolding neg
opposite-neg (pos zero) = refl
opposite-neg (pos (suc n)) = ground arith
opposite-neg (negsuc n) = ground arith

get_int_number : (p : Operand) → get_int p ≡ number_of p
unfolding get_int
get_int_number (integer n) = refl
get_int_number (uminus p) = rw (get_int_number p) (signed (number_of p))
  where
    signed :
        (r : Option ℤ)
        → elim r as (λ _. Option ℤ) [ none ↦ none | some n ↦ some (neg n) ] ≡ map_number opposite r
    signed none = refl
    signed (some n) = ap some (opposite-neg n)
get_int_number (uplus p) = get_int_number p
get_int_number (string s) = refl
get_int_number compound = refl
get_int_number token = refl

module _ (readers : Readers) where
  -- An error is no value.
  abbrev Reads : Parsed Value → Option Value → Type 0
  Reads r l = (v : Value) → r ≡ ok v → l ≡ some v

  ok_inj : (a v : Value) → ok a ≡ ok v → some a ≡ some v
  ok_inj a v e = ap (λ r. elim r as (λ _. Option Value) [ ok x ↦ some x | _ ↦ none ]) e

  not_error : (v : Value) {A : Type 0} → error ≡ ok v → A
  not_error v e = cc

  not_unrecognized : (v : Value) {A : Type 0} → unrecognized ≡ ok v → A
  not_unrecognized v e = cc

  -- The three tests on what strtoll has read.
  accepted :
      (range_error unread short : Bool) (n : ℤ)
      → Reads
          (if range_error
            then error
            else if unread
            then error
            else if short
            then error
            else ok (num_value n))
          (as_num (if not range_error && not unread && not short then some n else none))
  accepted true unread short n v e = not_error v e
  accepted false true short n v e = not_error v e
  accepted false false true n v e = not_error v e
  accepted false false false n v e = ok_inj (num_value n) v e

  not_short : (a b : ℕ) → leb b a ≡ not (ltb a b)
  not_short a b = ground arith

  parse_int_lem : (s : List ℕ) → Reads (parse_int readers s) (as_num (whole_number readers s))
  parse_int_lem s v e =
      let r = readers.strtoll s in
      rw (not_short r.1 (length s)) (accepted r.2 (r.1 == 0) (ltb r.1 (length s)) r.0 v e)

  TimeIs : Option ℤ → Type 0
  TimeIs t = (n : ℤ) → t ≡ some n → FitsInt n

  epoch_lem :
      (s : List ℕ)
      → TimeIs (time_of readers s)
      → chassis_epoch_from_string readers s ≡ time_of readers s
  unfolding chassis_epoch_from_string TimeIs
  epoch_lem s fits = either (readers.strptime date_time s) (readers.strptime date_only s) fits
    where
      either :
          (t d : Option (List ℤ))
          → ((n : ℤ) → or_else (at_time readers t) (at_time readers d) ≡ some n → FitsInt n)
          → elim t as (λ _. Option ℤ) [
            | some t ↦ some (to_int (readers.mktime t))
            | none ↦ elim d as (λ _. Option ℤ) [
              | some d ↦ some (to_int (readers.mktime d))
              | none ↦ none
            ]
          ]
            ≡ or_else (at_time readers t) (at_time readers d)
      either (some t) d h = ap some (to_int_fits (readers.mktime t) (h _ refl))
      either none (some d) h = ap some (to_int_fits (readers.mktime d) (h _ refl))
      either none none h = refl

  parse_epoch_lem :
      (s : List ℕ)
      → TimeIs (time_of readers s)
      → Reads (parse_epoch readers s) (as_num (time_of readers s))
  parse_epoch_lem s fits v e =
      read (time_of readers s) (ap (epoch_value readers) (sym (epoch_lem s fits)) ∙ e)
    where
      read : (t : Option ℤ) → epoch_value readers t ≡ ok v → as_num t ≡ some v
      read none h = not_error v h
      read (some n) h = ok_inj (num_value n) v h

  time_fits : (t : Option ℤ) → ((v : Value) → as_num t ≡ some v → FitsInt v.num) → TimeIs t
  unfolding TimeIs
  time_fits t h n e = h (num_value n) (ap as_num e)

  fails : Parsed Value → Bool
  fails (ok v) = false
  fails r = true

  fails_lem : (r : Parsed Value) (v : Value) → fails r ≡ true → r ≡ ok v → ⊥
  unfolding fails
  fails_lem (ok w) v h e = cc
  fails_lem unrecognized v h e = not_unrecognized v e
  fails_lem error v h e = not_error v e
  fails_lem stuck v h e = cc

  from_number :
      (t : Option ℤ) (p : Operand)
      → fails (parse_other readers p int) ≡ true
      → Reads (parse_number_or readers t p int) (as_num t)
  from_number none p h v e = absurd (fails_lem (parse_other readers p int) v h e)
  from_number (some n) p h v e = ok_inj (num_value n) v e

  no_value :
      (t : Option ℤ) (p : Operand) (key_type : ShardKeyType) (v : Value)
      → is_int readers key_type ≡ false
      → fails (parse_other readers p key_type) ≡ true
      → parse_number_or readers t p key_type ≡ ok v
      → ⊥
  no_value none p key_type v no_int h e = fails_lem (parse_other readers p key_type) v h e
  no_value (some n) p key_type v no_int h e =
      fails_lem (parse_other readers p key_type) v h (rw no_int at e)

  -- The value that is read of an operand, if any, is what the constant stands for.
  pub expr_parse_sharding_value_lem :
      (p : Operand) (key_type : ShardKeyType)
      → TimeFits readers key_type p
      → (v : Value) → expr_parse_sharding_value readers p key_type ≡ ok v
      → literal readers key_type p ≡ some v
  unfolding expr_parse_sharding_value string_to_sharding_value literal get_int fails
  expr_parse_sharding_value_lem (string s) int fits v e = parse_int_lem s v e
  expr_parse_sharding_value_lem (string s) str fits v e = ok_inj (str_value s) v e
  expr_parse_sharding_value_lem (string s) date fits v e =
      parse_epoch_lem s (time_fits (time_of readers s) (λ w. fits w refl)) v e
  expr_parse_sharding_value_lem (string s) datetime fits v e =
      parse_epoch_lem s (time_fits (time_of readers s) (λ w. fits w refl)) v e
  expr_parse_sharding_value_lem (string s) unsupported fits v e = not_error v e
  expr_parse_sharding_value_lem p int fits v e =
      ap as_num (sym (get_int_number p)) ∙ from_number (get_int p) p refl v e
  expr_parse_sharding_value_lem p key_type fits v e =
      absurd (no_value (get_int p) p key_type v refl refl e)
