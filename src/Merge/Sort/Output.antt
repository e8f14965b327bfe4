-- ===== src/Merge/Sort/Output.antt =====
-- What a round of do_sort_merge puts out: which rows go to the client, and what is counted.
use cetus.Common.{
  ℕ, suc, ◌%◌, ◌<◌, ◌≤◌, ◌≡◌, refl, ap, arith, ◌∙◌, Bool, true, false, ◌&&◌, not, Option, some,
  List, [], ◌∷◌, ◌++◌, append-nil, set, add32, ltb, leb, Bool-cases, ◌⊎◌, inl, inr,
}
use cetus.Merge.Sort.{is_end}
use cetus.Merge.Sort.Loop.{
  Output, row, part, MergeState, MergeParameters, top, top_element, send_part, send_row, put_out,
  advance_top, look_at, is_server,
}

-- The rows that are sent, whatever parts they are written in.
abbrev pub rows_of : List Output → List (List ℕ)
rows_of [] = []
rows_of (row packet ∷ output) = packet ∷ rows_of output
rows_of (part ∷ output) = rows_of output

-- The rows sent, and what counts towards LIMIT and as packets.
pub record Progress : Type 0 where
  pub sent : List (List ℕ)
  pub row_cnter : ℕ
  pub off_pos : ℕ
  pub pkt_count : ℕ

abbrev pub progress : MergeState → Progress
progress state = record {
  sent = rows_of state.output;
  row_cnter = state.row_cnter;
  off_pos = state.off_pos;
  pkt_count = state.pkt_count;
}

-- The row on top is equal to one that another server has sent.
abbrev pub is_repeated : MergeParameters → MergeState → Option ℕ → Bool
is_repeated parameters state last =
    parameters.is_distinct
    && (state.sort.heap.flags (top state)).is_dup
    && not (is_server last (top_element state).index)

-- What becomes of a row: it is left out, it counts towards OFFSET, or it is sent with the next number.
abbrev pub PutOut : MergeParameters → List ℕ → MergeState → Option ℕ → Progress → Option ℕ → Type 0
PutOut parameters packet state last after last' =
    ((is_repeated parameters state last ≡ true) × (after ≡ progress state) × (last' ≡ last))
    ⊎ (((is_repeated parameters state last ≡ false)
          × (state.off_pos < parameters.offset)
          × (after ≡ record (progress state) { off_pos = suc state.off_pos })
          × (last' ≡ last))
        ⊎ ((is_repeated parameters state last ≡ false)
            × (parameters.offset ≤ state.off_pos)
            × (after ≡ record {
              sent = rows_of state.output ++ set packet 3 (add32 state.pkt_count 1 % 256) ∷ [];
              row_cnter = suc state.row_cnter;
              off_pos = state.off_pos;
              pkt_count = add32 state.pkt_count 1;
            })
            × (last' ≡ some (top_element state).index)))

rows_of-append : (a b : List Output) → rows_of (a ++ b) ≡ rows_of a ++ rows_of b
rows_of-append [] b = refl
rows_of-append (row packet ∷ a) b = ap (◌∷◌ packet) (rows_of-append a b)
rows_of-append (part ∷ a) b = rows_of-append a b

same_progress :
    (state : MergeState) (output : List Output) (n : ℕ)
    → rows_of output ≡ rows_of state.output
    → progress (record state { output = output; aggr_output_len = n }) ≡ progress state
same_progress state output n e =
    ap
      (λ rows. record {
        sent = rows;
        row_cnter = state.row_cnter;
        off_pos = state.off_pos;
        pkt_count = state.pkt_count;
      })
      e

pub progress-send_part :
    (parameters : MergeParameters) (state : MergeState)
    → progress (send_part parameters state) ≡ progress state
unfolding send_part
progress-send_part parameters state =
    elim (Bool-cases (leb parameters.merged_output_size state.aggr_output_len)) [
      | inl full ↦ rw full (
          same_progress state (state.output ++ part ∷ []) 0
            (rows_of-append state.output (part ∷ []) ∙ append-nil (rows_of state.output)))
      | inr room ↦ rw room refl
    ]

pub progress-look_at :
    (item : List ℕ) (state : MergeState) → progress (look_at item state) ≡ progress state
unfolding look_at
progress-look_at item state = elim (Bool-cases (is_end item)) [
  | inl end ↦ rw end refl
  | inr going ↦ rw going refl
]

pub progress-advance_top :
    (rest : List (Option (List ℕ))) (state : MergeState)
    → progress (advance_top rest state) ≡ progress state
unfolding advance_top
progress-advance_top rest state = refl

sent_progress :
    (packet : List ℕ) (state : MergeState)
    → progress (send_row packet state) ≡ record {
      sent = rows_of state.output ++ set packet 3 (add32 state.pkt_count 1 % 256) ∷ [];
      row_cnter = suc state.row_cnter;
      off_pos = state.off_pos;
      pkt_count = add32 state.pkt_count 1;
    }
unfolding send_row
sent_progress packet state =
    ap
      (λ rows. record {
        sent = rows;
        row_cnter = suc state.row_cnter;
        off_pos = state.off_pos;
        pkt_count = add32 state.pkt_count 1;
      })
      (rows_of-append state.output (row (set packet 3 (add32 state.pkt_count 1 % 256)) ∷ []))

pub put_out-PutOut :
    (parameters : MergeParameters) (packet : List ℕ) (state : MergeState) (last : Option ℕ)
    → PutOut parameters packet state last
        (progress (put_out parameters packet state last).0)
        (put_out parameters packet state last).1
unfolding put_out
put_out-PutOut parameters packet state last =
    elim (Bool-cases (is_repeated parameters state last)) [
      | inl dup ↦ rw dup (inl (refl, refl, refl))
      | inr other ↦ elim (Bool-cases (ltb state.off_pos parameters.offset)) [
        | inl skipped ↦ rw (other, skipped) (inr (inl (refl, ground arith, refl, refl)))
        | inr sent ↦
            rw (other, sent)
              (inr (
                inr (
                  refl,
                  ground arith,
                  progress-send_part parameters (send_row packet state)
                      ∙ sent_progress packet state,
                  refl,
                )))
      ]
    ]

-- The heap, the candidates and the cache are as before.
pub send_part-same :
    (parameters : MergeParameters) (state : MergeState)
    → ((send_part parameters state).sort ≡ state.sort)
      × ((send_part parameters state).candidates ≡ state.candidates)
      × ((send_part parameters state).field_offsets_cache ≡ state.field_offsets_cache)
unfolding send_part
send_part-same parameters state =
    elim (Bool-cases (leb parameters.merged_output_size state.aggr_output_len)) [
      | inl full ↦ rw full (refl, refl, refl)
      | inr room ↦ rw room (refl, refl, refl)
    ]

pub put_out-same :
    (parameters : MergeParameters) (packet : List ℕ) (state : MergeState) (index : Option ℕ)
    → ((put_out parameters packet state index).0.sort ≡ state.sort)
      × ((put_out parameters packet state index).0.candidates ≡ state.candidates)
      × ((put_out parameters packet state index).0.field_offsets_cache ≡ state.field_offsets_cache)
unfolding put_out send_row
put_out-same parameters packet state index =
    elim (Bool-cases (
      parameters.is_distinct
      && (state.sort.heap.flags (top state)).is_dup
      && not (is_server index (top_element state).index))) [
        | inl dup ↦ rw dup (refl, refl, refl)
        | inr other ↦ elim (Bool-cases (ltb state.off_pos parameters.offset)) [
          | inl skipped ↦ rw (other, skipped) (refl, refl, refl)
          | inr sent ↦ rw (other, sent) (send_part-same parameters (send_row packet state))
        ]
      ]
