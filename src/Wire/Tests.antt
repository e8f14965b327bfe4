-- ===== src/Wire/Tests.antt =====
-- src/network-mysqld-proto.c: runs on small packets.
use cetus.Common.{◌<◌, ◌≤◌, ◌^◌, ◌+◌, ℕ, ◌≡◌, refl, arith, some, List, [], ◌∷◌, ◌++◌, length, ◌⊎◌}
use cetus.Wire.Packet.{Packet, ok, fail, IsValid}
use cetus.Wire.Decode.{get_lenenc_int, skip_lenenc_str}
use cetus.Wire.Strings.{get_lenenc_str, get_gstr}
use cetus.Wire.Encode.{append_lenenc_int, append_lenenc_str_len}
use cetus.Wire.Auth.{password_hash, password_scramble}
use cetus.Wire.Lenenc.{get_lenenc_int-append}
use cetus.Wire.Typed.{three, get_int, append_int, get_int-append}
use cetus.Wire.Text.{get_lenenc_str-append, get_gstr_lem}
use cetus.Wire.Login.{ServerAccepts, password_scramble-accepted}
use cetus.Wire.Bounds.{Advances, run, gstr, run-Advances, skip_lenenc_str_wraps}

-- 300 takes three bytes.
get_lenenc_int-append_example :
    get_lenenc_int (record { bytes = 7 ∷ 252 ∷ 44 ∷ 1 ∷ 9 ∷ []; offset = 1 })
    ≡ ok 300 (record { bytes = 7 ∷ 252 ∷ 44 ∷ 1 ∷ 9 ∷ []; offset = 4 })
unfolding append_lenenc_int
get_lenenc_int-append_example =
    get_lenenc_int-append (7 ∷ []) (9 ∷ []) 300 (omega arith) (omega arith)

get_lenenc_str-append_example :
    get_lenenc_str (record { bytes = 7 ∷ 2 ∷ 104 ∷ 105 ∷ 9 ∷ []; offset = 1 })
    ≡ ok (some (104 ∷ 105 ∷ []), 2) (record { bytes = 7 ∷ 2 ∷ 104 ∷ 105 ∷ 9 ∷ []; offset = 4 })
unfolding append_lenenc_str_len append_lenenc_int
get_lenenc_str-append_example =
    get_lenenc_str-append (7 ∷ []) (104 ∷ 105 ∷ []) (9 ∷ []) (omega arith) (omega arith)

-- The buffer that holds 5 keeps it.
get_gstr_lem_example :
    get_gstr (5 ∷ []) (record { bytes = 7 ∷ 0 ∷ 9 ∷ []; offset = 1 })
    ≡ ok (5 ∷ []) (record { bytes = 7 ∷ 0 ∷ 9 ∷ []; offset = 2 })
get_gstr_lem_example = get_gstr_lem (5 ∷ []) (7 ∷ []) [] (9 ∷ []) tt (omega arith)

abbrev digest_of : List ℕ → List ℕ
digest_of s =
    length s
    ∷ 1
    ∷ 2
    ∷ 3
    ∷ 4
    ∷ 5
    ∷ 6
    ∷ 7
    ∷ 8
    ∷ 9
    ∷ 10
    ∷ 11
    ∷ 12
    ∷ 13
    ∷ 14
    ∷ 15
    ∷ 16
    ∷ 17
    ∷ 18
    ∷ 19
    ∷ []

abbrev a_challenge : List ℕ
a_challenge =
    40 ∷ 41 ∷ 42 ∷ 43 ∷ 44 ∷ 45 ∷ 46 ∷ 47 ∷ 48 ∷ 49 ∷ 50 ∷ 51 ∷ 52 ∷ 53 ∷ 54 ∷ 55 ∷ 56 ∷ 57 ∷ 58
    ∷ 59 ∷ []

-- A challenge with its spacing byte.
password_scramble-accepted_example :
    (response : List ℕ) × (password_scramble digest_of
        (some (a_challenge ++ 0 ∷ []))
        (some (password_hash digest_of (112 ∷ 119 ∷ [])))
      ≡ some response)
    × ServerAccepts digest_of a_challenge (digest_of (digest_of (112 ∷ 119 ∷ []))) response
password_scramble-accepted_example =
    password_scramble-accepted digest_of (λ s. refl) a_challenge (0 ∷ []) (112 ∷ 119 ∷ []) refl
      (omega arith)

abbrev short_packet : Packet
short_packet = record { bytes = 104 ∷ 105 ∷ []; offset = 1 }

short_packet-IsValid : IsValid short_packet
short_packet-IsValid = record {
  fits = omega arith;
  within = omega arith;
  all_bytes = (omega arith, (omega arith, tt));
}

-- A string without its NUL.
run-Advances_example : Advances short_packet (run (gstr []) short_packet)
run-Advances_example = run-Advances (gstr []) short_packet short_packet-IsValid tt

abbrev huge_length : Packet
huge_length = record {
  bytes = 254 ∷ 255 ∷ 255 ∷ 255 ∷ 255 ∷ 255 ∷ 255 ∷ 255 ∷ 255 ∷ [];
  offset = 0;
}

huge_length-IsValid : IsValid huge_length
huge_length-IsValid = record {
  fits = omega arith;
  within = omega arith;
  all_bytes = (
    omega arith,
    (
      omega arith,
      (
        omega arith,
        (
          omega arith,
          (omega arith, (omega arith, (omega arith, (omega arith, (omega arith, tt))))),
        ),
      ),
    ),
  );
}

huge_length_read :
    get_lenenc_int huge_length ≡ ok 18446744073709551615 (record huge_length { offset = 9 })
unfolding get_lenenc_int
huge_length_read = refl

-- The offset 9 moves back to 8.
skip_lenenc_str_wraps_example :
    ((9 + 18446744073709551615 ≤ 9)
      × (skip_lenenc_str huge_length
          ≡ ok tt (record huge_length { offset = 9 + 18446744073709551615 })))
    ⊎ (((9 < 9 + 18446744073709551615)
          × (9 + 18446744073709551615 < 2 ^ 64)
          × (skip_lenenc_str huge_length ≡ fail (record huge_length { offset = 9 })))
        ⊎ ((2 ^ 64 ≤ 9 + 18446744073709551615)
            × (skip_lenenc_str huge_length ≡ ok tt (record huge_length { offset = 8 }))))
skip_lenenc_str_wraps_example =
    skip_lenenc_str_wraps huge_length (record huge_length { offset = 9 }) 18446744073709551615
      huge_length-IsValid huge_length_read (omega arith)

get_int-append_example :
    get_int three (record { bytes = append_int three [] 197121 ++ 9 ∷ []; offset = 0 })
    ≡ ok 197121 (record {
      bytes = append_int three [] 197121 ++ 9 ∷ [];
      offset = length (append_int three [] 197121);
    })
get_int-append_example = get_int-append three [] (9 ∷ []) 197121 (omega arith) (omega arith)
