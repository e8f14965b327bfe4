-- ===== src/Wire/Strings.antt =====
-- src/network-mysqld-proto.c: the functions that read strings from a packet.
use cetus.Common.{
  ℕ, suc, ◌+◌, Option, none, some, List, [], ◌∷◌, ◌++◌, take, drop, add64, ltb, leb, ◌==◌,
  if◌then◌else◌, not,
}
use cetus.Wire.Packet.{
  Packet, fail, fault, M, ◌>>=◌, ◌>>◌, return, check, assert, advance, len, byte_at,
}
use cetus.Wire.Decode.{packet_len_max, get_lenenc_int, skip}

-- What `memcpy (…, packet->data->str + packet->offset, n)` copies.
abbrev pub here : ℕ → Packet → List ℕ
here n p = take n (drop p.offset p.bytes)

-- The two tests on `offset` and `offset + n`, the copy, and `packet->offset += n`.
abbrev pub read_bytes : ℕ → M (List ℕ)
read_bytes n = do
  check (λ p. leb p.offset (len p))
  check (λ p. leb (add64 p.offset n) (len p))
  λ p. (advance n >> return (here n p)) p

-- `none` is the pointer NULL, which a length of 0 gives.
unfoldable pub get_str_len : ℕ → M (Option (List ℕ))
get_str_len n = if n == 0 then return none else do str ← read_bytes n; return (some str)

-- What is written into the buffer `s`: nothing if the length is 0, else the bytes and a NUL.
unfoldable pub get_str_len2 : ℕ → M (List ℕ)
get_str_len2 n = if n == 0 then return [] else do str ← read_bytes n; return (str ++ 0 ∷ [])

-- The string with its length, which is `*_len`.
unfoldable pub get_lenenc_str : M (Option (List ℕ) × ℕ)
get_lenenc_str = do
  check (λ p. ltb p.offset (len p))
  n ← get_lenenc_int
  check (λ _. leb n packet_len_max)
  check (λ p. leb (add64 p.offset n) (len p))
  s ← get_str_len n
  return (s, n)

-- `s_size` is the size of the buffer.
unfoldable pub get_column : ℕ → M (List ℕ)
get_column s_size = do
  n ← get_lenenc_int
  check (λ _. ltb n s_size)
  check (λ p. leb (add64 p.offset n) (len p))
  get_str_len2 n

-- The loop that looks for a NUL or the end of the packet.
unfoldable pub scan : List ℕ → ℕ
scan [] = 0
scan (b ∷ bs) = if b == 0 then 0 else suc (scan bs)

abbrev pub scan_here : Packet → ℕ
scan_here p = scan (drop p.offset p.bytes)

-- `none`: `*s` is not written. Behind the end of the packet, past the GString's terminator, the
-- read of `str[offset]` is undefined.
unfoldable pub get_string : M (Option (List ℕ))
get_string p =
    let n = scan_here p in
    if ltb (len p) p.offset
    then fault
    else (do
      check (λ q. byte_at q (q.offset + n) == 0)
      s ← if n == 0 then return none else get_str_len n
      skip 1
      return s)
        p

-- `out` is the GString's content, `none` a NULL pointer. After a failure `*out` is the empty string.
unfoldable pub get_gstr_len : ℕ → Option (List ℕ) → M (List ℕ)
get_gstr_len n none = fail
get_gstr_len n (some out) = if n == 0 then return [] else do
  check (λ p. ltb p.offset (len p))
  check (λ p. leb (add64 p.offset n) (len p))
  λ p. (advance n >> return (here n p)) p

-- An empty string leaves the old content `out` in place.
unfoldable pub get_gstr : List ℕ → M (List ℕ)
get_gstr out p =
    let n = scan_here p in
    (do
      check (λ q. not (q.offset + n == len q))
      s ←
          if n == 0
          then return out
          else (assert (ltb p.offset (len p))
              >> (assert (leb (p.offset + n) (len p)) >> get_gstr_len n (some out)))
      skip 1
      return s)
      p
