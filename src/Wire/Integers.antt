-- ===== src/Wire/Integers.antt =====
-- src/network-mysqld-proto.c: whatever the bytes are, an integer that is read fits its width.
use cetus.Common.{ℕ, zero, suc, ◌+◌, ◌*◌, ◌/◌, ◌^◌, ◌<◌, ◌≤◌, ◌≡◌, arith, All-get_or, IsByte}
use native.Mathlib.Nat.{pow-suc}
use cetus.Wire.Packet.{Packet, ok, len, byte_at, IsValid}
use cetus.Wire.Decode.{peek_int_len, get_int_len}
use cetus.Wire.Fixed.{Spells, peek_value, get_value}

byte_small : (p : Packet) (i : ℕ) → IsValid p → byte_at p i < 256
byte_small p i v = All-get_or IsByte 0 p.bytes i (omega arith) v.all_bytes

spelled : (p : Packet) (i n : ℕ) → IsValid p → (v : ℕ) × (v < 256 ^ n) × Spells p i n v
spelled p i zero valid = (0, omega arith, tt)
spelled p i (suc n) valid =
    let (v, small, sp) = spelled p (i + 1) n valid in
    let b = byte_small p i valid in
    let rest : (byte_at p i + v * 256) / 256 ≡ v = omega arith in
    (byte_at p i + v * 256, omega (arith, pow-suc 256 n), (omega arith, rw rest sp))

-- The bytes at the offset, as an integer that both calls give.
pub int_there :
    (p : Packet) (size : ℕ)
    → IsValid p
    → size ≤ 8
    → p.offset + size ≤ len p
    → (v : ℕ) × (v < 256 ^ size)
      × (peek_int_len size p ≡ ok v p)
      × (get_int_len size p ≡ ok v (record p { offset = p.offset + size }))
int_there p size valid h within =
    let (v, small, sp) = spelled p p.offset size valid in
    (
      v,
      small,
      peek_value p size v (omega (arith, valid.fits)) within h small sp,
      get_value p size v (omega (arith, valid.fits)) within h small sp,
    )
