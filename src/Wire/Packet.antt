-- ===== src/Wire/Packet.antt =====
-- src/network-mysqld-proto.h: `network_packet`, a byte string with a read position, and what a call
-- that reads from one leaves behind.
use cetus.Common.{
  ◌+◌, ℕ, ◌^◌, ◌<◌, ◌≤◌, Bool, true, false, List, length, All, get_or, IsByte, add32, ◌≡◌,
}

-- `data` is a GString, whose `str[len]` is a NUL; `offset` is a guint.
pub record Packet : Type 0 where
  pub bytes : List ℕ
  pub offset : ℕ

abbrev pub len : Packet → ℕ
len p = length p.bytes

-- A byte of the string; at `len` it is the terminator.
abbrev pub byte_at : Packet → ℕ → ℕ
byte_at p i = get_or p.bytes i 0

-- `fail` is the return value -1, with the packet as the call leaves it. `fault` is a call that does
-- not return: an assertion that fails, or an access that C leaves undefined.
pub data Outcome (A : Type 0) : Type 0 where
  ok : A → Packet → Outcome A
  fail : Packet → Outcome A
  fault : Outcome A

abbrev pub M : Type 0 → Type 0
M A = Packet → Outcome A

infixl 5 ◌>>=◌ ◌>>◌
abbrev pub ◌>>=◌ : {A B : Type 0} → M A → (A → M B) → M B
◌>>=◌ m f p = elim (m p) [ ok a q ↦ f a q | fail q ↦ fail q | fault ↦ fault ]

abbrev pub ◌>>◌ : {A B : Type 0} → M A → M B → M B
◌>>◌ m k = m >>= λ _. k

abbrev pub return : {A : Type 0} → A → M A
return a p = ok a p

abbrev pub pass_or_fail : Bool → M (Unit {0})
pass_or_fail true p = ok tt p
pass_or_fail false p = fail p

-- `if (!test) return -1;`
abbrev pub check : (Packet → Bool) → M (Unit {0})
check test p = pass_or_fail (test p) p

-- `g_assert (test);`
abbrev pub assert : Bool → M (Unit {0})
assert true p = ok tt p
assert false p = fault

-- `packet->offset += n;`
abbrev pub advance : ℕ → M (Unit {0})
advance n p = ok tt (record p { offset = add32 p.offset n })

-- A packet whose offset is not past its end, and short enough that no test on the nine bytes of a
-- length-encoded integer wraps around in the 32-bit offset.
pub record IsValid (p : Packet) : Type 0 where
  pub fits : len p + 9 < 2 ^ 32
  pub within : p.offset ≤ len p
  pub all_bytes : All IsByte p.bytes

-- Stepping through a `do` block whose next action is known.
pub >>=-ok :
    {A B : Type 0} (m : M A) (f : A → M B) (p : Packet) {a : A} {q : Packet}
    → m p ≡ ok a q
    → (m >>= f) p ≡ f a q
>>=-ok m f p e = rw (e, ◌>>=◌)

pub >>=-fail :
    {A B : Type 0} (m : M A) (f : A → M B) (p : Packet) {q : Packet}
    → m p ≡ fail q
    → (m >>= f) p ≡ fail q
>>=-fail m f p e = rw (e, ◌>>=◌)
