-- ===== src/Common/Words.antt =====
-- Machine words as native numbers: wrap-around by `%`, shifts by `/` and `*`, and `|` of words whose
-- bits do not meet, as a sum.
use Prim.Native.Nat.{ℕ, zero, suc, ◌+◌, ◌*◌, ◌/◌, ◌%◌, ◌^◌, ◌≤◌, ◌<◌, max}
use Prim.Native.Nat.{bit_or, bit_xor, digits, bit_or-bitwise, bit_xor-bitwise, differ}
use mathlib.Core.Path.{◌≡◌, refl, ap}
use native.Mathlib.Omega.{arith}
use native.Mathlib.Nat.{pow-suc}

-- Unsigned additions of C in 32 and in 64 bits.
abbrev pub add32 : ℕ → ℕ → ℕ
add32 a b = (a + b) % 2 ^ 32

abbrev pub add64 : ℕ → ℕ → ℕ
add64 a b = (a + b) % 2 ^ 64

abbrev pub shl32 : ℕ → ℕ → ℕ
shl32 x k = x * 2 ^ k % 2 ^ 32

abbrev pub IsByte : ℕ → Type 0
IsByte b = b < 256

-- `(x >> k) & 0xff`.
abbrev pub byte_of : ℕ → ℕ → ℕ
byte_of x k = x / 2 ^ k % 256

-- Both operations, as a recursion on the digits of the first operand.
module _ (f : ℕ → ℕ → ℕ) where
  joined : ℕ → ℕ → ℕ → ℕ
  joined n a b = digits (λ y. y) f n a b

  -- Fuel beyond the first operand changes nothing.
  joined_enough : (n m a b : ℕ) → a ≤ n → a ≤ m → joined n a b ≡ joined m a b
  unfolding joined
  joined_enough zero zero a b p q = refl
  joined_enough zero (suc m) zero b p q = refl
  joined_enough zero (suc m) (suc a) b p q = elim p [ ]
  joined_enough (suc n) zero zero b p q = refl
  joined_enough (suc n) zero (suc a) b p q = elim q [ ]
  joined_enough (suc n) (suc m) zero b p q = refl
  joined_enough (suc n) (suc m) (suc a) b p q =
      rw (joined_enough n m (suc a / 2) (b / 2) (omega arith) (omega arith))

pub zero-bit_or : (b : ℕ) → bit_or 0 b ≡ b
zero-bit_or b = bit_or-bitwise 0 b

-- The lowest binary digit of `|`.
bit_or_digit : (a b : ℕ) → bit_or a b ≡ bit_or (a / 2) (b / 2) * 2 + max (a % 2) (b % 2)
unfolding joined
bit_or_digit zero b = omega (arith, zero-bit_or b, zero-bit_or (b / 2))
bit_or_digit (suc a) b = omega (
  arith,
  bit_or-bitwise (suc a) b,
  bit_or-bitwise (suc a / 2) (b / 2),
  joined_enough max a (suc a / 2) (suc a / 2) (b / 2) (omega arith) (omega arith),
)

-- Operands whose bits do not meet are added.
pub bit_or_disjoint : (k a b : ℕ) → a < 2 ^ k → bit_or a (b * 2 ^ k) ≡ a + b * 2 ^ k
bit_or_disjoint zero a b h =
    let none_set : a ≡ 0 = omega arith in rw (none_set, zero-bit_or) (omega arith)
bit_or_disjoint (suc k) a b h = omega (
  arith,
  double_pow k,
  ap (◌*◌ b) (double_pow k),
  halve_product k b,
  bit_or_digit a (b * 2 ^ suc k),
  ap (bit_or (a / 2)) (halve_product k b),
  bit_or_disjoint k (a / 2) b (omega (arith, double_pow k)),
)
  where
    double_pow : (n : ℕ) → 2 ^ suc n ≡ 2 ^ n * 2
    double_pow n = pow-suc 2 n

    halve_product : (n c : ℕ) → c * 2 ^ suc n / 2 ≡ c * 2 ^ n
    halve_product n c = rw pow-suc (omega arith)

bit_or_comm_below : (n a b : ℕ) → a ≤ n → b ≤ n → bit_or a b ≡ bit_or b a
bit_or_comm_below zero zero zero p q = refl
bit_or_comm_below zero zero (suc b) p q = elim q [ ]
bit_or_comm_below zero (suc a) b p q = elim p [ ]
bit_or_comm_below (suc n) a b p q = omega (
  arith,
  bit_or_digit a b,
  bit_or_digit b a,
  bit_or_comm_below n (a / 2) (b / 2) (omega arith) (omega arith),
)

pub bit_or_comm : (a b : ℕ) → bit_or a b ≡ bit_or b a
bit_or_comm a b = bit_or_comm_below (a + b) a b (omega arith) (omega arith)

bit_xor_digit : (a b : ℕ) → bit_xor a b ≡ bit_xor (a / 2) (b / 2) * 2 + differ (a % 2) (b % 2)
unfolding joined
bit_xor_digit zero b = omega (arith, bit_xor-bitwise 0 b, bit_xor-bitwise 0 (b / 2))
bit_xor_digit (suc a) b = omega (
  arith,
  bit_xor-bitwise (suc a) b,
  bit_xor-bitwise (suc a / 2) (b / 2),
  joined_enough differ a (suc a / 2) (suc a / 2) (b / 2) (omega arith) (omega arith),
)

differ_digit : (x y : ℕ) → x < 2 → y < 2 → (differ x y < 2) × (differ x (differ x y) ≡ y)
differ_digit zero y p q = (q, refl)
differ_digit (suc zero) zero p q = omega arith
differ_digit (suc zero) (suc zero) p q = omega arith
differ_digit (suc zero) (suc (suc y)) p q = absurd (omega arith)
differ_digit (suc (suc x)) y p q = absurd (omega arith)

-- A second `^` with the same operand undoes the first.
bit_xor_undo_below : (n a b : ℕ) → a ≤ n → b ≤ n → bit_xor a (bit_xor a b) ≡ b
bit_xor_undo_below zero zero zero p q = refl
bit_xor_undo_below zero zero (suc b) p q = elim q [ ]
bit_xor_undo_below zero (suc a) b p q = elim p [ ]
bit_xor_undo_below (suc n) a b p q =
    let digit = differ_digit (a % 2) (b % 2) (omega arith) (omega arith) in
    let high : bit_xor a b / 2 ≡ bit_xor (a / 2) (b / 2) =
      omega (arith, bit_xor_digit a b, digit.0) in
    let low : bit_xor a b % 2 ≡ differ (a % 2) (b % 2) =
      omega (arith, bit_xor_digit a b, digit.0) in
    omega (
      arith,
      bit_xor_digit a (bit_xor a b),
      ap (bit_xor (a / 2)) high,
      ap (differ (a % 2)) low,
      digit.1,
      bit_xor_undo_below n (a / 2) (b / 2) (omega arith) (omega arith),
    )

pub bit_xor_undo : (a b : ℕ) → bit_xor a (bit_xor a b) ≡ b
bit_xor_undo a b = bit_xor_undo_below (a + b) a b (omega arith) (omega arith)
