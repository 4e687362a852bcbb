-- ===== src/Common/Bits.antt =====
-- Laws of the native bit operations at variables.
use Prim.Native.Nat.{max, bit_or, bit_or-bitwise, digits}
use native.Mathlib.Nat.{pow-succ'}
use elastos_ela_side_chain.Common.{
  ℕ, zero, suc, ◌+◌, ◌*◌, ◌/◌, ◌%◌, ◌^◌, ◌≤◌, ◌<◌, ◌≡◌, refl, ◌∙◌, ap, arith,
}

abbrev or_digits : ℕ → ℕ → ℕ → ℕ
or_digits n a b = digits (λ b. b) max n a b

or_digits_fuel : (n m a b : ℕ) → a ≤ n → a ≤ m → or_digits n a b ≡ or_digits m a b
or_digits_fuel zero zero a b p q = refl
or_digits_fuel zero (suc m) zero b p q = refl
or_digits_fuel zero (suc m) (suc a) b p q = absurd (omega arith)
or_digits_fuel (suc n) zero zero b p q = refl
or_digits_fuel (suc n) zero (suc a) b p q = absurd (omega arith)
or_digits_fuel (suc n) (suc m) zero b p q = refl
or_digits_fuel (suc n) (suc m) (suc a) b p q =
    omega (arith, or_digits_fuel n m (suc a / 2) (b / 2) (omega arith) (omega arith))

pub zero-bit_or : (b : ℕ) → bit_or 0 b ≡ b
zero-bit_or b = bit_or-bitwise 0 b

pub bit_or_step : (a b : ℕ) → bit_or a b ≡ bit_or (a / 2) (b / 2) * 2 + max (a % 2) (b % 2)
bit_or_step zero b = omega (arith, zero-bit_or b, zero-bit_or (b / 2))
bit_or_step (suc a) b = omega (
  arith,
  bit_or-bitwise (suc a) b,
  bit_or-bitwise (suc a / 2) (b / 2),
  or_digits_fuel a (suc a / 2) (suc a / 2) (b / 2) (omega arith) (omega arith),
)

bit_or-zero_fuel : (n a : ℕ) → a ≤ n → bit_or a 0 ≡ a
bit_or-zero_fuel n zero h = zero-bit_or 0
bit_or-zero_fuel zero (suc a) h = absurd (omega arith)
bit_or-zero_fuel (suc n) (suc a) h =
    omega (arith, bit_or_step (suc a) 0, bit_or-zero_fuel n (suc a / 2) (omega arith))

pub bit_or-zero : (a : ℕ) → bit_or a 0 ≡ a
bit_or-zero a = bit_or-zero_fuel a a (omega arith)

-- One binary digit of a disjoint join.
bit_or-disjoint_step :
    (p a b : ℕ) → bit_or (a * p) (b / 2) ≡ a * p + b / 2 → bit_or (2 * (a * p)) b ≡ 2 * (a * p) + b
bit_or-disjoint_step p a b h = rw (bit_or_step, doubled, h) (omega arith)
  where
    doubled : 2 * (a * p) / 2 ≡ a * p
    doubled = omega arith

-- Two numbers that share no binary digit are joined by their sum.
pub bit_or-disjoint : (k a b : ℕ) → b < 2 ^ k → bit_or (a * 2 ^ k) b ≡ a * 2 ^ k + b
bit_or-disjoint zero a b h =
    let e : b ≡ 0 = omega arith in rw e (bit_or-zero (a * 2 ^ 0) ∙ omega arith)
bit_or-disjoint (suc k) a b h =
    let e : a * 2 ^ suc k ≡ 2 * (a * 2 ^ k) =
      omega (arith, ap (λ (t : ℕ). a * t) (pow-succ' 2 k)) in
    rw e (
      bit_or-disjoint_step (2 ^ k) a b (bit_or-disjoint k a (b / 2) (omega (arith, pow-succ' 2 k))))
