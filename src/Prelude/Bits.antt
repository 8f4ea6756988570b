-- ===== src/Prelude/Bits.antt =====
-- `^` and `|` on native numbers, as far as a comparison by accumulated differences needs them:
-- `x ^ y` is 0 exactly when `x` and `y` are equal, and `a | b` exactly when both are.
use Prim.Native.Nat.{
  ℕ, zero, suc, ◌/◌, ◌%◌, ◌^◌, ◌≤◌, ◌<◌, max, bit_or, bit_xor, digits, differ, bit_or-bitwise,
  bit_xor-bitwise,
}
use mathlib.Core.Path.{◌≡◌, refl, ◌∙◌, sym, subst}
use native.Mathlib.Nat.{pow-suc}
use native.Mathlib.Omega.{arith}

differ-eq : (x y : ℕ) → differ x y ≡ 0 → x ≡ y
differ-eq zero y h = omega arith
differ-eq (suc x) zero h = absurd (omega arith)
differ-eq (suc x) (suc y) h = omega (arith, differ-eq x y h)

differ_self : (x : ℕ) → differ x x ≡ 0
differ_self zero = refl
differ_self (suc x) = differ_self x

xor_digits-eq : (n a b : ℕ) → a ≤ n → digits (λ y. y) differ n a b ≡ 0 → a ≡ b
xor_digits-eq zero zero b p h = omega arith
xor_digits-eq zero (suc a) b p h = absurd (omega arith)
xor_digits-eq (suc n) zero b p h = omega arith
xor_digits-eq (suc n) (suc a) b p h = omega (
  arith,
  xor_digits-eq n (suc a / 2) (b / 2) (omega arith) (omega arith),
  differ-eq (suc a % 2) (b % 2) (omega arith),
)

xor_digits_self : (n a : ℕ) → a ≤ n → digits (λ y. y) differ n a a ≡ 0
xor_digits_self zero a p = omega arith
xor_digits_self (suc n) zero p = refl
xor_digits_self (suc n) (suc a) p =
    omega (arith, xor_digits_self n (suc a / 2) (omega arith), differ_self (suc a % 2))

or_digits-zero : (n a b : ℕ) → a ≤ n → digits (λ y. y) max n a b ≡ 0 → (a ≡ 0) × (b ≡ 0)
or_digits-zero zero zero b p h = omega arith
or_digits-zero zero (suc a) b p h = absurd (omega arith)
or_digits-zero (suc n) zero b p h = omega arith
or_digits-zero (suc n) (suc a) b p h =
    omega (arith, or_digits-zero n (suc a / 2) (b / 2) (omega arith) (omega arith))

pub bit_xor-eq : (a b : ℕ) → bit_xor a b ≡ 0 → a ≡ b
bit_xor-eq a b h = xor_digits-eq a a b (omega arith) (sym (bit_xor-bitwise a b) ∙ h)

pub bit_xor_self : (a : ℕ) → bit_xor a a ≡ 0
bit_xor_self a = bit_xor-bitwise a a ∙ xor_digits_self a a (omega arith)

pub bit_or-zero : (a b : ℕ) → bit_or a b ≡ 0 → (a ≡ 0) × (b ≡ 0)
bit_or-zero a b h = or_digits-zero a a b (omega arith) (sym (bit_or-bitwise a b) ∙ h)

differ-le : (x y : ℕ) → differ x y ≤ max x y
differ-le zero y = omega arith
differ-le (suc x) zero = omega arith
differ-le (suc x) (suc y) = omega (arith, differ-le x y)

xor_digits-lt : (k n a b : ℕ) → a ≤ n → a < 2 ^ k → b < 2 ^ k → digits (λ y. y) differ n a b < 2 ^ k
xor_digits-lt k zero a b p ha hb = hb
xor_digits-lt k (suc n) zero b p ha hb = hb
xor_digits-lt zero (suc n) (suc a) b p ha hb = absurd (omega arith)
xor_digits-lt (suc k) (suc n) (suc a) b p ha hb = omega (
  arith,
  pow-suc 2 k,
  xor_digits-lt k n (suc a / 2) (b / 2) (omega arith) (omega (arith, pow-suc 2 k))
      (omega (arith, pow-suc 2 k)),
  differ-le (suc a % 2) (b % 2),
)

-- `^` stays within the bits of its arguments.
pub bit_xor-lt : (k a b : ℕ) → a < 2 ^ k → b < 2 ^ k → bit_xor a b < 2 ^ k
bit_xor-lt k a b ha hb =
    subst (λ x. x < 2 ^ k) (sym (bit_xor-bitwise a b)) (xor_digits-lt k a a b (omega arith) ha hb)
