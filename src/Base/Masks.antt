-- ===== src/Base/Masks.antt =====
-- Bits of numbers: `x & (2 ^ k - 1)` as a remainder, and when `x & (x - 1)` is zero.
use Prim.Native.Nat.{
  ℕ, zero, suc, ◌+◌, ◌-◌, ◌*◌, ◌/◌, ◌%◌, ◌^◌, ◌≤◌, ◌<◌, ◌∣◌, min, bit_and, digits, bit_and-bitwise,
}
use mathlib.Core.Path.{◌≡◌, refl, sym, ap, ◌∙◌, subst}
use mathlib.Core.Logic.{◌⊎◌, inl, inr}
use native.Mathlib.Nat.{
  mod-eq_of_lt, add-mul-mod_self_left, mod-lt, mod-add-div, one-le-pow, pow-suc, dvd_refl,
  dvd-mul_right_of_dvd, pow-le-pow_right, suc-add,
}
use native.Mathlib.Omega.{arith}

abbrev masked : ℕ → ℕ → ℕ → ℕ
masked fuel a b = digits (λ _. zero) min fuel a b

masked_enough : (f g a b : ℕ) → a ≤ f → a ≤ g → masked f a b ≡ masked g a b
masked_enough zero zero a b h k = refl
masked_enough zero (suc g) zero b h k = refl
masked_enough zero (suc g) (suc a) b h k = absurd (omega arith)
masked_enough (suc f) zero zero b h k = refl
masked_enough (suc f) zero (suc a) b h k = absurd (omega arith)
masked_enough (suc f) (suc g) zero b h k = refl
masked_enough (suc f) (suc g) (suc a) b h k =
    omega (arith, masked_enough f g (suc a / 2) (b / 2) (omega arith) (omega arith))

bit_and_none : (b : ℕ) → bit_and 0 b ≡ 0
bit_and_none b = bit_and-bitwise 0 b

-- The lowest bit, and the others.
pub bit_and_halves : (a b : ℕ) → bit_and a b ≡ bit_and (a / 2) (b / 2) * 2 + min (a % 2) (b % 2)
bit_and_halves zero b = omega (arith, bit_and_none b, bit_and_none (b / 2))
bit_and_halves (suc a) b = omega (
  arith,
  bit_and-bitwise (suc a) b,
  bit_and-bitwise (suc a / 2) (b / 2),
  masked_enough a (suc a / 2) (suc a / 2) (b / 2) (omega arith) (omega arith),
)

double_mod : (x m : ℕ) → 0 < m → x / 2 % m * 2 + x % 2 ≡ x % (m * 2)
double_mod x m pos =
    let parts : x ≡ (x / 2 % m * 2 + x % 2) + (m * 2) * (x / 2 / m) =
      omega (arith, mod-add-div (x / 2) m) in
    let low : x / 2 % m * 2 + x % 2 < m * 2 = omega (arith, mod-lt (x / 2) pos) in
    sym (
      ap (λ y. y % (m * 2)) parts
      ∙ add-mul-mod_self_left (x / 2 % m * 2 + x % 2) (m * 2) (x / 2 / m)
      ∙ mod-eq_of_lt low)

pub power_pos : (k : ℕ) → 0 < 2 ^ k
power_pos k = one-le-pow k 2 (omega arith)

any_and-zero : (f x : ℕ) → x ≤ f → bit_and x 0 ≡ 0
any_and-zero zero zero h = bit_and_none 0
any_and-zero zero (suc x) h = absurd (omega arith)
any_and-zero (suc f) zero h = bit_and_none 0
any_and-zero (suc f) (suc x) h =
    omega (arith, bit_and_halves (suc x) 0, any_and-zero f (suc x / 2) (omega arith))

-- A mask of `k` ones.
pub bit_and_mask : (k x : ℕ) → bit_and x (2 ^ k - 1) ≡ x % 2 ^ k
bit_and_mask zero x = omega (arith, any_and-zero x x (omega arith))
bit_and_mask (suc k) x =
    let ones : (2 ^ suc k - 1) / 2 ≡ 2 ^ k - 1 = omega (arith, pow-suc 2 k, power_pos k) in
    let last : (2 ^ suc k - 1) % 2 ≡ 1 = omega (arith, pow-suc 2 k, power_pos k) in
    let twice : x / 2 % 2 ^ k * 2 + x % 2 ≡ x % 2 ^ suc k =
      double_mod x (2 ^ k) (power_pos k) ∙ ap (λ m. x % m) (sym (pow-suc 2 k)) in
    omega (
      arith,
      bit_and_halves x (2 ^ suc k - 1),
      ap (bit_and (x / 2)) ones,
      bit_and_mask k (x / 2),
      twice,
    )

bit_and_self : (f x : ℕ) → x ≤ f → bit_and x x ≡ x
bit_and_self zero zero h = bit_and_none 0
bit_and_self zero (suc x) h = absurd (omega arith)
bit_and_self (suc f) zero h = bit_and_none 0
bit_and_self (suc f) (suc x) h =
    omega (arith, bit_and_halves (suc x) (suc x), bit_and_self f (suc x / 2) (omega arith))

power_of_from : (f x : ℕ) → 0 < x → x ≤ f → bit_and x (x - 1) ≡ 0 → (k : ℕ) × (x ≡ 2 ^ k)
power_of_from zero x pos h e = absurd (omega arith)
power_of_from (suc f) x pos h e = elim (parity x) [
  | inl even ↦
      let half : (x - 1) / 2 ≡ x / 2 - 1 = omega arith in
      let none_left : bit_and (x / 2) (x / 2 - 1) ≡ 0 =
        omega (arith, bit_and_halves x (x - 1), ap (bit_and (x / 2)) half) in
      let (k, is) = power_of_from f (x / 2) (omega arith) (omega arith) none_left in
      (suc k, omega (arith, pow-suc 2 k))
  | inr odd ↦
      let half : (x - 1) / 2 ≡ x / 2 = omega arith in
      (
        0,
        omega (
          arith,
          bit_and_halves x (x - 1),
          ap (bit_and (x / 2)) half,
          bit_and_self (x / 2) (x / 2) (omega arith),
        ),
      )
]
  where
    parity : (y : ℕ) → (y % 2 ≡ 0) ⊎ (y % 2 ≡ 1)
    parity y = ground arith

-- The test for a power of two that C code writes as `(x & (x - 1)) == 0`.
pub power_of_two : (x : ℕ) → 0 < x → bit_and x (x - 1) ≡ 0 → (k : ℕ) × (x ≡ 2 ^ k)
power_of_two x pos e = power_of_from x x pos (omega arith) e

power-dvd_up : (j k : ℕ) → 2 ^ k ∣ 2 ^ (j + k)
power-dvd_up zero k = rw (zero_plus k) (dvd_refl (2 ^ k))
  where
    zero_plus : (n : ℕ) → 0 + n ≡ n
    zero_plus n = omega arith
power-dvd_up (suc j) k =
    rw (suc-add j k, pow-suc 2 (j + k)) (dvd-mul_right_of_dvd (2 ^ k) (power-dvd_up j k) 2)

pub power-dvd : (k n : ℕ) → k ≤ n → 2 ^ k ∣ 2 ^ n
power-dvd k n h =
    let whole : n - k + k ≡ n = omega arith in
    subst (λ m. 2 ^ k ∣ 2 ^ m) whole (power-dvd_up (n - k) k)

pub power-le : (k n : ℕ) → k ≤ n → 2 ^ k ≤ 2 ^ n
power-le k n h = pow-le-pow_right (omega arith) h
