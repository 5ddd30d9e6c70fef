-- ===== src/Prelude/Bits.antt =====
-- `|`, `&` and `^` of C at the operands that the code has, as arithmetic, for every width. Each law is
-- an induction on the digits that the native operation stands for.
use Prim.Native.Nat.{ℕ, zero, suc, ◌+◌, ◌-◌, ◌*◌, ◌/◌, ◌%◌, ◌^◌, ◌≤◌, ◌<◌, min, max}
use Prim.Native.Nat.{bit_and, bit_or, bit_xor, digits, differ}
use Prim.Native.Nat.{bit_and-bitwise, bit_or-bitwise, bit_xor-bitwise}
use mathlib.Core.Path.{◌≡◌, refl, ap, ◌∙◌}
use native.Mathlib.Nat.{
  pow-suc, one-le-pow, div-add-mod', add-mul-mod_self_right, mod-eq_of_lt, mod-lt,
}
use native.Mathlib.Omega.{arith}

or_digits : (n a c k : ℕ) → a ≤ n → a < 2 ^ k → digits (λ b. b) max n a (c * 2 ^ k) ≡ a + c * 2 ^ k
or_digits zero a c k h lt = omega arith
or_digits (suc n) zero c k h lt = omega arith
or_digits (suc n) (suc a) c zero h lt = absurd (omega arith)
or_digits (suc n) (suc a) c (suc k) h lt =
    rw (halves.0, halves.1)
      (omega
        (arith, or_digits n (suc a / 2) c k (omega arith) (omega (arith, pow-suc 2 k)), doubled))
  where
    doubled : c * 2 ^ suc k ≡ c * 2 ^ k * 2
    doubled = omega (arith, ap (λ (t : ℕ). c * t) (pow-suc 2 k))

    halves : (c * 2 ^ suc k / 2 ≡ c * 2 ^ k) × (c * 2 ^ suc k % 2 ≡ 0)
    halves = (omega (arith, doubled), omega (arith, doubled))

-- `a | (c << k)` where `a` fits the `k` low bits.
pub bit_or-shifted : (a c k : ℕ) → a < 2 ^ k → bit_or a (c * 2 ^ k) ≡ a + c * 2 ^ k
bit_or-shifted a c k lt = rw bit_or-bitwise (or_digits a a c k (omega arith) lt)

zero_digits : (n a : ℕ) → digits (λ b. 0) min n a 0 ≡ 0
zero_digits zero a = refl
zero_digits (suc n) zero = refl
zero_digits (suc n) (suc a) = omega (arith, zero_digits n (suc a / 2))

mask_half : (k : ℕ) → (2 ^ suc k - 1) / 2 ≡ 2 ^ k - 1
mask_half k = omega (arith, pow-suc 2 k, one-le-pow k 2)

mask_odd : (k : ℕ) → (2 ^ suc k - 1) % 2 ≡ 1
mask_odd k = omega (arith, pow-suc 2 k, one-le-pow k 2)

differ-one : (d : ℕ) → d < 2 → differ d 1 ≡ 1 - d
differ-one zero h = refl
differ-one (suc zero) h = refl
differ-one (suc (suc d)) h = absurd (omega arith)

differ-zero : (d : ℕ) → differ d 0 ≡ d
differ-zero zero = refl
differ-zero (suc d) = refl

low_digit : (a k : ℕ) → a % 2 ^ suc k ≡ a / 2 % 2 ^ k * 2 + a % 2
low_digit a k =
    ap (λ (n : ℕ). n % 2 ^ suc k) {y = (a / 2 % 2 ^ k * 2 + a % 2) + a / 2 / 2 ^ k * 2 ^ suc k}
      (omega (arith, div-add-mod' (a / 2) (2 ^ k), ap (λ (t : ℕ). a / 2 / 2 ^ k * t) (pow-suc 2 k)))
    ∙ add-mul-mod_self_right (a / 2 % 2 ^ k * 2 + a % 2) (a / 2 / 2 ^ k) (2 ^ suc k)
    ∙ mod-eq_of_lt
        (omega (arith, pow-suc 2 k, mod-lt (a / 2) {m = 2 ^ k} (one-le-pow k 2 (omega arith))))

and_digits : (n a k : ℕ) → a ≤ n → digits (λ b. 0) min n a (2 ^ k - 1) ≡ a % 2 ^ k
and_digits n a zero h = omega (arith, zero_digits n a)
and_digits zero a (suc k) h = rw none_left (omega (arith, one-le-pow (suc k) 2))
  where
    none_left : a ≡ 0
    none_left = omega arith
and_digits (suc n) zero (suc k) h = omega (arith, one-le-pow (suc k) 2)
and_digits (suc n) (suc a) (suc k) h =
    rw (mask_half k)
      (omega (arith, and_digits n (suc a / 2) k (omega arith), mask_odd k, low_digit (suc a) k))

-- A mask of `k` ones.
pub bit_and-mask : (a k : ℕ) → bit_and a (2 ^ k - 1) ≡ a % 2 ^ k
bit_and-mask a k = rw bit_and-bitwise (and_digits a a k (omega arith))

or_zero_digits : (n a : ℕ) → a ≤ n → digits (λ b. b) max n a 0 ≡ a
or_zero_digits zero a h = omega arith
or_zero_digits (suc n) zero h = refl
or_zero_digits (suc n) (suc a) h = omega (arith, or_zero_digits n (suc a / 2) (omega arith))

none_over : (k : ℕ) → 0 % 2 ^ suc k ≡ 0
none_over k = mod-eq_of_lt (one-le-pow (suc k) 2 (omega arith))

or_ones_digits :
    (n a k : ℕ) → a ≤ n → digits (λ b. b) max n a (2 ^ k - 1) + a % 2 ^ k ≡ a + (2 ^ k - 1)
or_ones_digits n a zero h = omega (arith, or_zero_digits n a h)
or_ones_digits zero zero (suc k) h = omega (arith, none_over k)
or_ones_digits zero (suc a) (suc k) h = absurd (omega arith)
or_ones_digits (suc n) zero (suc k) h = omega (arith, none_over k)
or_ones_digits (suc n) (suc a) (suc k) h = rw (mask_half k) (
    omega (
      arith,
      or_ones_digits n (suc a / 2) k (omega arith),
      mask_odd k,
      low_digit (suc a) k,
      pow-suc 2 k,
      one-le-pow k 2,
    ))

-- Or with `k` ones sets the `k` low bits.
pub bit_or-ones : (a k : ℕ) → bit_or a (2 ^ k - 1) + a % 2 ^ k ≡ a + (2 ^ k - 1)
bit_or-ones a k = rw bit_or-bitwise (or_ones_digits a a k (omega arith))

xor_digits :
    (n a k : ℕ) → a ≤ n → a < 2 ^ k → digits (λ b. b) differ n a (2 ^ k - 1) ≡ 2 ^ k - 1 - a
xor_digits zero a k h lt = omega arith
xor_digits (suc n) zero k h lt = omega arith
xor_digits (suc n) (suc a) zero h lt = absurd (omega arith)
xor_digits (suc n) (suc a) (suc k) h lt =
    rw (mask_half k, mask_odd k)
      (omega (
        arith,
        xor_digits n (suc a / 2) k (omega arith) (omega (arith, pow-suc 2 k)),
        differ-one (suc a % 2) (omega arith),
        pow-suc 2 k,
      ))

-- Exclusive or with `k` ones flips the `k` low bits.
pub bit_xor-ones : (a k : ℕ) → a < 2 ^ k → bit_xor a (2 ^ k - 1) ≡ 2 ^ k - 1 - a
bit_xor-ones a k lt = rw bit_xor-bitwise (xor_digits a a k (omega arith) lt)

xor_zero_digits : (n a : ℕ) → a ≤ n → digits (λ b. b) differ n a 0 ≡ a
xor_zero_digits zero a h = omega arith
xor_zero_digits (suc n) zero h = refl
xor_zero_digits (suc n) (suc a) h =
    rw (differ-zero (suc a % 2)) (omega (arith, xor_zero_digits n (suc a / 2) (omega arith)))

pub bit_xor-zero : (a : ℕ) → bit_xor a 0 ≡ a
bit_xor-zero a = rw bit_xor-bitwise (xor_zero_digits a a (omega arith))
