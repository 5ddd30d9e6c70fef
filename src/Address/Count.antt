-- ===== src/Address/Count.antt =====
-- `CountBytes` ends, and counts the ones.
use Prim.Native.Nat.{bit_and-bitwise, digits}
use hpgs.Prelude.{
  ℕ, zero, suc, ◌+◌, ◌*◌, ◌/◌, ◌%◌, ◌^◌, ◌≤◌, ◌<◌, ◌≡◌, refl, ap, ◌∙◌, arith, min, bit_and, some,
  ◌⊎◌, inl, inr,
}
use native.Mathlib.Nat.{pow-suc}
use hpgs.Address.{count_loop, count_bytes}

-- The ones among the `k` low binary digits.
abbrev pub ones : ℕ → ℕ → ℕ
ones zero v = 0
ones (suc k) v = v % 2 + ones k (v / 2)

-- More fuel than there are digits makes no difference.
digits_enough :
    (n m a b : ℕ) → a ≤ n → a ≤ m → digits (λ b. 0) min n a b ≡ digits (λ b. 0) min m a b
digits_enough zero zero a b hn hm = refl
digits_enough zero (suc m) zero b hn hm = refl
digits_enough (suc n) zero zero b hn hm = refl
digits_enough (suc n) (suc m) zero b hn hm = refl
digits_enough zero m (suc a) b hn hm = absurd (omega arith)
digits_enough (suc n) zero (suc a) b hn hm = absurd (omega arith)
digits_enough (suc n) (suc m) (suc a) b hn hm =
    ap (λ (t : ℕ). t * 2 + min (suc a % 2) (b % 2))
      (digits_enough n m (suc a / 2) (b / 2) (omega arith) (omega arith))

bit_and-zero : (b : ℕ) → bit_and 0 b ≡ 0
bit_and-zero b = rw bit_and-bitwise refl

bit_and-halves : (a b : ℕ) → bit_and a b ≡ bit_and (a / 2) (b / 2) * 2 + min (a % 2) (b % 2)
bit_and-halves zero b = omega (arith, bit_and-zero (b / 2), bit_and-zero b)
bit_and-halves (suc a) b = omega (
  arith,
  as_digits (suc a) b,
  as_digits (suc a / 2) (b / 2),
  digits_enough a (suc a / 2) (suc a / 2) (b / 2) (omega arith) (omega arith),
)
  where
    as_digits : (x y : ℕ) → bit_and x y ≡ digits (λ b. 0) min x x y
    as_digits x y = bit_and-bitwise x y

digits_same : (n a : ℕ) → a ≤ n → digits (λ b. 0) min n a a ≡ a
digits_same zero a h = omega arith
digits_same (suc n) zero h = refl
digits_same (suc n) (suc a) h = omega (arith, digits_same n (suc a / 2) (omega arith))

bit_and-same : (a : ℕ) → bit_and a a ≡ a
bit_and-same a = rw bit_and-bitwise (digits_same a a (omega arith))

-- The least one of a number goes.
one_less :
    (k v : ℕ)
    → suc v < 2 ^ k
    → (bit_and (suc v) v < 2 ^ k) × (suc (ones k (bit_and (suc v) v)) ≡ ones k (suc v))
one_less zero v h = absurd (omega arith)
one_less (suc k) v h = elim (mod_two v) [
  | inl even ↦
      let b =
        ap (λ (t : ℕ). bit_and t (v / 2)) {x = suc v / 2} {y = v / 2} (omega arith)
        ∙ bit_and-same (v / 2) in
      let e = bit_and-halves (suc v) v in
      (
        omega (arith, b, e),
        omega (
          arith,
          b,
          e,
          ap (ones k) {x = bit_and (suc v) v / 2} {y = v / 2} (omega (arith, b, e)),
          ap (ones k) {x = suc v / 2} {y = v / 2} (omega arith),
        ),
      )
  | inr odd ↦
      let b = ap (λ (t : ℕ). bit_and t (v / 2)) {x = suc v / 2} {y = suc (v / 2)} (omega arith) in
      let e = bit_and-halves (suc v) v in
      let (small, fewer) = one_less k (v / 2) (omega (arith, pow-suc 2 k)) in
      (
        omega (arith, b, e, small, pow-suc 2 k),
        omega (
          arith,
          b,
          e,
          fewer,
          ap (ones k) {x = bit_and (suc v) v / 2} {y = bit_and (suc (v / 2)) (v / 2)}
              (omega (arith, b, e)),
          ap (ones k) {x = suc v / 2} {y = suc (v / 2)} (omega arith),
        ),
      )
]
  where
    mod_two : (n : ℕ) → (n % 2 ≡ 0) ⊎ (n % 2 ≡ 1)
    mod_two n = ground arith

ones_bound : (k v : ℕ) → ones k v ≤ k
ones_bound zero v = omega arith
ones_bound (suc k) v = omega (arith, ones_bound k (v / 2))

ones-zero : (k : ℕ) → ones k 0 ≡ 0
ones-zero zero = refl
ones-zero (suc k) = omega (arith, ones-zero k, ap (ones k) {x = 0 / 2} {y = 0} refl)

count_loop_lem :
    (fuel k result v : ℕ)
    → v < 2 ^ k
    → ones k v ≤ fuel
    → count_loop fuel result v ≡ some (result + ones k v)
count_loop_lem fuel k result zero h enough = ap some (omega (arith, ones-zero k))
count_loop_lem zero k result (suc v) h enough = absurd (omega (arith, one_less k v h))
count_loop_lem (suc fuel) k result (suc v) h enough =
    let (small, fewer) = one_less k v h in
    count_loop_lem fuel k (suc result) (bit_and (suc v) v) small (omega (arith, fewer))
    ∙ ap some (omega (arith, fewer))

-- The loop of `CountBytes` ends after one turn for each binary digit one of the value, which are at most
-- as many as its bits, and returns their number.
pub count_bytes_lem :
    (w value : ℕ) → value < 2 ^ w → (count_bytes w value ≡ some (ones w value)) × (ones w value ≤ w)
unfolding count_bytes
count_bytes_lem w value h =
    (count_loop_lem w w 0 value h (ones_bound w value) ∙ ap some (omega arith), ones_bound w value)
