-- ===== src/Prelude/Text.antt =====
-- Literal texts as lists of bytes, their comparison, and numbers in decimal.
use Prim.Native.Nat.{ℕ, zero, suc, ◌+◌, ◌-◌, ◌*◌, ◌/◌, ◌%◌, ◌^◌, ◌<◌}
use Prim.Native.Char.{code}
use Prim.Native.String.{String}
use mathlib.Core.Bool.{Bool, true, false, ◌&&◌}
use mathlib.Core.List.{List, [], ◌∷◌, ◌++◌}
use mathlib.Core.Path.{◌≡◌, refl}
use mathlib.Core.Logic.{inl, inr}
use native.Mathlib.Omega.{arith}
use native.Mathlib.Nat.{pow-suc}
use hpgs.Prelude.Tests.{◌==◌, ltb, if◌then◌else◌, Bool-cases, ==_iff}

abbrev pub codes : String → List ℕ
codes String.[] = []
codes (String.◌∷◌ c s) = code c ∷ codes s

-- `std::string::operator==`.
abbrev pub same_text : List ℕ → List ℕ → Bool
same_text [] [] = true
same_text [] (y ∷ ys) = false
same_text (x ∷ xs) [] = false
same_text (x ∷ xs) (y ∷ ys) = x == y && same_text xs ys

pub same_text→≡ : (xs ys : List ℕ) → same_text xs ys ≡ true → xs ≡ ys
same_text→≡ [] [] h = refl
same_text→≡ [] (y ∷ ys) h = absurd (ground arith)
same_text→≡ (x ∷ xs) [] h = absurd (ground arith)
same_text→≡ (x ∷ xs) (y ∷ ys) h = ground (arith, same_text→≡ xs ys, ==_iff x y)

pub same_text_refl : (xs : List ℕ) → same_text xs xs ≡ true
same_text_refl [] = refl
same_text_refl (x ∷ xs) = ground (arith, same_text_refl xs)

-- `operator<<` of an unsigned number, whose digits are at most as many as the first number.
unfoldable pub decimal_within : ℕ → ℕ → List ℕ
decimal_within zero n = []
decimal_within (suc k) n =
    let front = decimal_within k (n / 10) in
    if ltb n 10 then (b'0' + n) ∷ [] else front ++ (b'0' + n % 10) ∷ []

-- No `uint64_t` has more than twenty digits.
unfoldable pub decimal : ℕ → List ℕ
decimal n = decimal_within 20 n

-- What a text of decimal digits stands for.
abbrev pub number_after : ℕ → List ℕ → ℕ
number_after n [] = n
number_after n (c ∷ cs) = number_after (n * 10 + (c - b'0')) cs

number_after-append :
    (n : ℕ) (xs : List ℕ) (c : ℕ)
    → number_after n (xs ++ c ∷ []) ≡ number_after n xs * 10 + (c - b'0')
number_after-append n [] c = refl
number_after-append n (x ∷ xs) c = number_after-append (n * 10 + (x - b'0')) xs c

number_after-decimal_within : (k n : ℕ) → n < 10 ^ k → number_after 0 (decimal_within k n) ≡ n
unfolding decimal_within
number_after-decimal_within zero n h = omega arith
number_after-decimal_within (suc k) n h = elim (Bool-cases (ltb n 10)) [
  | inl small ↦ rw small (omega arith)
  | inr large ↦ rw large (
      omega (
        arith,
        number_after-append 0 (decimal_within k (n / 10)) (b'0' + n % 10),
        number_after-decimal_within k (n / 10) (omega (arith, pow-suc 10 k)),
      ))
]

pub number_after-decimal : (n : ℕ) → n < 2 ^ 64 → number_after 0 (decimal n) ≡ n
unfolding decimal
number_after-decimal n h = number_after-decimal_within 20 n (omega arith)
