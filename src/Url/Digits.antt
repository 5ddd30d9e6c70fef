-- ===== src/Url/Digits.antt =====
-- The tables of `UrlEncode` and `UrlDecode`, entry by entry.
use hpgs.Prelude.{ℕ, zero, suc, ◌/◌, ◌^◌, ◌<◌, ◌≡◌, refl, ap, sym, ◌∙◌, arith, bit_and}
use hpgs.Prelude.{Bool, true, false, ◌&&◌, ◌==◌, Bool-cases, ==_iff, inl, inr}
use mathlib.Core.Path.{subst}
use hpgs.Url.{entry, hexdigits, xdigit_chars, isxdigit, hex_byte, char_is_unreserved, uri_chars}

-- A test that holds of all numbers below a bound.
all_below : ℕ → (ℕ → Bool) → Bool
all_below zero t = true
all_below (suc n) t = t n && all_below n t

all_below_lem : (n k : ℕ) (t : ℕ → Bool) → all_below n t ≡ true → k < n → t k ≡ true
unfolding all_below
all_below_lem zero k t a l = absurd (omega arith)
all_below_lem (suc n) k t a l = elim (Bool-cases (k == n)) [
  | inl last ↦ subst (λ x. t x ≡ true) (sym ((==_iff k n).0 last)) (ground arith)
  | inr other ↦ all_below_lem n k t (ground arith) (ground arith)
]

abbrev pub high : ℕ → ℕ
high c = entry hexdigits (c / 2 ^ 4)

abbrev pub low : ℕ → ℕ
low c = entry hexdigits (bit_and c 0xf)

escape_test : ℕ → Bool
escape_test c =
    isxdigit (high c)
    && isxdigit (low c)
    && hex_byte (high c) (low c) == c
    && char_is_unreserved (high c)
    && char_is_unreserved (low c)

all_escapes : all_below 256 escape_test ≡ true
unfolding all_below escape_test isxdigit hexdigits xdigit_chars char_is_unreserved uri_chars
    hex_byte
all_escapes = refl

-- The two digits of a byte are unreserved hex digits, and stand for the byte.
pub escape_digits :
    (c : ℕ)
    → c < 256
    → ((isxdigit (high c) && isxdigit (low c)) ≡ true)
      × (hex_byte (high c) (low c) ≡ c)
      × ((char_is_unreserved (high c) && char_is_unreserved (low c)) ≡ true)
unfolding escape_test
escape_digits c l =
    let t : escape_test c ≡ true = all_below_lem 256 c escape_test all_escapes l in
    (ground arith, (==_iff (hex_byte (high c) (low c)) c).0 (ground arith), ground arith)

-- A byte that is unreserved stands for itself in `UrlDecode`.
pub unreserved_lem :
    (c : ℕ) → char_is_unreserved c ≡ true → ((c == 37) ≡ false) × ((c == 43) ≡ false)
unfolding char_is_unreserved uri_chars
unreserved_lem c u = (other 37 refl, other 43 refl)
  where
    other : (r : ℕ) → char_is_unreserved r ≡ false → (c == r) ≡ false
    other r e = elim (Bool-cases (c == r)) [
      | inl it ↦ absurd (clash (sym u ∙ ap char_is_unreserved ((==_iff c r).0 it) ∙ e))
      | inr differs ↦ differs
    ]
      where
        clash : true ≡ false → ⊥
        clash e = cc
