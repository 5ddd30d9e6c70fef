-- ===== src/Url/RoundTrip.antt =====
-- What `UrlEncode` writes, `UrlDecode` reads.
use hpgs.Prelude.{ℕ, ◌<◌, ◌≡◌, refl, ap, sym, ◌∙◌, arith, All, All-append}
use hpgs.Prelude.{Bool, true, false, ◌&&◌, ◌||◌, ◌==◌, Bool-cases, inl, inr, List, [], ◌∷◌, ◌++◌}
use mathlib.Core.Path.{subst}
use hpgs.Url.{char_is_unreserved, escape, url_encode, url_decode}
use hpgs.Url.Reference.{
  encode_byte, encoded, plain_byte, decoded, url_encode-encoded, url_decode-decoded,
}
use hpgs.Url.Digits.{escape_digits, unreserved_lem}

decoded-plain :
    (p : Bool) (c : ℕ) (cs : List ℕ)
    → (c == 37) ≡ false
    → decoded p (c ∷ cs) ≡ plain_byte p c ∷ decoded p cs
unfolding decoded
decoded-plain p c [] e = refl
decoded-plain p c (d ∷ []) e = refl
decoded-plain p c (d ∷ e ∷ cs) n = rw n (ground arith)

decoded-escape :
    (p q : Bool) (c : ℕ) (cs : List ℕ)
    → (q ≡ true → p ≡ true)
    → c < 256
    → decoded p (escape q c ++ cs) ≡ c ∷ decoded p cs
unfolding escape decoded
decoded-escape p q c cs agree l = elim (Bool-cases (c == 32 && q)) [
  | inl space ↦ rw space (decoded-plain p 43 cs refl ∙ ground (arith, agree))
  | inr other ↦ rw other (let e = escape_digits c l in ground (arith, e.0, e.1))
]

decoded-encoded :
    (p q : Bool) (cs : List ℕ)
    → (q ≡ true → p ≡ true)
    → All (λ c. c < 256) cs
    → decoded p (encoded q cs) ≡ cs
unfolding encoded decoded
decoded-encoded p q [] agree b = refl
decoded-encoded p q (c ∷ cs) agree b = elim (Bool-cases (char_is_unreserved c)) [
  | inl plain ↦ rw plain (
      let u = unreserved_lem c plain in
      decoded-plain p c (encoded q cs) u.0 ∙ ground (arith, u.1, decoded-encoded p q cs agree b.1))
  | inr coded ↦ rw coded (
      decoded-escape p q c (encoded q cs) agree b.0
      ∙ ap (λ x. c ∷ x) (decoded-encoded p q cs agree b.1))
]

-- A string comes back from `UrlEncode` and `UrlDecode`, with plus signs for spaces or without; a
-- decoder that takes them reads what an encoder that does not use them wrote, too.
pub url_round_trip :
    (space_as_plus decode_plus : Bool) (str : List ℕ)
    → (space_as_plus ≡ true → decode_plus ≡ true)
    → All (λ c. c < 256) str
    → url_decode decode_plus (url_encode space_as_plus str) ≡ str
url_round_trip q p str agree b =
    url_decode-decoded p (url_encode q str)
    ∙ ap (decoded p) (url_encode-encoded q str)
    ∙ decoded-encoded p q str agree b

-- What may stand in an encoded string.
abbrev pub is_url_char : Bool → ℕ → Bool
is_url_char space_as_plus c = char_is_unreserved c || c == 37 || (c == 43 && space_as_plus)

encode_byte-url_chars :
    (q : Bool) (c : ℕ) → c < 256 → All (λ d. is_url_char q d ≡ true) (encode_byte q c)
unfolding escape
encode_byte-url_chars q c l = elim (Bool-cases (char_is_unreserved c)) [
  | inl plain ↦ rw plain (ground arith, tt)
  | inr coded ↦ rw coded (elim (Bool-cases (c == 32 && q)) [
    | inl space ↦ rw space (ground arith, tt)
    | inr other ↦ rw other (
        let e = escape_digits c l in
        (ground arith, (ground (arith, e.2), (ground (arith, e.2), tt))))
  ])
]

encoded-url_chars :
    (q : Bool) (cs : List ℕ)
    → All (λ c. c < 256) cs
    → All (λ d. is_url_char q d ≡ true) (encoded q cs)
unfolding encoded
encoded-url_chars q [] b = tt
encoded-url_chars q (c ∷ cs) b =
    All-append (λ d. is_url_char q d ≡ true) (encode_byte q c) (encoded q cs)
      (encode_byte-url_chars q c b.0) (encoded-url_chars q cs b.1)

-- An encoded string holds nothing but unreserved characters, percent signs, and plus signs where
-- those stand for spaces.
pub url_encode-url_chars :
    (space_as_plus : Bool) (str : List ℕ)
    → All (λ c. c < 256) str
    → All (λ d. is_url_char space_as_plus d ≡ true) (url_encode space_as_plus str)
url_encode-url_chars q str b =
    subst (All (λ d. is_url_char q d ≡ true)) (sym (url_encode-encoded q str))
      (encoded-url_chars q str b)
