-- ===== src/Url/Tests.antt =====
-- Concrete strings: "a +b" coded both ways.
use hpgs.Prelude.{ℕ, ◌<◌, ◌≡◌, refl, arith, true, false, List, [], ◌∷◌, All}
use hpgs.Url.{
  uri_chars, xdigit_chars, hexdigits, char_is_unreserved, isxdigit, escape, encode_loop, url_encode,
}
use hpgs.Url.{hex_byte, decode_loop, url_decode}
use hpgs.Url.RoundTrip.{url_round_trip}

abbrev text : List ℕ
text = 97 ∷ 32 ∷ 43 ∷ 98 ∷ []

text-IsBytes : All (λ c. c < 256) text
text-IsBytes = (omega arith, (omega arith, (omega arith, (omega arith, tt))))

-- "a+%2Bb"
with_plus : url_encode true text ≡ 97 ∷ 43 ∷ 37 ∷ 50 ∷ 66 ∷ 98 ∷ []
unfolding url_encode encode_loop escape hexdigits char_is_unreserved uri_chars
with_plus = refl

-- "a%20%2Bb"
without_plus : url_encode false text ≡ 97 ∷ 37 ∷ 50 ∷ 48 ∷ 37 ∷ 50 ∷ 66 ∷ 98 ∷ []
unfolding url_encode encode_loop escape hexdigits char_is_unreserved uri_chars
without_plus = refl

-- "%4" ends too early, "%4a" is the letter J.
decodes : url_decode true (37 ∷ 52 ∷ 97 ∷ 37 ∷ 52 ∷ []) ≡ 74 ∷ 37 ∷ 52 ∷ []
unfolding url_decode decode_loop hex_byte isxdigit xdigit_chars
decodes = refl

-- The equals sign is not escaped.
equals_sign : char_is_unreserved 61 ≡ true
unfolding char_is_unreserved uri_chars
equals_sign = refl

url_round_trip_example : url_decode true (url_encode false text) ≡ text
url_round_trip_example = url_round_trip false true text (λ e. refl) text-IsBytes
