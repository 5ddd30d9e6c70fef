-- ===== src/ByteArray/Codec/Zigzag.antt =====
-- The zigzag code: a signed integer of `w` bits as an unsigned one, small for a small magnitude.
use hpgs.Prelude.{ℕ, suc, ◌+◌, ◌-◌, ◌*◌, ◌/◌, ◌%◌, ◌^◌, ◌<◌, ◌≡◌, ap, ◌∙◌, arith}
use hpgs.Prelude.{bit_and, ltb, true, false}
use hpgs.Prelude.Bits.{bit_and-mask, bit_xor-ones, bit_xor-zero}
use hpgs.Prelude.Int.{ℤ, pos, negsuc, Fits}
use hpgs.ByteArray.Codec.{encode_zigzag, decode_zigzag}
use native.Mathlib.Nat.{pow-suc, one-le-pow, mod-eq_of_lt, add-mul-mod_self_right, mod_self}
use native.Mathlib.Decide.{dec_lt}

half_range : (w : ℕ) → 2 ^ (suc w - 1) ≡ 2 ^ w
half_range w = ap (λ (k : ℕ). 2 ^ k) {x = suc w - 1} (omega arith)

-- 0, -1, 1, -2, 2, … are 0, 1, 2, 3, 4, …
encode_zigzag_pos : (w n : ℕ) → n < 2 ^ w → encode_zigzag (suc w) (pos n) ≡ n * 2
unfolding encode_zigzag
encode_zigzag_pos w n h = mod-eq_of_lt (omega (arith, pow-suc 2 w))

wrapped_double :
    (p n : ℕ) → n < p → ((n + 1) % (2 * p) * 2 % (2 * p) + 2 * p - 1) % (2 * p) ≡ n * 2 + 1
wrapped_double p n h = elim (dec_lt (n + 1) p) [
  | yes inside ↦
      rw
        (
          mod-eq_of_lt {n = n + 1} {m = 2 * p} (omega arith),
          mod-eq_of_lt {n = (n + 1) * 2} {m = 2 * p} (omega arith),
        )
        (ap (λ (k : ℕ). k % (2 * p)) {y = (n * 2 + 1) + 1 * (2 * p)} (omega arith)
          ∙ add-mul-mod_self_right (n * 2 + 1) 1 (2 * p)
          ∙ mod-eq_of_lt (omega arith))
  | no edge ↦
      let at : (n + 1) * 2 ≡ 2 * p = omega arith in
      rw (mod-eq_of_lt {n = n + 1} {m = 2 * p} (omega arith), at, mod_self (2 * p))
        (mod-eq_of_lt {m = 2 * p} (omega arith) ∙ omega arith)
]

encode_zigzag_negsuc : (w n : ℕ) → n < 2 ^ w → encode_zigzag (suc w) (negsuc n) ≡ n * 2 + 1
unfolding encode_zigzag
encode_zigzag_negsuc w n h = rw pow-suc2 (wrapped_double (2 ^ w) n h)
  where
    pow-suc2 : 2 ^ suc w ≡ 2 * 2 ^ w
    pow-suc2 = omega (arith, pow-suc 2 w)

decode_zigzag_even : (w n : ℕ) → n < 2 ^ w → decode_zigzag (suc w) (n * 2) ≡ pos n
unfolding decode_zigzag
decode_zigzag_even w n h = rw (half, low, mod_self (2 ^ suc w), bit_xor-zero n) (rw inside)
  where
    half : n * 2 / 2 ≡ n
    half = omega arith

    low : 2 ^ suc w - bit_and (n * 2) 1 ≡ 2 ^ suc w
    low = omega (arith, bit_and-mask (n * 2) 1)

    inside : ltb n (2 ^ (suc w - 1)) ≡ true
    inside = ground (arith, half_range w)

decode_zigzag_odd : (w n : ℕ) → n < 2 ^ w → decode_zigzag (suc w) (n * 2 + 1) ≡ negsuc n
unfolding decode_zigzag
decode_zigzag_odd w n h =
    rw (half, low, bit_xor-ones n (suc w) (omega (arith, pow-suc 2 w)))
      (rw outside (ap negsuc (omega (arith, pow-suc 2 w))))
  where
    half : (n * 2 + 1) / 2 ≡ n
    half = omega arith

    low : (2 ^ suc w - bit_and (n * 2 + 1) 1) % 2 ^ suc w ≡ 2 ^ suc w - 1
    low =
        ap (λ (k : ℕ). (2 ^ suc w - k) % 2 ^ suc w) {y = 1}
          (omega (arith, bit_and-mask (n * 2 + 1) 1))
        ∙ mod-eq_of_lt (omega (arith, one-le-pow (suc w) 2))

    outside : ltb (2 ^ suc w - 1 - n) (2 ^ (suc w - 1)) ≡ false
    outside = ground (arith, half_range w, pow-suc 2 w)

-- Decoding undoes encoding on every integer of `w + 1` bits, the least one included.
pub decode_zigzag-encode_zigzag :
    (w : ℕ) (v : ℤ) → Fits (suc w) v → decode_zigzag (suc w) (encode_zigzag (suc w) v) ≡ v
decode_zigzag-encode_zigzag w (pos n) h =
    let h' : n < 2 ^ w = omega (arith, half_range w) in
    rw (encode_zigzag_pos w n h') (decode_zigzag_even w n h')
decode_zigzag-encode_zigzag w (negsuc n) h =
    let h' : n < 2 ^ w = omega (arith, half_range w) in
    rw (encode_zigzag_negsuc w n h') (decode_zigzag_odd w n h')

pub encode_zigzag-lt : (w : ℕ) (v : ℤ) → Fits (suc w) v → encode_zigzag (suc w) v < 2 ^ suc w
encode_zigzag-lt w (pos n) h =
    rw (encode_zigzag_pos w n (omega (arith, half_range w)))
      (omega (arith, half_range w, pow-suc 2 w))
encode_zigzag-lt w (negsuc n) h =
    rw (encode_zigzag_negsuc w n (omega (arith, half_range w)))
      (omega (arith, half_range w, pow-suc 2 w))
