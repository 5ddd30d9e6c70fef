-- ===== src/ByteArray/Codec/Varint.antt =====
-- The variable-length integers of a ByteArray: seven bits a byte, lowest first.
use hpgs.Prelude.{ℕ, zero, suc, ◌+◌, ◌*◌, ◌/◌, ◌%◌, ◌^◌, ◌≤◌, ◌<◌, ◌≡◌, ap, ◌∙◌, arith}
use hpgs.Prelude.{List, [], ◌∷◌, length, leb, ltb, if◌then◌else◌, bit_and, bit_or, true, false}
use hpgs.Prelude.{Bool-cases, inl, inr, leb→lt}
use hpgs.Prelude.Bits.{bit_or-shifted, bit_and-mask}
use hpgs.ByteArray.{Endian, little, big, ok, M, read, ◌>>=◌}
use hpgs.ByteArray.Codec.{groups, read_groups, read_fint8, from_memory, from_le}
use hpgs.ByteArray.Codec.Stream.{Decodes, Decodes-read, Decodes-pure, Decodes->>=}
use hpgs.ByteArray.Codec.Stream.{Decodes-nothing}
use hpgs.ByteArray.Codec.{read_group}
use native.Mathlib.Nat.{pow-suc, mod-eq_of_lt, mul-le-mul_right, div-add-mod'}
use mathlib.Core.Path.{subst}
use native.Mathlib.Numerals.{towards_suc}

-- The encoding in plain arithmetic, of a value below 128 ^ (k + 1).
abbrev pub varint : ℕ → ℕ → List ℕ
varint zero value = value ∷ []
varint (suc k) value =
    let rest = varint k (value / 128) in
    if leb 128 value then (value % 128 + 128) ∷ rest else value ∷ []

marked_group : (value : ℕ) → bit_or (bit_and value 0x7f) 0x80 ≡ value % 128 + 128
marked_group value =
    ap (λ (x : ℕ). bit_or x 0x80) (bit_and-mask value 7)
    ∙ bit_or-shifted (value % 128) 1 7 (omega arith)

-- The array `tmp` never overflows, and holds the encoding.
pub groups-varint : (k value : ℕ) → value < 128 ^ suc k → groups (suc k) value ≡ ok (varint k value)
unfolding groups
groups-varint zero value h = rw last
  where
    last : leb 128 value ≡ false
    last = ground arith
groups-varint (suc k) value h =
    rw (groups-varint k (value / 128) (omega (arith, pow-suc 128 (suc k))), marked_group value)
      (elim (Bool-cases (leb 128 value)) [ inl more ↦ rw more | inr last ↦ rw last ])

pub length-varint :
    (k value : ℕ) → (0 < length (varint k value)) × (length (varint k value) ≤ suc k)
length-varint zero value = omega arith
length-varint (suc k) value = ground (arith, length-varint k (value / 128))

-- One byte read is that byte, on a machine of either order.
read_fint8-Decodes : (e host : Endian) (b : ℕ) → Decodes e (read_fint8 host) (b ∷ []) b
read_fint8-Decodes e host b = subst (Decodes e (read_fint8 host) (b ∷ [])) (one_byte host) (
    Decodes-pure e (read 1) (from_memory host) (b ∷ []) (b ∷ [])
      (Decodes-read e (b ∷ []) (omega arith)))
  where
    one_byte : (h : Endian) → from_memory h (b ∷ []) ≡ b
    one_byte little = unfold from_le in omega arith
    one_byte big = unfold from_le in omega arith

seven_more : (i : ℕ) → 2 ^ (i + 7) ≡ 128 * 2 ^ i
seven_more i = simp towards_suc (omega arith)

split_value : (value i : ℕ) → value * 2 ^ i ≡ value % 128 * 2 ^ i + value / 128 * 2 ^ (i + 7)
split_value value i = omega (
  arith,
  ap (λ (t : ℕ). t * 2 ^ i) (div-add-mod' value 128),
  ap (λ (t : ℕ). value / 128 * t) (seven_more i),
)

module _ (e host : Endian) (w i acc : ℕ) (lo : acc < 2 ^ i) where
  -- Where no bit is cut off, a group is added above the bits that are there.
  or_group : (g : ℕ) → g * 2 ^ i < 2 ^ w → bit_or acc (g * 2 ^ i % 2 ^ w) ≡ acc + g * 2 ^ i
  or_group g fits =
      ap (bit_or acc) {x = g * 2 ^ i % 2 ^ w} {y = g * 2 ^ i} (mod-eq_of_lt fits)
      ∙ bit_or-shifted acc g i lo

  last_group :
      (value : ℕ) (next : ℕ → M ℕ)
      → value < 128
      → value * 2 ^ i < 2 ^ w
      → Decodes e (read_fint8 host >>= read_group w i acc next) (value ∷ []) (acc + value * 2 ^ i)
  last_group value next last fits =
      Decodes->>= e (read_fint8 host) (read_group w i acc next) (value ∷ []) [] value
        (acc + value * 2 ^ i) (read_fint8-Decodes e host value)
        (rw (low, or_group value fits) (Decodes-nothing e (acc + value * 2 ^ i)))
    where
      low : ltb value 128 ≡ true
      low = ground arith

  inner_group :
      (g : ℕ) (next : ℕ → M ℕ) (rest : List ℕ) (r : ℕ)
      → g < 128
      → g * 2 ^ i < 2 ^ w
      → Decodes e (next (acc + g * 2 ^ i)) rest r
      → Decodes e (read_fint8 host >>= read_group w i acc next) ((g + 128) ∷ rest) r
  inner_group g next rest r small fits h =
      Decodes->>= e (read_fint8 host) (read_group w i acc next) ((g + 128) ∷ []) rest (g + 128) r
        (read_fint8-Decodes e host (g + 128)) (rw (high, mask, or_group g fits) h)
    where
      high : ltb (g + 128) 128 ≡ false
      high = ground arith

      mask : bit_and (g + 128) 0x7f ≡ g
      mask = omega (arith, bit_and-mask (g + 128) 7)

-- `acc` is what the bytes before have given, below bit `i`.
pub read_groups-Decodes :
    (e host : Endian) (w k value i acc : ℕ)
    → value < 128 ^ suc k
    → acc < 2 ^ i
    → acc + value * 2 ^ i < 2 ^ w
    → Decodes e (read_groups host w (suc k) i acc) (varint k value) (acc + value * 2 ^ i)
unfolding read_groups
read_groups-Decodes e host w zero value i acc h lo hi =
    last_group e host w i acc lo value (read_groups host w zero (i + 7)) (omega arith) (omega arith)
read_groups-Decodes e host w (suc k) value i acc h lo hi = elim (Bool-cases (leb 128 value)) [
  | inl more ↦ rw more (
      inner_group e host w i acc lo (value % 128) (read_groups host w (suc k) (i + 7))
        (varint k (value / 128)) (acc + value * 2 ^ i) (omega arith)
        (omega (arith, split_value value i))
        (subst (Decodes e (read_groups host w (suc k) (i + 7) acc') (varint k (value / 128)))
          (omega (arith, split_value value i))
          (read_groups-Decodes e host w k (value / 128) (i + 7) acc'
            (omega (arith, pow-suc 128 (suc k)))
            (omega (
              arith,
              seven_more i,
              mul-le-mul_right {m = value % 128} {n = 127} (2 ^ i) (omega arith),
            ))
            (omega (arith, split_value value i)))))
  | inr last ↦ rw last (
      last_group e host w i acc lo value (read_groups host w (suc k) (i + 7))
        (leb→lt 128 value last) (omega arith))
]
  where
    acc' : ℕ
    acc' = acc + value % 128 * 2 ^ i

pub read_varint-Decodes :
    (e host : Endian) (w k value : ℕ)
    → value < 128 ^ suc k
    → value < 2 ^ w
    → Decodes e (read_groups host w (suc k) 0 0) (varint k value) value
read_varint-Decodes e host w k value h fits =
    subst (Decodes e (read_groups host w (suc k) 0 0) (varint k value)) (omega arith)
      (read_groups-Decodes e host w k value 0 0 h (omega arith) (omega arith))
