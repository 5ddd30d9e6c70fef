-- ===== src/ByteArray/Codec/RoundTrip.antt =====
-- Each typed writer of a ByteArray followed by its reader: the writing and the reading machine may
-- differ in byte order.
use hpgs.Prelude.{ℕ, ◌+◌, ◌^◌, ◌≤◌, ◌<◌, ◌≡◌, refl, arith, List, ◌++◌, length, length-append}
use hpgs.Prelude.Int.{ℤ, Fits}
use hpgs.ByteArray.{ByteArray, Endian, Result, ok, M, set_position, ◌>>◌}
use hpgs.ByteArray.Inv.{IsValid}
use hpgs.ByteArray.Codec.{
  write_fixed, read_fixed, write_uint32, write_uint64, write_int32, write_int64,
}
use hpgs.ByteArray.Codec.{read_uint32, read_uint64, read_int32, read_int64, encode_zigzag}
use hpgs.ByteArray.Codec.{write_string_f16, write_string_f32, write_string_f64, write_string_vint}
use hpgs.ByteArray.Codec.{read_string_f16, read_string_f32, read_string_f64, read_string_vint}
use hpgs.ByteArray.Codec.{decode_zigzag32, decode_zigzag64}
use hpgs.ByteArray.Codec.Stream.{Decodes-pure, Decodes}
use hpgs.ByteArray.Codec.Transfer.{Encodes-Decodes}
use hpgs.ByteArray.Codec.Fixed.{wire, length-wire, write_fixed-Encodes, read_fixed-Decodes}
use hpgs.ByteArray.Codec.Varint.{varint, length-varint, read_varint-Decodes}
use hpgs.ByteArray.Codec.Zigzag.{decode_zigzag-encode_zigzag, encode_zigzag-lt}
use hpgs.ByteArray.Codec.Strings.{write_varint-Encodes}
use hpgs.ByteArray.Codec.Strings.{write_string_f16-Encodes, read_string_f16-Decodes}
use hpgs.ByteArray.Codec.Strings.{write_string_f32-Encodes, read_string_f32-Decodes}
use hpgs.ByteArray.Codec.Strings.{write_string_f64-Encodes, read_string_f64-Decodes}
use hpgs.ByteArray.Codec.Strings.{write_string_vint-Encodes, read_string_vint-Decodes}
use mathlib.Core.Path.{subst}

-- A write, a step back to where it started, and a read.
abbrev pub then_back : {A : Type 0} → M (Unit {0}) → M A → ByteArray → Result A
then_back w r s = ((w >> (set_position s.position >> r)) s).0

module _ (fill : ℕ) (host host' : Endian) (s : ByteArray) (v : IsValid s) where
  -- A value of `w` bytes that `writeFint16` … `writeFuint64` put down is what the reader of that
  -- width returns, in either byte order of the buffer and on machines of either order.
  pub fixed_round_trip :
      (w value : ℕ)
      → 0 < w
      → value < 256 ^ w
      → s.position + w + s.base_size ≤ 2 ^ 64
      → w < 2 ^ 53
      → then_back (write_fixed fill host w value) (read_fixed host' w) s ≡ ok value
  fixed_round_trip w value some_bytes small fits exact =
      Encodes-Decodes fill s.endian (write_fixed fill host w value) (read_fixed host' w)
        (wire s.endian w value) value s (write_fixed-Encodes fill s.endian host w value)
        (read_fixed-Decodes fill s.endian host' w value some_bytes small) v refl
        (omega (arith, length-wire s.endian w value)) (omega (arith, length-wire s.endian w value))

  -- `readUint32` returns what `writeUint32` put down, for every `uint32_t`.
  pub uint32_round_trip :
      (value : ℕ)
      → value < 2 ^ 32
      → s.position + 5 + s.base_size ≤ 2 ^ 64
      → then_back (write_uint32 fill host value) (read_uint32 host') s ≡ ok value
  uint32_round_trip value small fits =
      Encodes-Decodes fill s.endian (write_uint32 fill host value) (read_uint32 host')
        (varint 4 value) value s (write_varint-Encodes fill s.endian host 4 value (omega arith))
        (read_varint-Decodes s.endian host' 32 4 value (omega arith) small) v refl
        (omega (arith, length-varint 4 value)) (omega (arith, length-varint 4 value))

  -- `readUint64` returns what `writeUint64` put down, for every `uint64_t`.
  pub uint64_round_trip :
      (value : ℕ)
      → value < 2 ^ 64
      → s.position + 10 + s.base_size ≤ 2 ^ 64
      → then_back (write_uint64 fill host value) (read_uint64 host') s ≡ ok value
  uint64_round_trip value small fits =
      Encodes-Decodes fill s.endian (write_uint64 fill host value) (read_uint64 host')
        (varint 9 value) value s (write_varint-Encodes fill s.endian host 9 value (omega arith))
        (read_varint-Decodes s.endian host' 64 9 value (omega arith) small) v refl
        (omega (arith, length-varint 9 value)) (omega (arith, length-varint 9 value))

  -- `readInt32` returns what `writeInt32` put down, for every `int32_t`, the least one included.
  pub int32_round_trip :
      (value : ℤ)
      → Fits 32 value
      → s.position + 5 + s.base_size ≤ 2 ^ 64
      → then_back (write_int32 fill host value) (read_int32 host') s ≡ ok value
  int32_round_trip value small fits =
      Encodes-Decodes fill s.endian (write_int32 fill host value) (read_int32 host') (varint 4 code)
        value s
        (write_varint-Encodes fill s.endian host 4 code
          (omega (arith, encode_zigzag-lt 31 value small)))
        (subst (Decodes s.endian (read_int32 host') (varint 4 code))
          (decode_zigzag-encode_zigzag 31 value small)
          (Decodes-pure s.endian (read_uint32 host') decode_zigzag32 (varint 4 code) code (
            read_varint-Decodes s.endian host' 32 4 code
              (omega (arith, encode_zigzag-lt 31 value small)) (encode_zigzag-lt 31 value small))))
        v refl (omega (arith, length-varint 4 code)) (omega (arith, length-varint 4 code))
    where
      code : ℕ
      code = encode_zigzag 32 value

  -- `readInt64` returns what `writeInt64` put down, for every `int64_t`, the least one included.
  pub int64_round_trip :
      (value : ℤ)
      → Fits 64 value
      → s.position + 10 + s.base_size ≤ 2 ^ 64
      → then_back (write_int64 fill host value) (read_int64 host') s ≡ ok value
  int64_round_trip value small fits =
      Encodes-Decodes fill s.endian (write_int64 fill host value) (read_int64 host') (varint 9 code)
        value s
        (write_varint-Encodes fill s.endian host 9 code
          (omega (arith, encode_zigzag-lt 63 value small)))
        (subst (Decodes s.endian (read_int64 host') (varint 9 code))
          (decode_zigzag-encode_zigzag 63 value small)
          (Decodes-pure s.endian (read_uint64 host') decode_zigzag64 (varint 9 code) code (
            read_varint-Decodes s.endian host' 64 9 code
              (omega (arith, encode_zigzag-lt 63 value small)) (encode_zigzag-lt 63 value small))))
        v refl (omega (arith, length-varint 9 code)) (omega (arith, length-varint 9 code))
    where
      code : ℕ
      code = encode_zigzag 64 value

  module _ (value : List ℕ) (nonempty : 0 < length value)
      (fits : s.position + 10 + length value + s.base_size ≤ 2 ^ 64)
      (exact : 10 + length value < 2 ^ 53) where
    -- A string that is not empty and shorter than 2 ^ 16 comes back from `writeStringF16` by
    -- `readStringF16`.
    pub string_f16_round_trip :
        length value < 2 ^ 16
        → then_back (write_string_f16 fill host value) (read_string_f16 host') s ≡ ok value
    string_f16_round_trip small =
        Encodes-Decodes fill s.endian _ (read_string_f16 host')
          (wire s.endian 2 (length value) ++ value) value s
          (write_string_f16-Encodes fill s.endian host host' value nonempty small)
          (read_string_f16-Decodes fill s.endian host host' value nonempty small) v refl
          (omega (
            arith,
            length-append (wire s.endian 2 (length value)) value,
            length-wire s.endian 2 (length value),
          ))
          (omega (
            arith,
            length-append (wire s.endian 2 (length value)) value,
            length-wire s.endian 2 (length value),
          ))

    -- A string comes back from `writeStringF32`, `writeStringF64` and `writeStringVint` by their
    -- readers, if its length fits the field.
    pub string_round_trips :
        (length value < 2 ^ 32
          → then_back (write_string_f32 fill host value) (read_string_f32 host') s ≡ ok value)
        × (then_back (write_string_f64 fill host value) (read_string_f64 host') s ≡ ok value)
        × (then_back (write_string_vint fill host value) (read_string_vint host') s ≡ ok value)
    string_round_trips = (f32, f64, vint)
      where
        f32 :
            length value < 2 ^ 32
            → then_back (write_string_f32 fill host value) (read_string_f32 host') s ≡ ok value
        f32 small =
            Encodes-Decodes fill s.endian _ (read_string_f32 host')
              (wire s.endian 4 (length value) ++ value) value s
              (write_string_f32-Encodes fill s.endian host host' value nonempty small)
              (read_string_f32-Decodes fill s.endian host host' value nonempty small) v refl
              (omega (
                arith,
                length-append (wire s.endian 4 (length value)) value,
                length-wire s.endian 4 (length value),
              ))
              (omega (
                arith,
                length-append (wire s.endian 4 (length value)) value,
                length-wire s.endian 4 (length value),
              ))

        f64 : then_back (write_string_f64 fill host value) (read_string_f64 host') s ≡ ok value
        f64 =
            Encodes-Decodes fill s.endian _ (read_string_f64 host')
              (wire s.endian 8 (length value) ++ value) value s
              (write_string_f64-Encodes fill s.endian host host' value nonempty)
              (read_string_f64-Decodes fill s.endian host host' value nonempty (omega arith)) v refl
              (omega (
                arith,
                length-append (wire s.endian 8 (length value)) value,
                length-wire s.endian 8 (length value),
              ))
              (omega (
                arith,
                length-append (wire s.endian 8 (length value)) value,
                length-wire s.endian 8 (length value),
              ))

        vint : then_back (write_string_vint fill host value) (read_string_vint host') s ≡ ok value
        vint =
            Encodes-Decodes fill s.endian _ (read_string_vint host')
              (varint 9 (length value) ++ value) value s
              (write_string_vint-Encodes fill s.endian host host' value nonempty (omega arith))
              (read_string_vint-Decodes fill s.endian host host' value nonempty (omega arith)) v
              refl
              (omega (
                arith,
                length-append (varint 9 (length value)) value,
                length-varint 9 (length value),
              ))
              (omega (
                arith,
                length-append (varint 9 (length value)) value,
                length-varint 9 (length value),
              ))
