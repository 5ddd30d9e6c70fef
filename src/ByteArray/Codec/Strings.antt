-- ===== src/ByteArray/Codec/Strings.antt =====
-- The strings of a ByteArray: a length in one of four forms, and the bytes.
use hpgs.Prelude.{ℕ, suc, ◌^◌, ◌<◌, arith}
use hpgs.Prelude.{List, ◌++◌, length}
use hpgs.ByteArray.{Endian, M, write, read, ◌>>=◌, ◌>>◌}
use hpgs.ByteArray.Codec.{write_fixed, read_fixed, write_varint, read_groups}
use hpgs.ByteArray.Codec.{write_string_f16, write_string_f32, write_string_f64, write_string_vint}
use hpgs.ByteArray.Codec.{read_string_f16, read_string_f32, read_string_f64, read_string_vint}
use hpgs.ByteArray.Codec.Stream.{
  Encodes, Decodes, Encodes-write, Encodes->>, Decodes-read, Decodes->>=,
}
use hpgs.ByteArray.Codec.Fixed.{wire, write_fixed-Encodes, read_fixed-Decodes}
use hpgs.ByteArray.Codec.Varint.{varint, groups-varint, read_varint-Decodes}
use native.Mathlib.Nat.{mod-eq_of_lt}

pub write_varint-Encodes :
    (fill : ℕ) (e host : Endian) (k value : ℕ)
    → value < 128 ^ suc k
    → Encodes fill e (write_varint fill host (suc k) value) (varint k value)
unfolding write_varint
write_varint-Encodes fill e host k value h s v he fits exact =
    rw (groups-varint k value h, write_varint)
      (Encodes-write fill e (varint k value) s v he fits exact)

-- A length field, then that many bytes.
module _ (fill : ℕ) (e host host' : Endian) (value : List ℕ) (nonempty : 0 < length value) where
  read-length :
      (r : M ℕ) (field : List ℕ)
      → Decodes e r field (length value)
      → Decodes e (r >>= read) (field ++ value) value
  read-length r field h =
      Decodes->>= e r read field value (length value) value h (Decodes-read e value nonempty)

  write-length :
      (w : M (Unit {0})) (field : List ℕ)
      → Encodes fill e w field
      → Encodes fill e (w >> write fill value) (field ++ value)
  write-length w field h =
      Encodes->> fill e w (write fill value) field value h (Encodes-write fill e value)

  pub read_string_f16-Decodes :
      length value < 2 ^ 16
      → Decodes e (read_string_f16 host') (wire e 2 (length value) ++ value) value
  read_string_f16-Decodes small =
      read-length (read_fixed host' 2) (wire e 2 (length value))
        (read_fixed-Decodes fill e host' 2 (length value) (omega arith) (omega arith))

  pub write_string_f16-Encodes :
      length value < 2 ^ 16
      → Encodes fill e (write_string_f16 fill host value) (wire e 2 (length value) ++ value)
  unfolding write_string_f16
  write_string_f16-Encodes small = rw (mod-eq_of_lt small) (
      write-length (write_fixed fill host 2 (length value)) (wire e 2 (length value))
        (write_fixed-Encodes fill e host 2 (length value)))

  pub read_string_f32-Decodes :
      length value < 2 ^ 32
      → Decodes e (read_string_f32 host') (wire e 4 (length value) ++ value) value
  read_string_f32-Decodes small =
      read-length (read_fixed host' 4) (wire e 4 (length value))
        (read_fixed-Decodes fill e host' 4 (length value) (omega arith) (omega arith))

  pub write_string_f32-Encodes :
      length value < 2 ^ 32
      → Encodes fill e (write_string_f32 fill host value) (wire e 4 (length value) ++ value)
  unfolding write_string_f32
  write_string_f32-Encodes small = rw (mod-eq_of_lt small) (
      write-length (write_fixed fill host 4 (length value)) (wire e 4 (length value))
        (write_fixed-Encodes fill e host 4 (length value)))

  pub read_string_f64-Decodes :
      length value < 2 ^ 64
      → Decodes e (read_string_f64 host') (wire e 8 (length value) ++ value) value
  read_string_f64-Decodes small =
      read-length (read_fixed host' 8) (wire e 8 (length value))
        (read_fixed-Decodes fill e host' 8 (length value) (omega arith) (omega arith))

  pub write_string_f64-Encodes :
      Encodes fill e (write_string_f64 fill host value) (wire e 8 (length value) ++ value)
  unfolding write_string_f64
  write_string_f64-Encodes =
      write-length (write_fixed fill host 8 (length value)) (wire e 8 (length value))
        (write_fixed-Encodes fill e host 8 (length value))

  pub read_string_vint-Decodes :
      length value < 2 ^ 64
      → Decodes e (read_string_vint host') (varint 9 (length value) ++ value) value
  read_string_vint-Decodes small =
      read-length (read_groups host' 64 10 0 0) (varint 9 (length value))
        (read_varint-Decodes e host' 64 9 (length value) (omega arith) small)

  pub write_string_vint-Encodes :
      length value < 2 ^ 64
      → Encodes fill e (write_string_vint fill host value) (varint 9 (length value) ++ value)
  unfolding write_string_vint
  write_string_vint-Encodes small =
      write-length (write_varint fill host 10 (length value)) (varint 9 (length value))
        (write_varint-Encodes fill e host 9 (length value) (omega arith))
