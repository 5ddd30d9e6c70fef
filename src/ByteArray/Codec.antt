-- ===== src/ByteArray/Codec.antt =====
-- The typed writers and readers of src/network/bytearray.cc and include/util/myendian.h.
-- A signed value of a fixed width is its bit pattern; the zigzag functions take the integer itself.
-- `host` is the byte order of the machine, HPGS_BYTE_ORDER.
pub mod Stream
pub mod Transfer
pub mod Fixed
pub mod Varint
pub mod Zigzag
pub mod Strings
pub mod RoundTrip
mod Tests
use hpgs.Prelude.{ℕ, zero, suc, ◌+◌, ◌-◌, ◌*◌, ◌/◌, ◌%◌, ◌^◌, Bool, true, false, not}
use hpgs.Prelude.{List, [], ◌∷◌, reverse, length, ltb, leb, if◌then◌else◌, bit_and, bit_or, bit_xor}
use hpgs.Prelude.Int.{ℤ, pos, negsuc, of_pattern}
use hpgs.ByteArray.{Endian, little, big, Result, ok, err, array_overflow, M, write, read}
use hpgs.ByteArray.{pure, ◌>>=◌, ◌>>◌}

-- The `w` bytes of a value, lowest first, and the value of such bytes.
pub to_le : ℕ → ℕ → List ℕ
to_le zero v = []
to_le (suc w) v = (v % 256) ∷ to_le w (v / 256)

pub from_le : List ℕ → ℕ
from_le [] = 0
from_le (b ∷ bs) = b + 256 * from_le bs

-- `byteswap` of a value of `w` bytes.
pub byteswap : ℕ → ℕ → ℕ
byteswap w v = from_le (reverse (to_le w v))

abbrev pub same_endian : Endian → Endian → Bool
same_endian little little = true
same_endian big big = true
same_endian _ _ = false

-- The object representation of a value on the machine.
abbrev pub to_memory : Endian → ℕ → ℕ → List ℕ
to_memory little w v = to_le w v
to_memory big w v = reverse (to_le w v)

abbrev pub from_memory : Endian → List ℕ → ℕ
from_memory little bytes = from_le bytes
from_memory big bytes = from_le (reverse bytes)

-- The loop of `writeUint32` and `writeUint64`, with the slots left in the array `tmp`.
pub groups : ℕ → ℕ → Result (List ℕ)
groups zero value = err array_overflow
groups (suc slots) value =
    let more : Result (List ℕ) = elim (groups slots (value / 2 ^ 7)) [
      | ok bytes ↦ ok ((bit_or (bit_and value 0x7f) 0x80) ∷ bytes)
      | err e ↦ err e
    ] in
    if leb 0x80 value then more else ok (value ∷ [])

-- The signed product wraps, as compilers make it, where the standard leaves it undefined.
pub encode_zigzag : ℕ → ℤ → ℕ
encode_zigzag w (pos n) = n * 2 % 2 ^ w
encode_zigzag w (negsuc n) = ((n + 1) % 2 ^ w * 2 % 2 ^ w + 2 ^ w - 1) % 2 ^ w

pub decode_zigzag : ℕ → ℕ → ℤ
decode_zigzag w v = of_pattern w (bit_xor (v / 2) ((2 ^ w - bit_and v 1) % 2 ^ w))

abbrev pub encode_zigzag32 : ℤ → ℕ
encode_zigzag32 = encode_zigzag 32

abbrev pub encode_zigzag64 : ℤ → ℕ
encode_zigzag64 = encode_zigzag 64

abbrev pub decode_zigzag32 : ℕ → ℤ
decode_zigzag32 = decode_zigzag 32

abbrev pub decode_zigzag64 : ℕ → ℤ
decode_zigzag64 = decode_zigzag 64

module _ (fill : ℕ) (host : Endian) where
  -- The common text of `writeFint16` to `writeFuint64`, for `w` bytes.
  pub write_fixed : ℕ → ℕ → M (Unit {0})
  write_fixed w value s =
      let v = if not (same_endian s.endian host) then byteswap w value else value in
      write fill (to_memory host w v) s

  abbrev pub write_fint8 : ℕ → M (Unit {0})
  write_fint8 value = write fill (to_memory host 1 value)

  abbrev pub write_fuint8 : ℕ → M (Unit {0})
  write_fuint8 value = write fill (to_memory host 1 value)

  abbrev pub write_fint16 : ℕ → M (Unit {0})
  write_fint16 = write_fixed 2

  abbrev pub write_fuint16 : ℕ → M (Unit {0})
  write_fuint16 = write_fixed 2

  abbrev pub write_fint32 : ℕ → M (Unit {0})
  write_fint32 = write_fixed 4

  abbrev pub write_fuint32 : ℕ → M (Unit {0})
  write_fuint32 = write_fixed 4

  abbrev pub write_fint64 : ℕ → M (Unit {0})
  write_fint64 = write_fixed 8

  abbrev pub write_fuint64 : ℕ → M (Unit {0})
  write_fuint64 = write_fixed 8

  -- The common text of `writeUint32` and `writeUint64`, whose `tmp` has `slots` bytes.
  pub write_varint : ℕ → ℕ → M (Unit {0})
  write_varint slots value s = elim (groups slots value) [
    | ok bytes ↦ write fill bytes s
    | err e ↦ (err e, s)
  ]

  abbrev pub write_uint32 : ℕ → M (Unit {0})
  write_uint32 = write_varint 5

  abbrev pub write_uint64 : ℕ → M (Unit {0})
  write_uint64 = write_varint 10

  abbrev pub write_int32 : ℤ → M (Unit {0})
  write_int32 value = write_uint32 (encode_zigzag32 value)

  abbrev pub write_int64 : ℤ → M (Unit {0})
  write_int64 value = write_uint64 (encode_zigzag64 value)

  -- `value.size()` is cut to the width of the length field; the bytes are not.
  pub write_string_f16 : List ℕ → M (Unit {0})
  write_string_f16 value = write_fuint16 (length value % 2 ^ 16) >> write fill value

  pub write_string_f32 : List ℕ → M (Unit {0})
  write_string_f32 value = write_fuint32 (length value % 2 ^ 32) >> write fill value

  pub write_string_f64 : List ℕ → M (Unit {0})
  write_string_f64 value = write_fint64 (length value) >> write fill value

  pub write_string_vint : List ℕ → M (Unit {0})
  write_string_vint value = write_uint64 (length value) >> write fill value

  abbrev pub write_string_without_length : List ℕ → M (Unit {0})
  write_string_without_length value = write fill value

-- The body of the loop of `readUint32` and `readUint64` at a byte `v` read: the last byte ends the
-- loop, any other goes on by `next`.
abbrev pub read_group : ℕ → ℕ → ℕ → (ℕ → M ℕ) → ℕ → M ℕ
read_group w i result next v =
    let more = next (bit_or result (bit_and v 0x7f * 2 ^ i % 2 ^ w)) in
    if ltb v 0x80 then pure (bit_or result (v * 2 ^ i % 2 ^ w)) else more

module _ (host : Endian) where
  -- The macro XX of the fixed readers, for a type of `w` bytes.
  pub read_fixed : ℕ → M ℕ
  read_fixed w = read w >>= λ bytes s.
      let v = from_memory host bytes in
      (ok (if same_endian s.endian host then v else byteswap w v), s)

  abbrev pub read_fint8 : M ℕ
  read_fint8 = read 1 >>= λ bytes. pure (from_memory host bytes)

  abbrev pub read_fuint8 : M ℕ
  read_fuint8 = read 1 >>= λ bytes. pure (from_memory host bytes)

  abbrev pub read_fint16 : M ℕ
  read_fint16 = read_fixed 2

  abbrev pub read_fuint16 : M ℕ
  read_fuint16 = read_fixed 2

  abbrev pub read_fint32 : M ℕ
  read_fint32 = read_fixed 4

  abbrev pub read_fuint32 : M ℕ
  read_fuint32 = read_fixed 4

  abbrev pub read_fint64 : M ℕ
  read_fint64 = read_fixed 8

  abbrev pub read_fuint64 : M ℕ
  read_fuint64 = read_fixed 8

  -- The loop of `readUint32` and `readUint64` at width `w`: `i` runs over 0, 7, 14, … below `w`,
  -- which is 5 or 10 rounds.
  pub read_groups : ℕ → ℕ → ℕ → ℕ → M ℕ
  read_groups w zero i result = pure result
  read_groups w (suc rounds) i result =
      read_fint8 >>= read_group w i result (read_groups w rounds (i + 7))

  abbrev pub read_uint32 : M ℕ
  read_uint32 = read_groups 32 5 0 0

  abbrev pub read_uint64 : M ℕ
  read_uint64 = read_groups 64 10 0 0

  abbrev pub read_int32 : M ℤ
  read_int32 = read_uint32 >>= λ v. pure (decode_zigzag32 v)

  abbrev pub read_int64 : M ℤ
  read_int64 = read_uint64 >>= λ v. pure (decode_zigzag64 v)

  abbrev pub read_string_f16 : M (List ℕ)
  read_string_f16 = read_fuint16 >>= read

  abbrev pub read_string_f32 : M (List ℕ)
  read_string_f32 = read_fuint32 >>= read

  abbrev pub read_string_f64 : M (List ℕ)
  read_string_f64 = read_fuint64 >>= read

  abbrev pub read_string_vint : M (List ℕ)
  read_string_vint = read_uint64 >>= read
