-- ===== src/ByteArray/Codec/Tests.antt =====
-- Concrete runs of the codecs, and their theorems at concrete buffers.
use hpgs.Prelude.{ℕ, ◌≡◌, refl, arith, List, [], ◌∷◌}
use hpgs.Prelude.Int.{negsuc}
use hpgs.ByteArray.{ByteArray, little, big, ok}
use hpgs.ByteArray.Inv.{IsValid}
use hpgs.ByteArray.Codec.{write_int64}
use hpgs.ByteArray.Codec.{read_int64, groups, encode_zigzag}
use hpgs.ByteArray.Codec.{decode_zigzag, byteswap, to_le, from_le}
use hpgs.ByteArray.Codec.RoundTrip.{then_back}
use hpgs.ByteArray.Codec.RoundTrip.{int64_round_trip}

-- A node of two bytes, so that each value lies across nodes.
abbrev buffer : ByteArray
buffer = record {
  base_size = 2;
  position = 1;
  capacity = 2;
  size = 1;
  endian = big;
  nodes = (7 ∷ 0 ∷ []) ∷ [];
  cur = 0;
}

buffer-IsValid : IsValid buffer
buffer-IsValid = omega arith

groups_300 : groups 5 300 ≡ ok (0xac ∷ 0x02 ∷ [])
unfolding groups
groups_300 = refl

zigzag_least : encode_zigzag 32 (negsuc 0x7fff_ffff) ≡ 0xffff_ffff
unfolding encode_zigzag
zigzag_least = refl

unzigzag : decode_zigzag 32 5 ≡ negsuc 2
unfolding decode_zigzag
unzigzag = refl

swapped : byteswap 4 0x0102_0304 ≡ 0x0403_0201
unfolding byteswap to_le from_le
swapped = refl

int64_round_trip_example :
    then_back (write_int64 0 little (negsuc 41)) (read_int64 little) buffer ≡ ok (negsuc 41)
int64_round_trip_example =
    int64_round_trip 0 little little buffer buffer-IsValid (negsuc 41) (omega arith) (omega arith)

abbrev word : List ℕ
word = 104 ∷ 112 ∷ 103 ∷ 115 ∷ []
