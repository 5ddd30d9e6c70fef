-- ===== src/ByteArray/Tests.antt =====
-- Concrete runs of a ByteArray, and its theorems at concrete buffers.
use hpgs.Prelude.{◌+◌, ◌^◌, ◌≡◌, refl, arith, [], ◌∷◌, inl}
use hpgs.ByteArray.{ByteArray, big, ok, write, read}
use hpgs.ByteArray.{write_loop, read_loop, add_capacity, append_nodes, new_node}
use hpgs.ByteArray.{read_from, write_at, ceil_div}
use hpgs.ByteArray.Inv.{IsValid, flat}
use hpgs.ByteArray.Write.{IsWritten, write-IsWritten}
use hpgs.ByteArray.Read.{IsTaken, read-IsTaken}
use hpgs.ByteArray.Buffers.{get_read_buffers, buffers_loop, buffers_from, iovec}
use hpgs.ByteArray.RoundTrip.{write_then_read, write_then_read_lem}

-- Six bytes in two nodes of four, with the position at the third byte.
abbrev sample : ByteArray
sample = record {
  base_size = 4;
  position = 2;
  capacity = 8;
  size = 6;
  endian = big;
  nodes = (1 ∷ 2 ∷ 3 ∷ 4 ∷ []) ∷ (5 ∷ 6 ∷ 0 ∷ 0 ∷ []) ∷ [];
  cur = 0;
}

abbrev full : ByteArray
full = record sample { position = 8; size = 8; cur = 2 }

sample-IsValid : IsValid sample
sample-IsValid = omega arith

full-IsValid : IsValid full
full-IsValid = omega arith

-- A write across two borders takes a new node.
write_seven :
    flat (write 0 (11 ∷ 12 ∷ 13 ∷ 14 ∷ 15 ∷ 16 ∷ 17 ∷ []) sample).1.nodes
    ≡ 1 ∷ 2 ∷ 11 ∷ 12 ∷ 13 ∷ 14 ∷ 15 ∷ 16 ∷ 17 ∷ 0 ∷ 0 ∷ 0 ∷ []
unfolding write add_capacity append_nodes new_node write_at write_loop ceil_div
write_seven = refl

read_four : (read 4 sample).0 ≡ ok (3 ∷ 4 ∷ 5 ∷ 6 ∷ [])
unfolding read read_from read_loop
read_four = refl

write-IsWritten_example :
    ((write 9 (7 ∷ 8 ∷ 9 ∷ []) sample).0 ≡ ok tt)
    × IsWritten 9 (7 ∷ 8 ∷ 9 ∷ []) sample (write 9 (7 ∷ 8 ∷ 9 ∷ []) sample).1
write-IsWritten_example =
    write-IsWritten 9 (7 ∷ 8 ∷ 9 ∷ []) sample sample-IsValid (omega arith) (omega arith)

read-IsTaken_example :
    ((read 3 sample).0 ≡ ok (3 ∷ 4 ∷ 5 ∷ [])) × IsTaken 3 sample (read 3 sample).1
read-IsTaken_example = read-IsTaken 3 sample sample-IsValid (omega arith) (inl (omega arith))

write_then_read_lem_example :
    let out = write_then_read 0 (7 ∷ 8 ∷ 9 ∷ []) 3 sample in
    (out.0 ≡ ok (7 ∷ 8 ∷ 9 ∷ [])) × IsValid out.1 × (out.1.position ≡ 5)
write_then_read_lem_example =
    write_then_read_lem 0 (7 ∷ 8 ∷ 9 ∷ []) sample sample-IsValid (omega arith) (omega arith)
      (omega arith)

-- The two nodes give two buffers.
hands_out : get_read_buffers sample 9 ≡ ok (4, iovec 0 2 2 ∷ iovec 1 0 2 ∷ [])
unfolding get_read_buffers buffers_from buffers_loop
hands_out = refl

-- Of 2 ^ 53 + 1 bytes in nodes of one byte the doubles lose one; 3 bytes more than 2 ^ 54 become 4.
doubles :
    (ceil_div (2 ^ 53 + 1) 1 ≡ 2 ^ 53)
    × (ceil_div (2 ^ 54 + 3) 1 ≡ 2 ^ 54 + 4)
    × (ceil_div (2 ^ 53 + 2) 4096 ≡ 2 ^ 41 + 1)
unfolding ceil_div
doubles = (refl, refl, refl)
