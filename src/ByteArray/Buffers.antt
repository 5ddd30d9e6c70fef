-- ===== src/ByteArray/Buffers.antt =====
-- src/network/bytearray.cc: `getReadBuffers`, which hands out the memory of the chain without copying,
-- and `toString`. A pointer into the memory of a node is the place of the node and an offset.
use hpgs.Prelude.{ℕ, zero, suc, ◌-◌, ◌/◌, ◌%◌, ◌≡◌}
use hpgs.Prelude.{List, [], ◌∷◌, ◌++◌, drop, length, ltb, leb, ◌==◌, if◌then◌else◌, sub64}
use hpgs.ByteArray.{
  ByteArray, Node, Result, ok, err, null_deref, div_by_zero, copy_out, head_size, read_at,
  get_read_size,
}

-- `iovec`: `iov_base` is the byte at `offset` of the node `node`.
pub record Iovec : Type 0 where
  pub node : ℕ
  pub offset : ℕ
  pub iov_len : ℕ

abbrev pub iovec : ℕ → ℕ → ℕ → Iovec
iovec node offset iov_len = record { node = node; offset = offset; iov_len = iov_len }

abbrev pub after_buffer : Iovec → Result (List Iovec) → Result (List Iovec)
after_buffer iov (ok more) = ok (iov ∷ more)
after_buffer iov (err e) = err e

-- The loop of both `getReadBuffers`, at the node `cur`.
unfoldable pub buffers_loop : List Node → ℕ → ℕ → ℕ → ℕ → Result (List Iovec)
buffers_loop [] cur npos ncap len = if len == 0 then ok [] else err null_deref
buffers_loop (n ∷ rest) cur npos ncap len =
    let more =
      after_buffer (iovec cur npos ncap)
        (buffers_loop rest (suc cur) 0 (head_size rest) (len - ncap)) in
    if len == 0 then ok [] else if leb len ncap then ok (iovec cur npos len ∷ []) else more

-- The loop started in the node `cur`, the first of some nodes.
unfoldable pub buffers_from : ByteArray → ℕ → ℕ → ℕ → List Node → Result (List Iovec)
buffers_from s len position cur [] = err null_deref
buffers_from s len position cur (n ∷ rest) =
    let npos = position % s.base_size in
    buffers_loop (n ∷ rest) cur npos (sub64 (length n) npos) len

-- `len > getReadSize() ? getReadSize() : len`
abbrev pub read_len : ByteArray → ℕ → ℕ
read_len s len = if ltb (get_read_size s) len then get_read_size s else len

abbrev pub with_len : ℕ → Result (List Iovec) → Result (ℕ × List Iovec)
with_len len (ok buffers) = ok (len, buffers)
with_len len (err e) = err e

-- `getReadBuffers(buffers, len)`: what it returns, and the buffers.
unfoldable pub get_read_buffers : ByteArray → ℕ → Result (ℕ × List Iovec)
get_read_buffers s len =
    if read_len s len == 0
    then ok (0, [])
    else if s.base_size == 0
    then err div_by_zero
    else with_len (read_len s len)
        (buffers_from s (read_len s len) s.position s.cur (drop s.cur s.nodes))

-- `getReadBuffers(buffers, len, position)`: the node is found from `m_root` on.
pub get_read_buffers_at : ByteArray → ℕ → ℕ → Result (ℕ × List Iovec)
get_read_buffers_at s len position =
    if read_len s len == 0
    then ok (0, [])
    else if s.base_size == 0
    then err div_by_zero
    else with_len (read_len s len) (
        buffers_from s (read_len s len) position (position / s.base_size)
          (drop (position / s.base_size) s.nodes))

-- `toString`.
pub to_string : ByteArray → Result (List ℕ)
to_string s = if get_read_size s == 0 then ok [] else read_at s (get_read_size s) s.position

abbrev pub node_at : List Node → ℕ → Node
node_at [] i = []
node_at (n ∷ nodes) zero = n
node_at (n ∷ nodes) (suc i) = node_at nodes i

-- The bytes that are seen through a buffer, in the memory of the chain.
abbrev pub behind : List Node → Iovec → List ℕ
behind nodes v = copy_out (node_at nodes v.node) v.offset v.iov_len

abbrev pub all_behind : List Node → List Iovec → List ℕ
all_behind nodes [] = []
all_behind nodes (v ∷ vs) = behind nodes v ++ all_behind nodes vs

module _ (nodes : List Node) where
  -- Through the buffers the bytes are seen that the loop of `read` copies.
  abbrev Agree : Result (List ℕ × ℕ × ℕ) → Result (List Iovec) → Type 0
  Agree (ok (out, c, p)) (ok buffers) = out ≡ all_behind nodes buffers
  Agree (err e) (err e') = e ≡ e'
  Agree (ok r) (err e) = ⊥
  Agree (err e) (ok buffers) = ⊥
