-- ===== src/ByteArray.antt =====
-- src/network/bytearray.cc: a growing byte buffer in a chain of nodes of one size.
-- The chain from `m_root` on is a list, and a pointer to a node is its index: `m_cur` past the last
-- node is the null pointer. `size_t` sums wrap at 2 ^ 64.
pub mod Inv
pub mod WriteLoop
pub mod Write
pub mod Grow
pub mod ReadLoop
pub mod Read
pub mod Buffers
pub mod Position
pub mod RoundTrip
pub mod Codec
mod Tests
use hpgs.Prelude.{ℕ, zero, suc, ◌+◌, ◌-◌, ◌/◌, ◌%◌, Bool, true, false, List, [], ◌∷◌, ◌++◌}
use hpgs.Prelude.{
  ◌*◌, ◌^◌, ◌&&◌, ◌||◌, ltb, leb, ◌==◌, if◌then◌else◌, add64, sub64, length, take, drop, replicate,
}

-- A `Node`: `ptr` points to these bytes, and `size` is their number.
abbrev pub Node : Type 0
Node = List ℕ

-- HPGS_LITTLE_ENDIAN and HPGS_BIG_ENDIAN.
pub data Endian : Type 0 where
  little big : Endian

pub record ByteArray : Type 0 where
  pub base_size : ℕ
  pub position : ℕ
  pub capacity : ℕ
  pub size : ℕ
  pub endian : Endian
  pub nodes : List Node
  pub cur : ℕ

-- `out_of_range` is the exception that the code throws. The others are undefined behaviour: a null
-- pointer that is followed, a division by zero, and a write past the end of a local array.
pub data Fault : Type 0 where
  out_of_range null_deref div_by_zero array_overflow : Fault

pub data Result {ℓ} (A : Type ℓ) : Type ℓ where
  ok : A → Result A
  err : Fault → Result A

-- A method takes the object and leaves it changed, also where it throws.
abbrev pub M : Type 0 → Type 0
M A = ByteArray → Result A × ByteArray

infixl 5 ◌>>=◌ ◌>>◌
abbrev pub ◌>>=◌ : {A B : Type 0} → M A → (A → M B) → M B
◌>>=◌ m f s = let (r, t) = m s in elim r [ ok a ↦ f a t | err e ↦ (err e, t) ]

abbrev pub ◌>>◌ : {B : Type 0} → M (Unit {0}) → M B → M B
m >> k = m >>= λ _. k

abbrev pub pure : {A : Type 0} → A → M A
pure a s = (ok a, s)

-- `isLittleEndian` and `setIsLittleEndian`.
pub is_little_endian : ByteArray → Bool
is_little_endian s = elim s.endian [ little ↦ true | big ↦ false ]

pub set_is_little_endian : Bool → ByteArray → ByteArray
set_is_little_endian val s = record s { endian = if val then little else big }

abbrev pub get_read_size : ByteArray → ℕ
get_read_size s = sub64 s.size s.position

abbrev pub get_capacity : ByteArray → ℕ
get_capacity s = sub64 s.capacity s.position

-- memcpy of `bytes` into a node from offset `npos` on, and out of it.
abbrev pub copy_in : Node → ℕ → List ℕ → Node
copy_in n npos bytes = take npos n ++ (bytes ++ drop (npos + length bytes) n)

abbrev pub copy_out : Node → ℕ → ℕ → List ℕ
copy_out n npos size = take size (drop npos n)

-- `m_cur->size` after `m_cur = m_cur->next`, which the next round of the loop reads.
abbrev pub head_size : List Node → ℕ
head_size [] = 0
head_size (n ∷ rest) = length n

abbrev pub after_write : Node → Result (List Node × ℕ × ℕ) → Result (List Node × ℕ × ℕ)
after_write n (ok (tail, cur, pos)) = ok (n ∷ tail, cur, pos)
after_write n (err e) = err e

-- The loop of `write`, on the chain from `m_cur` on; `buf` is what is not yet written.
pub write_loop : List Node → ℕ → ℕ → List ℕ → ℕ → ℕ → Result (List Node × ℕ × ℕ)
write_loop [] npos ncap buf cur pos = if length buf == 0 then ok ([], cur, pos) else err null_deref
write_loop (n ∷ rest) npos ncap buf cur pos =
    let size = length buf in
    let more =
      after_write (copy_in n npos (take ncap buf))
        (write_loop rest 0 (head_size rest) (drop ncap buf) (cur + 1) (add64 pos ncap)) in
    if size == 0
    then ok (n ∷ rest, cur, pos)
    else if leb size ncap
    then ok (
      copy_in n npos buf ∷ rest,
      (if length n == add64 npos size then cur + 1 else cur),
      add64 pos size,
    )
    else more

abbrev pub after_read : List ℕ → Result (List ℕ × ℕ × ℕ) → Result (List ℕ × ℕ × ℕ)
after_read out (ok (more, cur, pos)) = ok (out ++ more, cur, pos)
after_read out (err e) = err e

-- The loop of both `read`s, which gives the bytes copied to the caller.
pub read_loop : List Node → ℕ → ℕ → ℕ → ℕ → ℕ → Result (List ℕ × ℕ × ℕ)
read_loop [] npos ncap size cur pos = if size == 0 then ok ([], cur, pos) else err null_deref
read_loop (n ∷ rest) npos ncap size cur pos =
    let more =
      after_read (copy_out n npos ncap)
        (read_loop rest 0 (head_size rest) (size - ncap) (cur + 1) (add64 pos ncap)) in
    if size == 0
    then ok ([], cur, pos)
    else if leb size ncap
    then ok (
      copy_out n npos size,
      (if length n == add64 npos size then cur + 1 else cur),
      add64 pos size,
    )
    else more

-- `if(m_position > m_size) m_size = m_position`
abbrev pub raise_size : ByteArray → ByteArray
raise_size s = record s { size = if ltb s.size s.position then s.position else s.size }

-- What `write` stores in the object when its loop is done.
abbrev pub commit_write : ByteArray → Result (List Node × ℕ × ℕ) → Result (Unit {0}) × ByteArray
commit_write s (ok (tail, c, p)) =
    (ok tt, raise_size (record s { nodes = take s.cur s.nodes ++ tail; cur = c; position = p }))
commit_write s (err e) = (err e, s)

-- The second half of `write`, from `npos` on, at what `m_cur` points to.
pub write_at : ByteArray → List ℕ → List Node → Result (Unit {0}) × ByteArray
write_at s buf [] = (err null_deref, s)
write_at s buf (n ∷ rest) =
    let npos = s.position % s.base_size in
    commit_write s (write_loop (n ∷ rest) npos (sub64 (length n) npos) buf s.cur s.position)

-- `write` behind its call of `addCapacity`.
abbrev pub write_body : List ℕ → M (Unit {0})
write_body buf s =
    if s.base_size == 0 then (err div_by_zero, s) else write_at s buf (drop s.cur s.nodes)

pub read_from : ByteArray → ℕ → ℕ → List Node → Result (List ℕ × ℕ × ℕ)
read_from s size position [] = err null_deref
read_from s size position (n ∷ rest) =
    let npos = position % s.base_size in
    read_loop (n ∷ rest) npos (sub64 (length n) npos) size s.cur position

abbrev pub commit_read : ByteArray → Result (List ℕ × ℕ × ℕ) → Result (List ℕ) × ByteArray
commit_read s (ok (out, c, p)) = (ok out, record s { cur = c; position = p })
commit_read s (err e) = (err e, s)

abbrev pub bytes_read : Result (List ℕ × ℕ × ℕ) → Result (List ℕ)
bytes_read (ok (out, c, p)) = ok out
bytes_read (err e) = err e

-- `read(buf, size)`; it throws before it changes anything.
pub read : ℕ → M (List ℕ)
read size s =
    if ltb (get_read_size s) size
    then (err out_of_range, s)
    else if s.base_size == 0
    then (err div_by_zero, s)
    else commit_read s (read_from s size s.position (drop s.cur s.nodes))

-- `read(buf, size, position) const`: it starts at `m_cur`, whatever `position` is.
pub read_at : ByteArray → ℕ → ℕ → Result (List ℕ)
read_at s size position =
    if ltb (sub64 s.size position) size
    then err out_of_range
    else if s.base_size == 0
    then err div_by_zero
    else bytes_read (read_from s size position (drop s.cur s.nodes))

-- The loop of `setPosition`, and the test after it.
pub seek : List Node → ℕ → ℕ → Result ℕ
seek [] v i = err null_deref
seek (n ∷ rest) v i =
    let more = seek rest (v - length n) (i + 1) in
    if ltb (length n) v then more else ok (if v == length n then i + 1 else i)

abbrev pub commit_seek : ByteArray → Result ℕ → Result (Unit {0}) × ByteArray
commit_seek s (ok c) = (ok tt, record s { cur = c })
commit_seek s (err e) = (err e, s)

pub set_position : ℕ → M (Unit {0})
set_position v s =
    if ltb s.capacity v
    then (err out_of_range, s)
    else commit_seek (raise_size (record s { position = v })) (seek s.nodes v 0)

-- The nodes after the root are freed.
pub clear : ByteArray → ByteArray
clear s = record s {
  position = 0;
  size = 0;
  capacity = s.base_size;
  nodes = take 1 s.nodes;
  cur = 0;
}

abbrev pub exact_ceil : ℕ → ℕ → ℕ
exact_ceil n d = (n + (d - 1)) / d

-- A quotient rounded to the nearest integer, of two to the even one.
abbrev pub nearest : ℕ → ℕ → ℕ
nearest n d =
    let q = n / d in
    let twice = n % d * 2 in if ltb d twice || twice == d && q % 2 == 1 then q + 1 else q

-- The least power of two from `step` on that brings `n / d` below 2 ^ 53, and the greatest up to there that
-- keeps it below.
abbrev pub step_down : ℕ → ℕ → ℕ → ℕ → ℕ
step_down zero n d step = step
step_down (suc k) n d step =
    let rest = step_down k n d (step * 2) in if ltb n (d * step * 2 ^ 53) then step else rest

abbrev pub step_up : ℕ → ℕ → ℕ → ℕ → ℕ
step_up zero n d step = step
step_up (suc k) n d step =
    let rest = step_up k n d (step * 2) in if ltb (n * step * 2) (d * 2 ^ 53) then rest else step

-- `ceil` of a quotient of integers in doubles, which have 53 bits. Below 2 ^ 53 they have one bit at least
-- behind the point, and the powers of two are at most 2 ^ 12 and 2 ^ 117.
abbrev pub ceil_quotient : ℕ → ℕ → ℕ
ceil_quotient n d =
    let down = step_down 64 n d 1 in
    let up = step_up 117 n d 1 in
    if ltb n (d * 2 ^ 53) then exact_ceil (nearest (n * up) d) up else nearest n (d * down) * down

-- The conversion of a `size_t` to a double.
abbrev pub to_double : ℕ → ℕ
to_double n = let step = step_down 12 n 1 1 in nearest n step * step

-- `ceil(1.0 * size / m_baseSize)`. Below 2 ^ 53 the size is a double, and a quotient that is not whole is
-- further from the next integer than doubles of its size are from each other, so the result is exact;
-- from there on it is computed with both roundings.
unfoldable pub ceil_div : ℕ → ℕ → ℕ
ceil_div size base =
    if ltb size (2 ^ 53)
    then exact_ceil size base
    else ceil_quotient (to_double size) (to_double base)

-- `fill` is what a byte of fresh memory happens to hold.
module _ (fill : ℕ) where
  pub new_node : ℕ → Node
  new_node s = replicate s fill

  -- The constructor.
  pub new_byte_array : ℕ → ByteArray
  new_byte_array base_size = record {
    base_size = base_size;
    position = 0;
    capacity = base_size;
    size = 0;
    endian = big;
    nodes = new_node base_size ∷ [];
    cur = 0;
  }

  -- The loop of `addCapacity`.
  pub append_nodes : ℕ → ByteArray → ByteArray
  append_nodes zero s = s
  append_nodes (suc count) s = append_nodes count (record s {
    nodes = s.nodes ++ (new_node s.base_size ∷ []);
    capacity = add64 s.capacity s.base_size;
  })

  pub add_capacity : ℕ → M (Unit {0})
  add_capacity size s =
      let old_cap = get_capacity s in
      if size == 0
      then (ok tt, s)
      else if leb size old_cap
      then (ok tt, s)
      else if s.base_size == 0
      then (err div_by_zero, s)
      else let t = append_nodes (ceil_div (size - old_cap) s.base_size) s in
        (ok tt, if old_cap == 0 then record t { cur = length s.nodes } else t)

  pub write : List ℕ → M (Unit {0})
  write buf s =
      if length buf == 0 then (ok tt, s) else (add_capacity (length buf) >> write_body buf) s
