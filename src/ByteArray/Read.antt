-- ===== src/ByteArray/Read.antt =====
-- `ByteArray::read` against the flat bytes: it returns the slice at the position, and moves behind it.
use hpgs.Prelude.{
  ℕ, zero, suc, ◌⊎◌, drop_all, ◌+◌, ◌*◌, ◌-◌, ◌^◌, ◌≤◌, ◌<◌, ◌≡◌, refl, ap, ap₂, sym, ◌∙◌, arith,
}
use hpgs.Prelude.{List, [], ◌∷◌, false, inl, inr, true}
use hpgs.Prelude.{length, take, drop, All, All-drop}
use hpgs.Prelude.{ltb, ◌==◌, sub64}
use hpgs.ByteArray.{ByteArray, Node, Result, ok, err, out_of_range, read_from, read}
use hpgs.ByteArray.{commit_read, get_read_size, null_deref}
use hpgs.ByteArray.Inv.{IsNode, flat, IsValid, slice, flat-take, flat-split, slice-append}
use hpgs.ByteArray.Inv.{offset_lem, cur-le, tail_bytes}
use native.Mathlib.Nat.{mul-le-mul_right, lt_of_mul-lt-mul_right}
use mathlib.Core.Path.{subst}
use hpgs.ByteArray.ReadLoop.{IsRead, read_loop-IsRead, read_loop_nothing}

-- What `read(size)` leaves behind.
pub record IsTaken (size : ℕ) (s t : ByteArray) : Type 0 where
  pub valid : IsValid t
  pub position : t.position ≡ s.position + size
  pub same_nodes : t.nodes ≡ s.nodes
  pub same_size : t.size ≡ s.size
  pub same_capacity : t.capacity ≡ s.capacity
  pub same_endian : t.endian ≡ s.endian
  pub same_base : t.base_size ≡ s.base_size

-- The loop started at a position `at` within the node that `m_cur` is.
module _ (s : ByteArray) (v : IsValid s) (size : ℕ) (some_left : 0 < size)
    (room : s.position + size ≤ s.size) where
  read_from-IsRead :
      (tail : List Node)
      → drop s.cur s.nodes ≡ tail
      → IsRead s.base_size tail
          (s.position - s.cur * s.base_size)
          size
          s.cur
          s.position
          (read_from s size s.position tail)
  unfolding read_from
  read_from-IsRead [] e = absurd (
      omega (
        arith,
        ap (λ (x : List Node). length x * s.base_size) e,
        tail_bytes v,
        v.cur_lo,
        v.cur_hi,
        v.size_le,
        v.cap_eq,
      ))
  read_from-IsRead (n ∷ rest) e =
      rw (offset_lem v, ncap_lem)
        (read_loop-IsRead s.base_size (n ∷ rest) npos (length n - npos) size s.cur s.position chunks
          refl (omega (arith, v.cur_lo, v.cur_hi))
          (omega (
            arith,
            tail_bytes v,
            ap (λ (x : List Node). length x * s.base_size) e,
            v.cur_lo,
            v.size_le,
          ))
          some_left (omega (arith, v.cap_small, v.size_le)) base_small)
    where
      npos : ℕ
      npos = s.position - s.cur * s.base_size

      chunks : All (IsNode s.base_size) (n ∷ rest)
      chunks =
          subst (All (IsNode s.base_size)) e (All-drop (IsNode s.base_size) s.cur s.nodes v.chunks)

      base_small : s.base_size < 2 ^ 64
      base_small = omega (
        arith,
        v.cap_small,
        v.cap_eq,
        v.rooted,
        mul-le-mul_right {n = length s.nodes} s.base_size v.rooted,
      )

      ncap_lem :
          sub64 (length n) (s.position - s.cur * s.base_size)
          ≡ length n - (s.position - s.cur * s.base_size)
      ncap_lem = omega (arith, chunks.0, v.cur_hi, v.cur_lo, base_small)

  slice-tail :
      slice (s.position - s.cur * s.base_size) size (flat (drop s.cur s.nodes))
      ≡ slice s.position size (flat s.nodes)
  slice-tail =
      sym (slice-append front (flat (drop s.cur s.nodes)) (s.position - s.cur * s.base_size) size)
      ∙ ap₂ (λ i x. slice i size x) {y = s.position}
          (omega (arith, flat-take s.base_size s.cur s.nodes v.chunks (cur-le v), v.cur_lo))
          (sym (flat-split s.cur s.nodes))
    where
      front : List ℕ
      front = flat (take s.cur s.nodes)

  commit_read-IsTaken :
      (r : Result (List ℕ × ℕ × ℕ))
      → IsRead s.base_size
          (drop s.cur s.nodes)
          (s.position - s.cur * s.base_size)
          size
          s.cur
          s.position
          r
      → ((commit_read s r).0 ≡ ok (slice s.position size (flat s.nodes)))
        × IsTaken size s (commit_read s r).1
  commit_read-IsTaken (ok (out, c, p)) w = (
    ap ok (w.bytes ∙ slice-tail),
    record {
      valid = record {
        base_pos = v.base_pos;
        chunks = v.chunks;
        rooted = v.rooted;
        cap_eq = v.cap_eq;
        cap_small = v.cap_small;
        size_le = v.size_le;
        pos_le = omega (arith, w.moved);
        cur_lo = omega (arith, w.moved, w.cur_lo, v.cur_lo);
        cur_hi = omega (arith, w.moved, w.cur_hi, v.cur_lo);
      };
      position = w.moved;
      same_nodes = refl;
      same_size = refl;
      same_capacity = refl;
      same_endian = refl;
      same_base = refl;
    },
  )
  commit_read-IsTaken (err e) w = absurd w

read_size-eq : (s : ByteArray) → IsValid s → get_read_size s ≡ s.size - s.position
read_size-eq s v = omega (arith, v.cap_small, v.pos_le, v.size_le)

base_nonzero : (s : ByteArray) → IsValid s → (s.base_size == 0) ≡ false
base_nonzero s v = ground (arith, v.base_pos)

pub IsTaken-nothing : (s : ByteArray) → IsValid s → IsTaken 0 s s
IsTaken-nothing s v = record {
  valid = v;
  position = omega arith;
  same_nodes = refl;
  same_size = refl;
  same_capacity = refl;
  same_endian = refl;
  same_base = refl;
}

read_from_nothing :
    (s : ByteArray) (v : IsValid s) (tail : List Node)
    → s.position < s.capacity
    → drop s.cur s.nodes ≡ tail
    → read_from s 0 s.position tail ≡ ok ([], s.cur, s.position)
unfolding read_from
read_from_nothing s v [] inside e = absurd (
    omega
      (arith, ap (λ (x : List Node). length x * s.base_size) e, tail_bytes v, v.cur_lo, v.cur_hi))
read_from_nothing s v (n ∷ rest) inside e = read_loop_nothing (n ∷ rest) _ _ _ _

-- `read(size)` with that many bytes left returns the slice of the flat bytes at the position, moves
-- the position behind it and changes nothing else. It may ask for no byte, if the position is not
-- the end of the capacity.
pub read-IsTaken :
    (size : ℕ) (s : ByteArray)
    → IsValid s
    → s.position + size ≤ s.size
    → (0 < size) ⊎ (s.position < s.capacity)
    → ((read size s).0 ≡ ok (slice s.position size (flat s.nodes))) × IsTaken size s (read size s).1
unfolding read
read-IsTaken zero s v room (inl none_asked) = absurd (omega arith)
read-IsTaken zero s v room (inr inside) =
    rw (enough, base_nonzero s v, read_from_nothing s v (drop s.cur s.nodes) inside refl)
      (refl, IsTaken-nothing s v)
  where
    enough : ltb (get_read_size s) 0 ≡ false
    enough = ground arith
read-IsTaken (suc k) s v room go =
    rw (enough, base_nonzero s v)
      (commit_read-IsTaken s v (suc k) (omega arith) room _
        (read_from-IsRead s v (suc k) (omega arith) room (drop s.cur s.nodes) refl))
  where
    enough : ltb (get_read_size s) (suc k) ≡ false
    enough = ground (arith, read_size-eq s v)

-- `read(size)` with fewer bytes left than that throws `std::out_of_range` and changes nothing.
pub read_refused :
    (size : ℕ) (s : ByteArray)
    → IsValid s
    → s.size < s.position + size
    → read size s ≡ (err out_of_range, s)
unfolding read
read_refused size s v short = rw refused
  where
    refused : ltb (get_read_size s) size ≡ true
    refused = ground (arith, read_size-eq s v)

-- With the position at the end of the capacity `m_cur` is null, and `read(0)` follows it.
pub read_empty_at_end :
    (s : ByteArray) → IsValid s → s.position ≡ s.capacity → read 0 s ≡ (err null_deref, s)
unfolding read
read_empty_at_end s v full = rw (enough, base_nonzero s v, at_end) refl
  where
    enough : ltb (get_read_size s) 0 ≡ false
    enough = ground arith

    past : length s.nodes < suc s.cur
    past = lt_of_mul-lt-mul_right s.base_size (omega (arith, v.cap_eq, v.cur_hi))

    no_node : drop s.cur s.nodes ≡ []
    no_node = drop_all s.cur s.nodes (omega (arith, past))

    at_end : read_from s 0 s.position (drop s.cur s.nodes) ≡ err null_deref
    at_end = rw no_node (unfold read_from in refl)
