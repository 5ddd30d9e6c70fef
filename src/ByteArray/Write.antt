-- ===== src/ByteArray/Write.antt =====
-- `ByteArray::write` against the flat bytes: it overwrites in place, behind whatever room it adds.
use hpgs.Prelude.{ℕ, ◌+◌, ◌*◌, ◌-◌, ◌^◌, ◌≤◌, ◌<◌, ◌≡◌, refl, ap, ap₂, sym, ◌∙◌, arith, max}
use hpgs.Prelude.{List, [], ◌∷◌, ◌++◌, false, append-nil}
use hpgs.Prelude.{length, take, drop, replicate, All, length-append, length-take, length-drop}
use hpgs.Prelude.{All-append, All-take, All-drop}
use hpgs.Prelude.{◌==◌, sub64}
use hpgs.ByteArray.{ByteArray, Node, Result, ok, err, write_at, write, add_capacity}
use hpgs.ByteArray.{commit_write, raise_size, write_body, ◌>>◌}
use hpgs.ByteArray.Inv.{IsNode, flat, IsValid, splice, flat-append, flat-take, flat-split}
use hpgs.ByteArray.Inv.{splice-append, splice_nil, offset_lem, cur-le, tail_bytes}
use native.Mathlib.Nat.{mul-le-mul_right}
use mathlib.Core.Path.{subst}
use hpgs.ByteArray.WriteLoop.{Wrote, WroteTo, write_loop-Wrote}
use hpgs.ByteArray.Grow.{IsGrown, add_capacity-IsGrown}

-- `t` is `s` with `buf` written at the position, with no new node.
pub record IsOverwritten (buf : List ℕ) (s t : ByteArray) : Type 0 where
  pub valid : IsValid t
  pub bytes : flat t.nodes ≡ splice s.position buf (flat s.nodes)
  pub position : t.position ≡ s.position + length buf
  pub size : t.size ≡ max s.size (s.position + length buf)
  pub same_capacity : t.capacity ≡ s.capacity
  pub same_endian : t.endian ≡ s.endian
  pub same_base : t.base_size ≡ s.base_size

module _ (s : ByteArray) (v : IsValid s) (buf : List ℕ)
    (room : s.position + length buf ≤ s.capacity) where
  npos : ℕ
  npos = s.position - s.cur * s.base_size

  overwritten :
      (tail t : List Node) (c p : ℕ)
      → drop s.cur s.nodes ≡ tail
      → WroteTo s.base_size tail npos buf s.cur s.position t c p
      → IsOverwritten buf s
          (raise_size (record s { nodes = take s.cur s.nodes ++ t; cur = c; position = p }))
  unfolding npos
  overwritten tail t c p e w = record {
    valid = record {
      base_pos = v.base_pos;
      chunks =
          All-append (IsNode s.base_size) (take s.cur s.nodes) t
            (All-take (IsNode s.base_size) s.cur s.nodes v.chunks) w.chunks;
      rooted = rw same_nodes v.rooted;
      cap_eq = rw same_nodes v.cap_eq;
      cap_small = v.cap_small;
      pos_le = ground (arith, w.moved);
      size_le = ground (arith, w.moved, v.size_le);
      cur_lo = omega (arith, w.cur_lo, w.moved, v.cur_lo);
      cur_hi = omega (arith, w.cur_hi, w.moved, v.cur_lo);
    };
    bytes = flat-append (take s.cur s.nodes) t ∙ ap (λ x. front ++ x) w.bytes ∙ sym whole;
    position = w.moved;
    size = ground (arith, w.moved);
    same_capacity = refl;
    same_endian = refl;
    same_base = refl;
  }
    where
      front : List ℕ
      front = flat (take s.cur s.nodes)

      same_nodes : length (take s.cur s.nodes ++ t) ≡ length s.nodes
      same_nodes = omega (
        arith,
        length-append (take s.cur s.nodes) t,
        length-take s.cur s.nodes,
        length-drop s.cur s.nodes,
        w.same,
        ap length e,
        cur-le v,
      )

      length-front : length front ≡ s.cur * s.base_size
      length-front = flat-take s.base_size s.cur s.nodes v.chunks (cur-le v)

      at : s.position ≡ length front + (s.position - s.cur * s.base_size)
      at = omega (arith, length-front, v.cur_lo)

      whole :
          splice s.position buf (flat s.nodes)
          ≡ front ++ splice (s.position - s.cur * s.base_size) buf (flat tail)
      whole =
          ap₂ (λ i x. splice i buf x) at (flat-split s.cur s.nodes ∙ ap (λ x. front ++ flat x) e)
          ∙ splice-append front (flat tail) buf (s.position - s.cur * s.base_size)

  commit :
      (tail : List Node) (r : Result (List Node × ℕ × ℕ))
      → drop s.cur s.nodes ≡ tail
      → Wrote s.base_size tail npos buf s.cur s.position r
      → ((commit_write s r).0 ≡ ok tt) × IsOverwritten buf s (commit_write s r).1
  commit tail (ok (t, c, p)) e w = (refl, overwritten tail t c p e w)
  commit tail (err x) e w = absurd w

  write_at-IsOverwritten :
      (tail : List Node)
      → drop s.cur s.nodes ≡ tail
      → 0 < length buf
      → ((write_at s buf tail).0 ≡ ok tt) × IsOverwritten buf s (write_at s buf tail).1
  unfolding write_at npos
  write_at-IsOverwritten [] e some_left = absurd (
      omega (
        arith,
        ap (λ (x : List Node). length x * s.base_size) e,
        tail_bytes v,
        v.cur_lo,
        v.cur_hi,
        v.cap_eq,
      ))
  write_at-IsOverwritten (n ∷ rest) e some_left =
      rw (offset_lem v, ncap_lem)
        (commit (n ∷ rest) _ e (
          write_loop-Wrote s.base_size (n ∷ rest) npos (length n - npos) buf s.cur s.position chunks
            refl (omega (arith, v.cur_lo, v.cur_hi))
            (omega (
              arith,
              tail_bytes v,
              ap (λ (x : List Node). length x * s.base_size) e,
              v.cur_lo,
              room,
            ))
            some_left (omega (arith, v.cap_small, room)) base_small))
    where
      chunks : All (IsNode s.base_size) (n ∷ rest)
      chunks =
          subst (All (IsNode s.base_size)) e (All-drop (IsNode s.base_size) s.cur s.nodes v.chunks)

      base_small : s.base_size < 2 ^ 64
      base_small = omega (
        arith,
        v.cap_small,
        v.cap_eq,
        v.rooted,
        mul-le-mul_right {n = length s.nodes} s.base_size v.rooted,
      )

      ncap_lem :
          sub64 (length n) (s.position - s.cur * s.base_size)
          ≡ length n - (s.position - s.cur * s.base_size)
      ncap_lem = omega (arith, chunks.0, v.cur_hi, v.cur_lo, base_small)

-- What `write(buf)` leaves behind: the bytes from the position on are `buf`, in a chain that grew by
-- fresh bytes if it had to.
pub record IsWritten (fill : ℕ) (buf : List ℕ) (s t : ByteArray) : Type 0 where
  pub valid : IsValid t
  pub bytes :
      flat t.nodes
      ≡ splice s.position buf (flat s.nodes ++ replicate (t.capacity - s.capacity) fill)
  pub position : t.position ≡ s.position + length buf
  pub size : t.size ≡ max s.size (s.position + length buf)
  pub grows : s.capacity ≤ t.capacity
  pub same_endian : t.endian ≡ s.endian
  pub same_base : t.base_size ≡ s.base_size

grown-overwritten :
    (fill : ℕ) (buf : List ℕ) (s t u : ByteArray)
    → IsGrown fill (length buf) s t
    → IsOverwritten buf t u
    → IsWritten fill buf s u
grown-overwritten fill buf s t u g o = record {
  valid = o.valid;
  bytes =
      o.bytes
      ∙ ap₂ (λ i x. splice i buf x) g.same_position g.bytes
      ∙ ap (λ (c : ℕ). splice s.position buf (flat s.nodes ++ replicate (c - s.capacity) fill))
          (sym o.same_capacity);
  position = omega (arith, o.position, g.same_position);
  size = omega (arith, o.size, g.same_position, g.same_size);
  grows = omega (arith, o.same_capacity, g.grows);
  same_endian = o.same_endian ∙ g.same_endian;
  same_base = o.same_base ∙ g.same_base;
}

unwritten : (fill : ℕ) (s : ByteArray) → IsValid s → IsWritten fill [] s s
unwritten fill s v = record {
  valid = v;
  bytes =
      sym (append-nil (flat s.nodes))
      ∙ ap (λ n. flat s.nodes ++ replicate n fill) {x = 0} (omega arith)
      ∙ sym (splice_nil s.position (flat s.nodes ++ replicate (s.capacity - s.capacity) fill));
  position = omega arith;
  size = omega (arith, v.pos_le);
  grows = omega arith;
  same_endian = refl;
  same_base = refl;
}

write_grown :
    (fill : ℕ) (buf : List ℕ) (s t : ByteArray) (r : Result (Unit {0}))
    → 0 < length buf
    → r ≡ ok tt
    → IsGrown fill (length buf) s t
    → let out = ((λ (u : ByteArray). (r, t)) >> write_body buf) s in
      (out.0 ≡ ok tt) × IsWritten fill buf s out.1
write_grown fill buf s t (ok tt) some_left e g = rw nonzero (
    let (done, over) =
      write_at-IsOverwritten t g.valid buf g.room (drop t.cur t.nodes) refl some_left in
    (done, grown-overwritten fill buf s t _ g over))
  where
    nonzero : (t.base_size == 0) ≡ false
    nonzero = ground (arith, g.valid.base_pos)
write_grown fill buf s t (err x) some_left e g = cc

-- Where the buffer is valid, the new end stays a node below 2 ^ 64 and fewer than 2 ^ 53 bytes are written,
-- so that the doubles of `addCapacity` are exact, `write` never faults. The flat
-- bytes from the position on are overwritten by `buf` and no other byte changes; the chain grows by
-- fresh nodes only, the position moves behind `buf`, the size covers it, and the result is valid.
pub write-IsWritten :
    (fill : ℕ) (buf : List ℕ) (s : ByteArray)
    → IsValid s
    → s.position + length buf + s.base_size ≤ 2 ^ 64
    → length buf < 2 ^ 53
    → ((write fill buf s).0 ≡ ok tt) × IsWritten fill buf s (write fill buf s).1
unfolding write
write-IsWritten fill [] s v fits exact = (refl, unwritten fill s v)
write-IsWritten fill (b ∷ bs) s v fits exact = rw nonempty (
    let (done, grown) = add_capacity-IsGrown fill (length (b ∷ bs)) s v fits exact in
    write_grown fill (b ∷ bs) s (add_capacity fill (length (b ∷ bs)) s).1 _ (omega arith) done
      grown)
  where
    nonempty : (length (b ∷ bs) == 0) ≡ false
    nonempty = ground arith
