-- ===== src/ByteArray/Position.antt =====
-- `ByteArray::setPosition`, `clear` and the constructor against the invariant.
use hpgs.Prelude.{ℕ, ◌≢◌, ◌+◌, ◌*◌, ◌-◌, ◌^◌, ◌≤◌, ◌<◌, ◌≡◌, refl, ap, arith, max}
use hpgs.Prelude.{List, [], ◌∷◌, true, false, inl, inr, length-replicate}
use native.Mathlib.Nat.{mul-le-mul_right}
use hpgs.Prelude.{length-take, All-take}
use hpgs.Prelude.{length, take, All, ltb, ◌==◌, if◌then◌else◌, Bool-cases, ==_iff}
use hpgs.ByteArray.{ByteArray, Node, Result, ok, err, out_of_range, seek, set_position}
use hpgs.ByteArray.{clear, new_node, new_byte_array, raise_size, commit_seek}
use hpgs.ByteArray.Inv.{IsNode, IsValid}

-- The index found is that of the node that holds byte `v`, or the end of the chain.
abbrev Found : ℕ → ℕ → ℕ → Result ℕ → Type 0
Found base v i (ok c) = (c * base ≤ i * base + v) × (i * base + v < c * base + base)
Found base v i (err e) = ⊥

Found-next :
    (base l v i : ℕ) (r : Result ℕ)
    → l ≡ base
    → l ≤ v
    → Found base (v - l) (i + 1) r
    → Found base v i r
Found-next base l v i (ok c) e h f = (omega arith, omega arith)
Found-next base l v i (err x) e h f = f

Found-here :
    (base l v i : ℕ)
    → l ≡ base
    → 0 < base
    → v ≤ l
    → Found base v i (ok (if v == l then i + 1 else i))
Found-here base l v i e bp le = elim (Bool-cases (v == l)) [
  | inl full ↦ rw full (let at : v ≡ l = (==_iff v l).0 full in (omega arith, omega arith))
  | inr part ↦ rw part (let ne : v ≢ l = λ q. ground (arith, part, q) in (omega arith, omega arith))
]

rest_nonempty : (rest : List Node) (base : ℕ) → 0 < length rest * base → 0 < length rest
rest_nonempty [] base h = absurd (omega arith)
rest_nonempty (n ∷ rest) base h = omega arith

seek-Found :
    (base : ℕ) (nodes : List Node) (v i : ℕ)
    → 0 < base
    → All (IsNode base) nodes
    → 0 < length nodes
    → v ≤ length nodes * base
    → Found base v i (seek nodes v i)
unfolding seek
seek-Found base [] v i bp h some_left le = absurd (omega arith)
seek-Found base (n ∷ rest) v i bp (hn, hr) some_left le = elim (Bool-cases (ltb (length n) v)) [
  | inl over ↦ rw over (
      Found-next base (length n) v i _ hn (omega (arith, past over))
        (seek-Found base rest (v - length n) (i + 1) bp hr (some_more (past over)) (omega arith)))
  | inr here ↦ rw here (Found-here base (length n) v i hn bp (not_past here))
]
  where
    past : ltb (length n) v ≡ true → length n < v
    past e = ground arith

    not_past : ltb (length n) v ≡ false → v ≤ length n
    not_past e = ground arith

    some_more : length n < v → 0 < length rest
    some_more h = rest_nonempty rest base (omega arith)

-- What `setPosition(v)` leaves behind.
pub record IsMoved (v : ℕ) (s t : ByteArray) : Type 0 where
  pub valid : IsValid t
  pub position : t.position ≡ v
  pub size : t.size ≡ max s.size v
  pub same_nodes : t.nodes ≡ s.nodes
  pub same_capacity : t.capacity ≡ s.capacity
  pub same_endian : t.endian ≡ s.endian
  pub same_base : t.base_size ≡ s.base_size

module _ (v : ℕ) (s : ByteArray) (h : IsValid s) (le : v ≤ s.capacity) where
  commit_seek-IsMoved :
      (r : Result ℕ)
      → Found s.base_size v 0 r
      → let out = commit_seek (raise_size (record s { position = v })) r in
        (out.0 ≡ ok tt) × IsMoved v s out.1
  commit_seek-IsMoved (ok c) f = (
    refl,
    record {
      valid = record {
        base_pos = h.base_pos;
        chunks = h.chunks;
        rooted = h.rooted;
        cap_eq = h.cap_eq;
        cap_small = h.cap_small;
        pos_le = ground arith;
        size_le = ground (arith, h.size_le);
        cur_lo = omega (arith, f.0);
        cur_hi = omega (arith, f.1);
      };
      position = refl;
      size = ground arith;
      same_nodes = refl;
      same_capacity = refl;
      same_endian = refl;
      same_base = refl;
    },
  )
  commit_seek-IsMoved (err e) f = absurd f

-- `setPosition(v)` inside the capacity finds the node of `v`: it succeeds, keeps the invariant, and
-- raises the size to `v` where that is larger. No byte changes.
pub set_position-IsMoved :
    (v : ℕ) (s : ByteArray)
    → IsValid s
    → v ≤ s.capacity
    → ((set_position v s).0 ≡ ok tt) × IsMoved v s (set_position v s).1
unfolding set_position
set_position-IsMoved v s h le = rw inside (
    commit_seek-IsMoved v s h le _
      (seek-Found s.base_size s.nodes v 0 h.base_pos h.chunks h.rooted (omega (arith, h.cap_eq))))
  where
    inside : ltb s.capacity v ≡ false
    inside = ground arith

-- `setPosition` past the capacity throws `std::out_of_range` and changes nothing.
pub set_position_refused :
    (v : ℕ) (s : ByteArray) → s.capacity < v → set_position v s ≡ (err out_of_range, s)
unfolding set_position
set_position_refused v s past = ground arith

-- A new buffer with a node size above 0 is valid and empty.
pub new_byte_array-IsValid :
    (fill base : ℕ) → 0 < base → base < 2 ^ 64 → IsValid (new_byte_array fill base)
unfolding new_byte_array new_node
new_byte_array-IsValid fill base h small = record {
  base_pos = h;
  chunks = (length-replicate base fill, tt);
  rooted = omega arith;
  cap_eq = omega arith;
  cap_small = small;
  pos_le = omega arith;
  size_le = omega arith;
  cur_lo = omega arith;
  cur_hi = omega arith;
}

-- `clear` keeps the root node alone and forgets the contents; the invariant holds again.
pub clear-IsValid : (s : ByteArray) → IsValid s → IsValid (clear s)
unfolding clear
clear-IsValid s v = record {
  base_pos = v.base_pos;
  chunks = All-take (IsNode s.base_size) 1 s.nodes v.chunks;
  rooted = omega (arith, root_alone);
  cap_eq = omega (arith, ap (λ (k : ℕ). k * s.base_size) root_alone);
  cap_small =
      omega
        (arith, v.cap_small, v.cap_eq, mul-le-mul_right {n = length s.nodes} s.base_size v.rooted);
  pos_le = omega arith;
  size_le = omega arith;
  cur_lo = omega arith;
  cur_hi = omega (arith, v.base_pos);
}
  where
    root_alone : length (take 1 s.nodes) ≡ 1
    root_alone = omega (arith, length-take 1 s.nodes, v.rooted)
