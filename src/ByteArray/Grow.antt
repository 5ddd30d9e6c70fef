-- ===== src/ByteArray/Grow.antt =====
-- `ByteArray::addCapacity` makes room and changes no byte.
use hpgs.Prelude.{ℕ, zero, suc, ◌+◌, ◌*◌, ◌-◌, ◌^◌, ◌≤◌, ◌<◌, ◌≡◌, refl, ap, sym, ◌∙◌, arith}
use hpgs.Prelude.{[], ◌∷◌, ◌++◌, append_assoc, append-nil, true, false, inl, inr, ltb}
use hpgs.Prelude.{
  length, replicate, length-append, length-replicate, replicate-add, All-append, All-replicate,
}
use hpgs.Prelude.{leb, ◌==◌, if◌then◌else◌, Bool-cases, leb→lt, leb→le, add64, ==_iff}
use hpgs.ByteArray.{ByteArray, ok, new_node, append_nodes, ceil_div, add_capacity}
use hpgs.ByteArray.{get_capacity}
use hpgs.ByteArray.Inv.{IsNode, flat, IsValid, flat-append}
use native.Mathlib.Nat.{div-add-mod', mod-lt}

-- The state after `k` more nodes.
abbrev pub extended : ℕ → ℕ → ByteArray → ByteArray
extended fill k s = record s {
  nodes = s.nodes ++ replicate k (new_node fill s.base_size);
  capacity = s.capacity + k * s.base_size;
}

append_nodes_lem :
    (fill k : ℕ) (s : ByteArray)
    → s.capacity + k * s.base_size < 2 ^ 64
    → append_nodes fill k s ≡ extended fill k s
unfolding append_nodes
append_nodes_lem fill zero s h = ground (arith, append-nil s.nodes)
append_nodes_lem fill (suc k) s h =
    append_nodes_lem fill k
      (record s {
        nodes = s.nodes ++ (new_node fill s.base_size ∷ []);
        capacity = add64 s.capacity s.base_size;
      })
      (omega arith)
    ∙ ground (
      arith,
      append_assoc s.nodes (new_node fill s.base_size ∷ [])
          (replicate k (new_node fill s.base_size)),
    )

ceil_div_bounds :
    (n base : ℕ)
    → 0 < base
    → n < 2 ^ 53
    → (n ≤ ceil_div n base * base) × (ceil_div n base * base < n + base)
unfolding ceil_div
ceil_div_bounds n base h exact =
    rw small
      (omega (arith, div-add-mod' (n + (base - 1)) base, mod-lt (n + (base - 1)) {m = base} h))
  where
    small : ltb n (2 ^ 53) ≡ true
    small = ground (arith, exact)

flat-replicate :
    (fill base k : ℕ) → flat (replicate k (new_node fill base)) ≡ replicate (k * base) fill
unfolding new_node
flat-replicate fill base zero = ap (λ n. replicate n fill) {x = 0} (omega arith)
flat-replicate fill base (suc k) =
    ap (λ x. replicate base fill ++ x) (flat-replicate fill base k)
    ∙ sym (replicate-add base (k * base) fill)
    ∙ ap (λ n. replicate n fill) {x = base + k * base} (omega arith)

length-new_node : (fill base : ℕ) → length (new_node fill base) ≡ base
unfolding new_node
length-new_node fill base = length-replicate base fill

-- What `addCapacity(size)` leaves behind, where `size` bytes fit in memory.
pub record IsGrown (fill size : ℕ) (s t : ByteArray) : Type 0 where
  pub valid : IsValid t
  pub bytes : flat t.nodes ≡ flat s.nodes ++ replicate (t.capacity - s.capacity) fill
  pub room : t.position + size ≤ t.capacity
  pub same_position : t.position ≡ s.position
  pub same_size : t.size ≡ s.size
  pub same_endian : t.endian ≡ s.endian
  pub same_base : t.base_size ≡ s.base_size
  pub grows : s.capacity ≤ t.capacity

extended-IsGrown :
    (fill size k : ℕ) (s : ByteArray) (c : ℕ)
    → IsValid s
    → s.position + size ≤ s.capacity + k * s.base_size
    → s.capacity + k * s.base_size < 2 ^ 64
    → c * s.base_size ≤ s.position
    → s.position < c * s.base_size + s.base_size
    → IsGrown fill size s (record (extended fill k s) { cur = c })
extended-IsGrown fill size k s c v room fits lo hi = record {
  valid = record {
    base_pos = v.base_pos;
    chunks =
        All-append (IsNode s.base_size) s.nodes (replicate k (new_node fill s.base_size)) v.chunks (
          All-replicate (IsNode s.base_size) k (new_node fill s.base_size)
            (length-new_node fill s.base_size));
    rooted =
        omega (arith, v.rooted, length-append s.nodes (replicate k (new_node fill s.base_size)));
    cap_eq = omega (
      arith,
      v.cap_eq,
      ap (λ (n : ℕ). n * s.base_size)
          (length-append s.nodes (replicate k (new_node fill s.base_size))),
      ap (λ (n : ℕ). n * s.base_size) (length-replicate k (new_node fill s.base_size)),
    );
    cap_small = fits;
    pos_le = v.pos_le;
    size_le = omega (arith, v.size_le);
    cur_lo = lo;
    cur_hi = hi;
  };
  bytes =
      flat-append s.nodes (replicate k (new_node fill s.base_size))
      ∙ ap (λ x. flat s.nodes ++ x)
          (flat-replicate fill s.base_size k
            ∙ ap (λ n. replicate n fill) {x = k * s.base_size} (omega arith));
  room = room;
  same_position = refl;
  same_size = refl;
  same_endian = refl;
  same_base = refl;
  grows = omega arith;
}

unchanged-IsGrown :
    (fill size : ℕ) (s : ByteArray)
    → IsValid s
    → s.position + size ≤ s.capacity
    → IsGrown fill size s s
unchanged-IsGrown fill size s v room = record {
  valid = v;
  bytes =
      sym (append-nil (flat s.nodes))
      ∙ ap (λ n. flat s.nodes ++ replicate n fill) {x = 0} (omega arith);
  room = room;
  same_position = refl;
  same_size = refl;
  same_endian = refl;
  same_base = refl;
  grows = omega arith;
}

module _ (s : ByteArray) (v : IsValid s) where
  capacity_left : get_capacity s ≡ s.capacity - s.position
  capacity_left = omega (arith, v.cap_small, v.pos_le, v.size_le)

  -- Without room left, `m_cur` moves on to the first of the new nodes.
  cur-extended :
      (fill size k : ℕ)
      → s.position + size ≤ s.capacity + k * s.base_size
      → s.capacity + k * s.base_size < 2 ^ 64
      → IsGrown fill size s (
          if s.capacity - s.position == 0
          then record (extended fill k s) { cur = length s.nodes }
          else extended fill k s)
  cur-extended fill size k room fits = elim (Bool-cases (s.capacity - s.position == 0)) [
    | inl full ↦ rw full (
        let at : s.capacity - s.position ≡ 0 = (==_iff _ 0).0 full in
        extended-IsGrown fill size k s (length s.nodes) v room fits
          (omega (arith, v.cap_eq, v.pos_le, v.size_le))
          (omega (arith, v.cap_eq, v.pos_le, v.size_le, v.base_pos)))
    | inr some_left ↦
        rw some_left (extended-IsGrown fill size k s s.cur v room fits v.cur_lo v.cur_hi)
  ]

-- `addCapacity` of fewer than 2 ^ 53 bytes succeeds on a valid buffer that stays below 2 ^ 64.
pub add_capacity-IsGrown :
    (fill size : ℕ) (s : ByteArray)
    → IsValid s
    → s.position + size + s.base_size ≤ 2 ^ 64
    → size < 2 ^ 53
    → ((add_capacity fill size s).0 ≡ ok tt) × IsGrown fill size s (add_capacity fill size s).1
unfolding add_capacity
add_capacity-IsGrown fill size s v fits exact = elim (Bool-cases (size == 0)) [
  | inl none_asked ↦ rw none_asked (
    refl,
    unchanged-IsGrown fill size s v
        (omega (arith, (==_iff size 0).0 none_asked, v.pos_le, v.size_le)),
  )
  | inr asked ↦
      rw (asked, capacity_left s v)
        (elim (Bool-cases (leb size (s.capacity - s.position))) [
          | inl enough ↦ rw enough (
            refl,
            unchanged-IsGrown fill size s v (omega (arith, leb→le _ _ enough, v.pos_le, v.size_le)),
          )
          | inr short ↦
              let (lo, hi) =
                ceil_div_bounds (size - (s.capacity - s.position)) s.base_size v.base_pos
                  (omega (arith, exact)) in
              let more : s.capacity - s.position < size = leb→lt _ _ short in
              let k : ℕ = ceil_div (size - (s.capacity - s.position)) s.base_size in
              let fits_k : s.capacity + k * s.base_size < 2 ^ 64 =
                omega (arith, v.pos_le, v.size_le) in
              rw (short, base_nonzero, append_nodes_lem fill k s fits_k)
                (refl, cur-extended s v fill size k (omega arith) fits_k)
        ])
]
  where
    base_nonzero : (s.base_size == 0) ≡ false
    base_nonzero = ground (arith, v.base_pos)
