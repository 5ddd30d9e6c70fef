-- ===== src/ByteArray/Inv.antt =====
-- The representation invariant of a ByteArray, and the flat contents that its chain stands for.
use hpgs.Prelude.{ℕ, ◌+◌, ◌*◌, ◌-◌, ◌%◌, ◌^◌, ◌≤◌, ◌<◌, ◌≡◌, refl, ap, sym, ◌∙◌, arith}
use hpgs.Prelude.{◌≢◌, inl, inr, if◌then◌else◌, ◌==◌, ==_iff, add64, Bool-cases}
use hpgs.Prelude.{List, [], ◌∷◌, ◌++◌, append_assoc, length, take, drop, All, length-append}
use hpgs.Prelude.{
  All-take, All-drop, length-take, take-append-drop, take-append_add, drop-append_add,
}
use native.Mathlib.Nat.{add_assoc, le_of_mul-le-mul_right, lt_of_mul-lt-mul_right}
use native.Mathlib.Nat.{add-mul-mod_self_right, mod-eq_of_lt}
use hpgs.ByteArray.{ByteArray, Node}

abbrev pub IsNode : ℕ → Node → Type 0
IsNode base n = length n ≡ base

-- All bytes of the chain, those past the size included.
abbrev pub flat : List Node → List ℕ
flat [] = []
flat (n ∷ rest) = n ++ flat rest

-- `m_cur` is the node that holds the byte at the position, and null at the end of the chain.
pub record IsValid (s : ByteArray) : Type 0 where
  pub base_pos : 0 < s.base_size
  pub chunks : All (IsNode s.base_size) s.nodes
  pub rooted : 0 < length s.nodes
  pub cap_eq : s.capacity ≡ length s.nodes * s.base_size
  pub cap_small : s.capacity < 2 ^ 64
  pub pos_le : s.position ≤ s.size
  pub size_le : s.size ≤ s.capacity
  pub cur_lo : s.cur * s.base_size ≤ s.position
  pub cur_hi : s.position < s.cur * s.base_size + s.base_size

-- `xs` with the bytes from `i` on overwritten by `buf`.
abbrev pub splice : ℕ → List ℕ → List ℕ → List ℕ
splice i buf xs = take i xs ++ (buf ++ drop (i + length buf) xs)

-- The `size` bytes of `xs` from `i` on.
abbrev pub slice : ℕ → ℕ → List ℕ → List ℕ
slice i size xs = take size (drop i xs)

pub flat-append : (xs ys : List Node) → flat (xs ++ ys) ≡ flat xs ++ flat ys
flat-append [] ys = refl
flat-append (n ∷ xs) ys =
    ap (λ t. n ++ t) (flat-append xs ys) ∙ sym (append_assoc n (flat xs) (flat ys))

pub length-flat :
    (base : ℕ) (nodes : List Node)
    → All (IsNode base) nodes
    → length (flat nodes) ≡ length nodes * base
length-flat base [] h = omega arith
length-flat base (n ∷ rest) h =
    omega (arith, length-append n (flat rest), length-flat base rest h.1)

-- The bytes before a node of the chain are those of the nodes before it.
pub flat-take :
    (base k : ℕ) (nodes : List Node)
    → All (IsNode base) nodes
    → k ≤ length nodes
    → length (flat (take k nodes)) ≡ k * base
flat-take base k nodes h le =
    length-flat base (take k nodes) (All-take (IsNode base) k nodes h)
    ∙ ap (λ (t : ℕ). t * base) (omega (arith, length-take k nodes))

pub flat-split :
    (k : ℕ) (nodes : List Node) → flat nodes ≡ flat (take k nodes) ++ flat (drop k nodes)
flat-split k nodes =
    ap flat (sym (take-append-drop k nodes)) ∙ flat-append (take k nodes) (drop k nodes)

pub splice-append :
    (xs ys buf : List ℕ) (i : ℕ) → splice (length xs + i) buf (xs ++ ys) ≡ xs ++ splice i buf ys
splice-append xs ys buf i = rw (
  take-append_add xs ys i,
  add_assoc (length xs) i (length buf),
  drop-append_add xs ys (i + length buf),
  append_assoc,
)

pub splice_nil : (i : ℕ) (xs : List ℕ) → splice i [] xs ≡ xs
splice_nil i xs = ap (λ k. take i xs ++ drop k xs) {y = i} (omega arith) ∙ take-append-drop i xs

pub slice-append :
    (xs ys : List ℕ) (i size : ℕ) → slice (length xs + i) size (xs ++ ys) ≡ slice i size ys
slice-append xs ys i size = rw (drop-append_add xs ys i)

-- Where `m_cur` points after a step that ends at offset `npos + count` of its node.
module _ (base size npos count cur : ℕ) (e : size ≡ base) (le : npos + count ≤ base) where
  abbrev next : ℕ
  next = if size == add64 npos count then cur + 1 else cur

  pub next_bounds :
      0 < base
      → base < 2 ^ 64
      → (next * base ≤ cur * base + npos + count) × (cur * base + npos + count < next * base + base)
  next_bounds pos small = elim (Bool-cases (size == add64 npos count)) [
    | inl full ↦
        rw full
          (let at : size ≡ add64 npos count = (==_iff _ _).0 full in (omega arith, omega arith))
    | inr part ↦ rw part (
        let ne : size ≢ add64 npos count = λ q. ground (arith, part, q) in
        (omega arith, omega arith))
  ]

-- Where the position of a valid buffer lies in its chain.
module _ {s : ByteArray} (v : IsValid s) where
  pub cur-le : s.cur ≤ length s.nodes
  cur-le =
      le_of_mul-le-mul_right {k = s.base_size}
        (omega (arith, v.cap_eq, v.pos_le, v.size_le, v.cur_lo)) v.base_pos

  pub cur-lt : s.position < s.capacity → s.cur < length s.nodes
  cur-lt h = lt_of_mul-lt-mul_right s.base_size (omega (arith, v.cap_eq, v.cur_lo))

  pub offset_lem : s.position % s.base_size ≡ s.position - s.cur * s.base_size
  offset_lem =
      ap (λ (n : ℕ). n % s.base_size) {y = (s.position - s.cur * s.base_size) + s.cur * s.base_size}
        (omega (arith, v.cur_lo))
      ∙ add-mul-mod_self_right (s.position - s.cur * s.base_size) s.cur s.base_size
      ∙ mod-eq_of_lt (omega (arith, v.cur_lo, v.cur_hi))

  pub tail_bytes : length (drop s.cur s.nodes) * s.base_size ≡ s.capacity - s.cur * s.base_size
  tail_bytes = omega (
    arith,
    v.cap_eq,
    length-flat s.base_size s.nodes v.chunks,
    ap length (flat-split s.cur s.nodes),
    length-append (flat (take s.cur s.nodes)) (flat (drop s.cur s.nodes)),
    flat-take s.base_size s.cur s.nodes v.chunks cur-le,
    length-flat s.base_size (drop s.cur s.nodes)
        (All-drop (IsNode s.base_size) s.cur s.nodes v.chunks),
  )
