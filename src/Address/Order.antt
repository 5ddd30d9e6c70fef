-- ===== src/Address/Order.antt =====
-- src/network/address.cc: the comparison of addresses, by `memcmp` and the length. An address is the
-- bytes at `getAddr()`, of which there are `getAddrlen()` at least.
use hpgs.Prelude.Text.{same_text}
use hpgs.Prelude.{
  ℕ, zero, suc, ◌≤◌, ◌≡◌, refl, ap, arith, min, Bool, true, false, not, ◌&&◌, List, [], ◌∷◌, length,
  take, length-take, ltb, Bool-cases, ==_iff, ◌∙◌, sym, ◌==◌, if◌then◌else◌, ◌⊎◌, inl, inr,
}

pub record Address : Type 0 where
  pub bytes : List ℕ
  pub addrlen : ℕ

pub data Sign : Type 0 where
  negative null positive : Sign

-- `memcmp`.
abbrev pub memcmp : ℕ → List ℕ → List ℕ → Sign
memcmp zero xs ys = null
memcmp (suc n) [] ys = null
memcmp (suc n) (x ∷ xs) [] = null
memcmp (suc n) (x ∷ xs) (y ∷ ys) =
    let rest = memcmp n xs ys in if ltb x y then negative else if ltb y x then positive else rest

-- Where the bytes agree, the shorter address comes first.
abbrev pub less_by : Sign → ℕ → ℕ → Bool
less_by negative m n = true
less_by positive m n = false
less_by null m n = ltb m n

-- `Address::operator<`.
unfoldable pub less : Address → Address → Bool
less a rhs = less_by (memcmp (min a.addrlen rhs.addrlen) a.bytes rhs.bytes) a.addrlen rhs.addrlen

abbrev pub is_null : Sign → Bool
is_null null = true
is_null _ = false

-- `Address::operator==` and `operator!=`.
unfoldable pub equal : Address → Address → Bool
equal a rhs = a.addrlen == rhs.addrlen && is_null (memcmp a.addrlen a.bytes rhs.bytes)

pub not_equal : Address → Address → Bool
unfolding equal
not_equal a rhs = not (equal a rhs)

-- The order of texts: the first byte that differs decides, and a text comes before its continuations.
abbrev pub lex : List ℕ → List ℕ → Bool
lex [] [] = false
lex [] (y ∷ ys) = true
lex (x ∷ xs) [] = false
lex (x ∷ xs) (y ∷ ys) =
    let rest = lex xs ys in if ltb x y then true else if ltb y x then false else rest

abbrev pub address_text : Address → List ℕ
address_text a = take a.addrlen a.bytes

min-suc : (m n : ℕ) → min (suc m) (suc n) ≡ suc (min m n)
min-suc m n = omega arith

memcmp-lex :
    (m n : ℕ) (xs ys : List ℕ)
    → m ≤ length xs
    → n ≤ length ys
    → less_by (memcmp (min m n) xs ys) m n ≡ lex (take m xs) (take n ys)
memcmp-lex zero zero xs ys hx hy = refl
memcmp-lex zero (suc n) xs [] hx hy = absurd (omega arith)
memcmp-lex zero (suc n) xs (y ∷ ys) hx hy = rw (min_zero (suc n)) (ground arith)
  where
    min_zero : (n : ℕ) → min 0 n ≡ 0
    min_zero n = omega arith
memcmp-lex (suc m) zero [] ys hx hy = absurd (omega arith)
memcmp-lex (suc m) zero (x ∷ xs) ys hx hy = rw (min_zero (suc m)) (ground arith)
  where
    min_zero : (n : ℕ) → min n 0 ≡ 0
    min_zero n = omega arith
memcmp-lex (suc m) (suc n) [] ys hx hy = absurd (omega arith)
memcmp-lex (suc m) (suc n) (x ∷ xs) [] hx hy = absurd (omega arith)
memcmp-lex (suc m) (suc n) (x ∷ xs) (y ∷ ys) hx hy = rw (min-suc m n) (elim (Bool-cases (ltb x y)) [
  | inl l ↦ rw l refl
  | inr nl ↦ rw nl (elim (Bool-cases (ltb y x)) [
    | inl g ↦ rw g refl
    | inr ng ↦
        rw ng
          (ltb_suc m n (memcmp (min m n) xs ys) ∙ memcmp-lex m n xs ys (omega arith) (omega arith))
  ])
])
  where
    ltb_suc : (m n : ℕ) (s : Sign) → less_by s (suc m) (suc n) ≡ less_by s m n
    ltb_suc m n negative = refl
    ltb_suc m n positive = refl
    ltb_suc m n null = ground arith

memcmp-same :
    (n : ℕ) (xs ys : List ℕ)
    → n ≤ length xs
    → n ≤ length ys
    → is_null (memcmp n xs ys) ≡ same_text (take n xs) (take n ys)
memcmp-same zero xs ys hx hy = refl
memcmp-same (suc n) [] ys hx hy = absurd (omega arith)
memcmp-same (suc n) (x ∷ xs) [] hx hy = absurd (omega arith)
memcmp-same (suc n) (x ∷ xs) (y ∷ ys) hx hy =
    ground (arith, memcmp-same n xs ys (omega arith) (omega arith))

same_text_lengths : (xs ys : List ℕ) → (length xs == length ys) ≡ false → same_text xs ys ≡ false
same_text_lengths [] [] h = absurd (ground arith)
same_text_lengths [] (y ∷ ys) h = refl
same_text_lengths (x ∷ xs) [] h = refl
same_text_lengths (x ∷ xs) (y ∷ ys) h = ground (arith, same_text_lengths xs ys)

equal_lengths :
    (m n : ℕ) (xs ys : List ℕ)
    → m ≤ length xs
    → n ≤ length ys
    → (m == n && is_null (memcmp m xs ys)) ≡ same_text (take m xs) (take n ys)
equal_lengths m n xs ys hx hy = elim (Bool-cases (m == n)) [
  | inl e ↦
      let p = (==_iff m n).0 e in
      rw e (memcmp-same m xs ys hx (omega arith) ∙ ap (λ k. same_text (take m xs) (take k ys)) p)
  | inr d ↦ rw d (
      sym (
        same_text_lengths (take m xs) (take n ys)
          (ground (arith, length-take m xs, length-take n ys))))
]

-- Exactly one of three tests is true.
abbrev pub OneOf : Bool → Bool → Bool → Type 0
OneOf p q r =
    ((p ≡ true) × (q ≡ false) × (r ≡ false))
    ⊎ ((p ≡ false) × (q ≡ true) × (r ≡ false))
    ⊎ ((p ≡ false) × (q ≡ false) × (r ≡ true))

lex-OneOf : (xs ys : List ℕ) → OneOf (lex xs ys) (same_text xs ys) (lex ys xs)
lex-OneOf [] [] = inr (inl (refl, refl, refl))
lex-OneOf [] (y ∷ ys) = inl (refl, refl, refl)
lex-OneOf (x ∷ xs) [] = inr (inr (refl, refl, refl))
lex-OneOf (x ∷ xs) (y ∷ ys) = ground (arith, lex-OneOf xs ys)

lex_trans : (xs ys zs : List ℕ) → lex xs ys ≡ true → lex ys zs ≡ true → lex xs zs ≡ true
lex_trans [] [] [] h h' = h
lex_trans [] (y ∷ ys) [] h h' = absurd (ground arith)
lex_trans [] ys (z ∷ zs) h h' = refl
lex_trans (x ∷ xs) [] zs h h' = absurd (ground arith)
lex_trans (x ∷ xs) (y ∷ ys) [] h h' = absurd (ground arith)
lex_trans (x ∷ xs) (y ∷ ys) (z ∷ zs) h h' = ground (arith, lex_trans xs ys zs)

-- An address whose length is that of its bytes at most.
abbrev pub IsValid : Address → Type 0
IsValid a = a.addrlen ≤ length a.bytes

less-lex :
    (a b : Address) → IsValid a → IsValid b → less a b ≡ lex (address_text a) (address_text b)
unfolding less
less-lex a b valid_a valid_b = memcmp-lex a.addrlen b.addrlen a.bytes b.bytes valid_a valid_b

equal-same_text :
    (a b : Address)
    → IsValid a
    → IsValid b
    → equal a b ≡ same_text (address_text a) (address_text b)
unfolding equal
equal-same_text a b valid_a valid_b =
    equal_lengths a.addrlen b.addrlen a.bytes b.bytes valid_a valid_b

-- Of two addresses just one of three holds: the first is less, they are equal, or the second is less.
pub less-OneOf : (a b : Address) → IsValid a → IsValid b → OneOf (less a b) (equal a b) (less b a)
less-OneOf a b valid_a valid_b =
    rw
      (
        less-lex a b valid_a valid_b,
        equal-same_text a b valid_a valid_b,
        less-lex b a valid_b valid_a,
      )
      (lex-OneOf (address_text a) (address_text b))

-- `operator<` is transitive.
pub less_trans :
    (a b c : Address)
    → IsValid a
    → IsValid b
    → IsValid c
    → less a b ≡ true
    → less b c ≡ true
    → less a c ≡ true
less_trans a b c valid_a valid_b valid_c h h' =
    less-lex a c valid_a valid_c
    ∙ lex_trans (address_text a) (address_text b) (address_text c)
        (sym (less-lex a b valid_a valid_b) ∙ h) (sym (less-lex b c valid_b valid_c) ∙ h')
