-- ===== src/Address/Unix.antt =====
-- src/network/address.cc: `UnixAddress`. `sun_path` has 108 bytes and stands behind two of the family, as on
-- Linux. A path is its bytes; `std::string::size` is a `size_t`, and `m_length` a `uint32_t`.
use hpgs.Prelude.Text.{codes}
use hpgs.Prelude.{
  ℕ, suc, ◌+◌, ◌-◌, ◌%◌, ◌^◌, ◌≤◌, ◌<◌, ◌≡◌, refl, ap, ◌∙◌, arith, Bool, true, false, ◌&&◌, List,
  [], ◌∷◌, ◌++◌, Option, none, some, length, length-append, length-replicate, take_all,
  take-append_le, append_assoc, take, drop, replicate, All, ltb, ◌==◌, if◌then◌else◌, Bool-cases,
  inl, inr, ◌⊎◌,
}

pub record UnixAddress : Type 0 where
  pub sun_path : List ℕ
  pub m_length : ℕ

abbrev pub path_room : ℕ
path_room = 108

abbrev pub path_offset : ℕ
path_offset = 2

-- `UnixAddress::UnixAddress()`, with `MAX_PATH_LEN`.
abbrev pub blank_unix : UnixAddress
blank_unix = record { sun_path = replicate 108 0; m_length = path_offset + (path_room - 1) }

abbrev pub starts_null : List ℕ → Bool
starts_null [] = false
starts_null (c ∷ cs) = c == 0

-- What the constructor copies: `path.size() + 1`, one less for an abstract name.
abbrev pub copied_length : List ℕ → ℕ
copied_length path =
    if starts_null path then (length path + 1) % 2 ^ 32 - 1 else (length path + 1) % 2 ^ 32

abbrev pub copied : ℕ → List ℕ → UnixAddress
copied m_length path = record {
  sun_path = take m_length (path ++ 0 ∷ []) ++ replicate (path_room - m_length) 0;
  m_length = m_length + path_offset;
}

abbrev pub unix_of : ℕ → List ℕ → Option UnixAddress
unix_of m_length path = if ltb path_room m_length then none else some (copied m_length path)

-- `UnixAddress::UnixAddress` of a path; `none` is the exception `path too long`.
unfoldable pub new_unix : List ℕ → Option UnixAddress
new_unix path = unix_of (copied_length path) path

-- The bytes of a C string.
abbrev pub until_null : List ℕ → List ℕ
until_null [] = []
until_null (c ∷ cs) = let rest = until_null cs in if c == 0 then [] else c ∷ rest

-- `UnixAddress::getPath`, and what `insert` writes.
unfoldable pub get_path : UnixAddress → List ℕ
get_path a =
    if ltb path_offset a.m_length && starts_null a.sun_path
    then codes "\\0" ++ take (a.m_length - path_offset - 1) (drop 1 a.sun_path)
    else until_null a.sun_path

and_false : (b : Bool) → (b && false) ≡ false
and_false true = refl
and_false false = refl

until_null-append :
    (xs ys : List ℕ) → All (λ c. (c == 0) ≡ false) xs → until_null (xs ++ 0 ∷ ys) ≡ xs
until_null-append [] ys h = refl
until_null-append (x ∷ xs) ys h = rw h.0 (ap (λ t. x ∷ t) (until_null-append xs ys h.1))

-- A path that is not empty, has no null byte and fewer than 2 ^ 32 - 1 bytes is refused where it has more
-- than 107 bytes; else its address has three bytes more than it, 110 at most, and `getPath` gives it back.
pub get_path-new_unix :
    (c : ℕ) (path : List ℕ)
    → All (λ c. (c == 0) ≡ false) (c ∷ path)
    → suc (suc (length path)) < 2 ^ 32
    → ((107 < suc (length path)) × (new_unix (c ∷ path) ≡ none))
      ⊎ ((a : UnixAddress) × (new_unix (c ∷ path) ≡ some a)
          × (a.m_length ≡ length path + 4)
          × (a.m_length ≤ 110)
          × (length a.sun_path ≡ 108)
          × (get_path a ≡ c ∷ path))
unfolding new_unix get_path
get_path-new_unix c path h small = elim (Bool-cases (ltb path_room (suc (suc (length path))))) [
  | inl long ↦ inl (ground arith, ap (λ n. unix_of n (c ∷ path)) size ∙ rw long refl)
  | inr fits ↦ inr (
    copied (suc (suc (length path))) (c ∷ path),
    ap (λ n. unix_of n (c ∷ path)) size ∙ rw fits refl,
    omega arith,
    ground arith,
    ground (arith, filled),
    rw
        (
          h.0,
          and_false (ltb path_offset (suc (suc (length path)) + path_offset)),
          whole,
          append_assoc path (0 ∷ []) (replicate (path_room - suc (suc (length path))) 0),
          until_null-append path (replicate (path_room - suc (suc (length path))) 0) h.1,
        )
        refl,
  )
]
  where
    size : copied_length (c ∷ path) ≡ suc (suc (length path))
    size = rw h.0 (omega arith)

    whole : take (suc (length path)) (path ++ 0 ∷ []) ≡ path ++ 0 ∷ []
    whole =
        take_all (suc (length path)) (path ++ 0 ∷ []) (omega (arith, length-append path (0 ∷ [])))

    filled :
        length (
          take (suc (length path)) (path ++ 0 ∷ [])
          ++ replicate (path_room - suc (suc (length path))) 0)
        ≡ suc (length path) + (path_room - suc (suc (length path)))
    filled = omega (
      arith,
      length-append (take (suc (length path)) (path ++ 0 ∷ []))
          (replicate (path_room - suc (suc (length path))) 0),
      ap length whole,
      length-append path (0 ∷ []),
      length-replicate {A = ℕ} (path_room - suc (suc (length path))) 0,
    )

-- What stands behind the null byte of an abstract name.
taken_name :
    (name rest : List ℕ) (n : ℕ)
    → n ≡ length name
    → take n (take (length name) (name ++ 0 ∷ []) ++ rest) ≡ name
taken_name name rest n e =
    ap (λ t. take n (t ++ rest))
      (take-append_le (length name) name (0 ∷ []) (omega arith)
        ∙ take_all (length name) name (omega arith))
    ∙ take-append_le n name rest (omega arith)
    ∙ take_all n name (omega arith)

-- An abstract name, which starts with a null byte, may have 108 bytes with it; `getPath` writes the null
-- byte as a backslash and a zero.
pub get_path-abstract :
    (name : List ℕ)
    → suc (suc (length name)) < 2 ^ 32
    → ((108 < suc (length name)) × (new_unix (0 ∷ name) ≡ none))
      ⊎ ((a : UnixAddress) × (new_unix (0 ∷ name) ≡ some a)
          × (a.m_length ≡ length name + 3)
          × (a.m_length ≤ 110)
          × (get_path a ≡ codes "\\0" ++ name))
unfolding new_unix get_path
get_path-abstract name small = elim (Bool-cases (ltb path_room (suc (length name)))) [
  | inl long ↦ inl (ground arith, ap (λ n. unix_of n (0 ∷ name)) size ∙ rw long refl)
  | inr fits ↦ inr (
    copied (suc (length name)) (0 ∷ name),
    ap (λ n. unix_of n (0 ∷ name)) size ∙ rw fits refl,
    omega arith,
    ground arith,
    rw long_enough (
        ap (λ t. codes "\\0" ++ t)
          (taken_name name (replicate (path_room - suc (length name)) 0)
            (suc (length name) + path_offset - path_offset - 1) (omega arith))),
  )
]
  where
    size : copied_length (0 ∷ name) ≡ suc (length name)
    size = omega arith

    long_enough : ltb path_offset (suc (length name) + path_offset) ≡ true
    long_enough = ground arith
