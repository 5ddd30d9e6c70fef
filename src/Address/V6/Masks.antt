-- ===== src/Address/V6/Masks.antt =====
-- What `broadcastAddress`, `networkAddress` and `subnetMask` of an IPv6 address compute.
use hpgs.Prelude.Bits.{bit_or-ones, bit_and-mask}
use hpgs.Prelude.{
  ℕ, zero, suc, ◌+◌, ◌-◌, ◌/◌, ◌%◌, ◌^◌, ◌≤◌, ◌<◌, ◌≡◌, refl, ap, sym, ◌∙◌, arith, bit_or, bit_and,
  List, [], ◌∷◌, ◌++◌, some, length, get_elem?, set, take, replicate, ltb, sub64, Bool-cases,
  append-nil, take_all, append_assoc, ◌⊎◌, inl, inr, length-set, get_elem?-lt, get_elem?-past,
}
use hpgs.Address.{undefined, address, create_mask}
use hpgs.Address.V6.{
  IPv6Address, fill_loop, masked_byte, masked, broadcast_address6, network_address6,
}

take-set :
    (q x : ℕ) (bytes : List ℕ)
    → q < length bytes
    → take (suc q) (set bytes q x) ≡ take q bytes ++ x ∷ []
take-set q x [] h = absurd (omega arith)
take-set zero x (b ∷ bytes) h = refl
take-set (suc q) x (b ∷ bytes) h = ap (λ t. b ∷ t) (take-set q x bytes (omega arith))

fill_loop_lem :
    (n from v : ℕ) (bytes : List ℕ)
    → from + n ≡ length bytes
    → fill_loop n from v bytes ≡ take from bytes ++ replicate n v
fill_loop_lem zero from v bytes h =
    sym (append-nil (take from bytes) ∙ take_all from bytes (omega arith))
fill_loop_lem (suc n) from v bytes h =
    fill_loop_lem n (suc from) v (set bytes from v) (omega (arith, length-set bytes from v))
    ∙ ap (λ t. t ++ replicate n v) (take-set from v bytes (omega arith))
    ∙ append_assoc (take from bytes) (v ∷ []) (replicate n v)

mask_of_byte : (r : ℕ) → r < 8 → create_mask 8 r ≡ some (2 ^ (8 - r) - 1)
mask_of_byte r h = rw (shift_is r h) (ground arith)
  where
    shift_is : (r : ℕ) → r < 8 → sub64 8 r ≡ 8 - r
    shift_is r h = omega arith

-- A mask at the byte of a prefix, and the bytes behind it set to `v`.
masked_lem :
    (a : IPv6Address) (p v : ℕ) (op : ℕ → ℕ → ℕ)
    → length a.bytes ≡ 16
    → ((128 ≤ p) × (masked a p op v ≡ undefined))
      ⊎ ((b : ℕ) × (get_elem? a.bytes (p / 8) ≡ some b)
          × (masked a p op v
              ≡ address (record a {
                bytes =
                    take (p / 8) a.bytes ++ op b (2 ^ (8 - p % 8) - 1) ∷ replicate (15 - p / 8) v;
              })))
masked_lem a p v op h = elim (Bool-cases (ltb p 128)) [
  | inr past ↦ inl (
    ground arith,
    ap (λ o. masked_byte a (p / 8) op v o (create_mask 8 (p % 8)))
        (get_elem?-past a.bytes (p / 8) (ground (arith, h))),
  )
  | inl here ↦
      let (b, found) = get_elem?-lt a.bytes (p / 8) (ground (arith, h)) in
      inr (
        b,
        found,
        ap (λ o. masked_byte a (p / 8) op v o (create_mask 8 (p % 8))) found
            ∙ ap (masked_byte a (p / 8) op v (some b)) (mask_of_byte (p % 8) (omega arith))
            ∙ ap (λ t. address (record a { bytes = t })) (filled b (ground arith)),
      )
]
  where
    filled :
        (b : ℕ)
        → p / 8 < 16
        → fill_loop
            (16 - suc (p / 8))
            (suc (p / 8))
            v
            (set a.bytes (p / 8) (op b (2 ^ (8 - p % 8) - 1)))
          ≡ take (p / 8) a.bytes ++ op b (2 ^ (8 - p % 8) - 1) ∷ replicate (15 - p / 8) v
    filled b lt =
        let x = op b (2 ^ (8 - p % 8) - 1) in
        fill_loop_lem (16 - suc (p / 8)) (suc (p / 8)) v (set a.bytes (p / 8) x)
          (omega (arith, h, length-set a.bytes (p / 8) x))
        ∙ ap (λ t. t ++ replicate (16 - suc (p / 8)) v)
            (take-set (p / 8) x a.bytes (omega (arith, h)))
        ∙ append_assoc (take (p / 8) a.bytes) (x ∷ []) (replicate (16 - suc (p / 8)) v)
        ∙ ap (λ (n : ℕ). take (p / 8) a.bytes ++ x ∷ replicate n v) {x = 16 - suc (p / 8)}
            {y = 15 - p / 8} (omega arith)

-- `broadcastAddress` of a prefix shorter than 128 keeps the bytes before the last of the prefix, sets the
-- bits of that byte that are not of the prefix, and all later bytes to 255; from 128 on it reaches
-- behind the sixteen bytes.
pub broadcast_address6_lem :
    (a : IPv6Address) (p : ℕ)
    → length a.bytes ≡ 16
    → ((128 ≤ p) × (broadcast_address6 a p ≡ undefined))
      ⊎ ((b b' : ℕ) × (get_elem? a.bytes (p / 8) ≡ some b)
          × (broadcast_address6 a p
              ≡ address
                  (record a { bytes = take (p / 8) a.bytes ++ b' ∷ replicate (15 - p / 8) 255 }))
          × (b' + b % 2 ^ (8 - p % 8) ≡ b + (2 ^ (8 - p % 8) - 1)))
unfolding broadcast_address6
broadcast_address6_lem a p h = elim (masked_lem a p 255 bit_or h) [
  | inl past ↦ inl past
  | inr (b, found, e) ↦ inr (b, bit_or b (2 ^ (8 - p % 8) - 1), found, e, bit_or-ones b (8 - p % 8))
]

-- `networkAddress` keeps the same bytes and clears the later ones, but of the byte between it keeps the
-- bits that are not of the prefix, and clears those that are.
pub network_address6_lem :
    (a : IPv6Address) (p : ℕ)
    → length a.bytes ≡ 16
    → ((128 ≤ p) × (network_address6 a p ≡ undefined))
      ⊎ ((b : ℕ) × (get_elem? a.bytes (p / 8) ≡ some b)
          × (network_address6 a p
              ≡ address (record a {
                bytes = take (p / 8) a.bytes ++ (b % 2 ^ (8 - p % 8)) ∷ replicate (15 - p / 8) 0;
              })))
unfolding network_address6
network_address6_lem a p h = elim (masked_lem a p 0 bit_and h) [
  | inl past ↦ inl past
  | inr (b, found, e) ↦ inr (
    b,
    found,
    e
        ∙ ap
            (λ (t : ℕ).
              address (record a { bytes = take (p / 8) a.bytes ++ t ∷ replicate (15 - p / 8) 0 }))
            (bit_and-mask b (8 - p % 8)),
  )
]
