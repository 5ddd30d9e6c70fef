-- ===== src/Address/Masks.antt =====
-- What `broadcastAddress`, `networkAddress` and `subnetMask` of an IPv4 address compute.
use native.Mathlib.Nat.{
  pow-suc, mul_assoc, suc-mul, div-add-mod', div-lt_iff_lt-mul, mul-le-mul_right, one-le-pow,
  mod-lt,
}
use hpgs.Prelude.Bits.{bit_or-ones, bit_and-mask}
use hpgs.Prelude.{
  ℕ, zero, suc, ◌+◌, ◌-◌, ◌*◌, ◌/◌, ◌%◌, ◌^◌, ◌≤◌, ◌<◌, ◌≡◌, refl, ap, sym, ◌∙◌, arith, bit_or,
  bit_and, none, some, ltb, Bool-cases, sub64, ◌⊎◌, inl, inr,
}
use hpgs.Address.{
  null_pointer, undefined, address, create_mask, with_mask, IPv4Address, broadcast_address,
  network_address, subnet_mask,
}

shift_is : (p : ℕ) → p ≤ 32 → sub64 32 p ≡ 32 - p
shift_is p h = omega arith

-- The prefixes that `CreateMask<uint32_t>` can take.
create_mask_lem :
    (p : ℕ)
    → p ≤ 32
    → ((p < 2) × (create_mask 32 p ≡ none))
      ⊎ ((2 ≤ p) × (create_mask 32 p ≡ some (2 ^ (32 - p) - 1)))
create_mask_lem p h = elim (Bool-cases (ltb p 2)) [
  | inl few ↦ inl (ground arith, rw (shift_is p h) (ground arith))
  | inr more ↦ inr (ground arith, rw (shift_is p h) (ground arith))
]

pow-add : (m n : ℕ) → 2 ^ (m + n) ≡ 2 ^ m * 2 ^ n
pow-add m zero = omega (arith, ap (λ (t : ℕ). 2 ^ t) {x = m + zero} {y = m} (omega arith))
pow-add m (suc n) =
    ap (λ (t : ℕ). 2 ^ t) {x = m + suc n} {y = suc (m + n)} (omega arith)
    ∙ pow-suc 2 (m + n)
    ∙ ap (λ (t : ℕ). t * 2) (pow-add m n)
    ∙ mul_assoc (2 ^ m) (2 ^ n) 2
    ∙ ap (λ (t : ℕ). 2 ^ m * t) (sym (pow-suc 2 n))

-- The last number of a block of 2 ^ k, below 2 ^ (p + k).
block_end : (a b p k : ℕ) → a < 2 ^ p * 2 ^ k → b + a % 2 ^ k ≡ a + (2 ^ k - 1) → b < 2 ^ p * 2 ^ k
block_end a b p k h e =
    let some_k = one-le-pow k 2 (omega arith) in
    omega (
      arith,
      some_k,
      mul-le-mul_right (2 ^ k) ((div-lt_iff_lt-mul {k = 2 ^ k} {x = a} {y = 2 ^ p} some_k).1 h),
      suc-mul (a / 2 ^ k) (2 ^ k),
      div-add-mod' a (2 ^ k),
      e,
    )

whole_range : (p : ℕ) → p ≤ 32 → 2 ^ p * 2 ^ (32 - p) ≡ 2 ^ 32
whole_range p h =
    sym (pow-add p (32 - p)) ∙ ap (λ (t : ℕ). 2 ^ t) {x = p + (32 - p)} {y = 32} (omega arith)

module _ (a : IPv4Address) (p : ℕ) (small : a.addr < 2 ^ 32) where
  -- `broadcastAddress` of a prefix of more than 32 bits is null, of less than 2 what the language leaves
  -- open, and else the last address of the block that the address is in, below 2 ^ 32.
  pub broadcast_address_lem :
      ((32 < p) × (broadcast_address a p ≡ null_pointer))
      ⊎ ((p < 2) × (broadcast_address a p ≡ undefined))
      ⊎ ((b : ℕ) × (broadcast_address a p ≡ address (record a { addr = b }))
          × (b + a.addr % 2 ^ (32 - p) ≡ a.addr + (2 ^ (32 - p) - 1))
          × (b < 2 ^ 32))
  unfolding broadcast_address
  broadcast_address_lem = elim (Bool-cases (ltb 32 p)) [
    | inl over ↦ inl (ground arith, rw over refl)
    | inr fits ↦ rw fits (elim (create_mask_lem p (ground arith)) [
      | inl (few, none_made) ↦ inr (inl (few, ap (with_mask _) none_made))
      | inr (more, made) ↦
          let e = bit_or-ones a.addr (32 - p) in
          let b = bit_or a.addr (2 ^ (32 - p) - 1) in
          let w = whole_range p (ground arith) in
          inr (
            inr (
              b,
              ap (with_mask (λ mask. record a { addr = bit_or a.addr mask })) made,
              e,
              omega (arith, w, block_end a.addr b p (32 - p) (omega (arith, w)) e),
            ))
    ])
  ]

  -- `networkAddress` answers in the same cases, with the part of the address behind the prefix: the mask
  -- that it takes has the ones of the hosts. The address of the network is what that part leaves of the
  -- address, which is where the broadcast address begins its count.
  pub network_address_lem :
      ((32 < p) × (network_address a p ≡ null_pointer))
      ⊎ ((p < 2) × (network_address a p ≡ undefined))
      ⊎ ((n : ℕ) × (network_address a p ≡ address (record a { addr = n }))
          × (n + a.addr / 2 ^ (32 - p) * 2 ^ (32 - p) ≡ a.addr)
          × (n < 2 ^ (32 - p)))
  unfolding network_address
  network_address_lem = elim (Bool-cases (ltb 32 p)) [
    | inl over ↦ inl (ground arith, rw over refl)
    | inr fits ↦ rw fits (elim (create_mask_lem p (ground arith)) [
      | inl (few, none_made) ↦ inr (inl (few, ap (with_mask _) none_made))
      | inr (more, made) ↦
          let e = bit_and-mask a.addr (32 - p) in
          let n = bit_and a.addr (2 ^ (32 - p) - 1) in
          inr (
            inr (
              n,
              ap (with_mask (λ mask. record a { addr = bit_and a.addr mask })) made,
              omega (arith, e, div-add-mod' a.addr (2 ^ (32 - p))),
              omega (
                arith,
                e,
                mod-lt a.addr {m = 2 ^ (32 - p)} (one-le-pow (32 - p) 2 (omega arith)),
              ),
            ))
    ])
  ]

-- The mask of a subnet has a one for each bit of the prefix, from the first, and no other.
pub subnet_mask_lem :
    (p : ℕ)
    → 2 ≤ p
    → p ≤ 32
    → subnet_mask p ≡ address (record { family = 2; port = 0; addr = (2 ^ p - 1) * 2 ^ (32 - p) })
unfolding subnet_mask
subnet_mask_lem p some_bits h = elim (create_mask_lem p h) [
  | inl (few, none_made) ↦ absurd (omega arith)
  | inr (more, made) ↦
      ap (with_mask (λ mask. record { family = 2; port = 0; addr = 2 ^ 32 - 1 - mask })) made
      ∙ ap (λ (t : ℕ). address (record { family = 2; port = 0; addr = t }))
          (omega (
            arith,
            suc-mul (2 ^ p - 1) (2 ^ (32 - p)),
            ap (λ (t : ℕ). t * 2 ^ (32 - p)) {x = suc (2 ^ p - 1)} {y = 2 ^ p}
                (omega (arith, one-le-pow p 2 (omega arith))),
            whole_range p h,
            one-le-pow (32 - p) 2 (omega arith),
          ))
]
