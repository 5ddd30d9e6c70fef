-- ===== src/Stream/Fix.antt =====
-- The loops of readFixSize and writeFixSize end, and move all or stop at an end.
use hpgs.Prelude.Int.{ℤ, pos, negsuc, of_pattern}
use hpgs.Prelude.{
  ℕ, zero, suc, ◌+◌, ◌-◌, ◌^◌, ◌≤◌, ◌<◌, ◌≡◌, refl, ap, sym, ◌∙◌, ◌-◌, arith, Option, some, ◌⊎◌,
  inl, inr, ltb, true, ◌%◌,
}
use mathlib.Core.Path.{subst}
use hpgs.Stream.{to_int, end_code, moved, fix_loop, fix_size}

-- `read` and `write` answer how much they moved, no more than was asked, or a negative `int`.
abbrev pub Within : ℕ → ℤ → Type 0
Within left (pos n) = n ≤ left
Within left (negsuc n) = n < 2 ^ 31

-- An answer that ends the loop.
abbrev pub Stops : ℤ → Type 0
Stops code = (code ≡ pos 0) ⊎ ((n : ℕ) × (code ≡ negsuc n))

end_code_lem : (n : ℕ) → n < 2 ^ 31 → end_code n ≡ negsuc n
end_code_lem n h =
    ap (of_pattern 32) {x = 2 ^ 32 - 1 - n % 2 ^ 32} {y = 2 ^ 32 - 1 - n} (omega arith)
    ∙ ground arith

module _ {S : Type 0} (transfer : ℕ → ℕ → S → ℤ × S) (At : ℕ → S → Type 0) where
  -- What holds of the state once `offset` bytes have been moved, for each answer.
  abbrev pub Advanced : ℕ → ℤ → S → Type 0
  Advanced offset (pos n) s = At (offset + n) s
  Advanced offset (negsuc n) s = At offset s

  -- All has been moved; or `k` bytes have been, and then the call for the rest answered an end, which is
  -- the answer of the loop.
  abbrev pub Ended : ℕ → Option (ℤ × S) → Type 0
  Ended length o =
      (code : ℤ) × (s : S) × (o ≡ some (code, s))
      × (((code ≡ to_int length) × At length s)
          ⊎ ((k : ℕ) × (before : S) × (k < length)
              × At k before
              × (transfer k (length - k) before ≡ (code, s))
              × Stops code))

  module _
      (moves : (offset left : ℕ) (s : S)
        → At offset s
        → Within left (transfer offset left s).0
          × Advanced offset (transfer offset left s).0 (transfer offset left s).1) where
    moved-Ended :
        (again : ℕ → ℕ → S → Option (ℤ × S)) (length offset left : ℕ) (before : S) (r : ℤ) (s : S)
        → offset + suc left ≡ length
        → At offset before
        → transfer offset (length - offset) before ≡ (r, s)
        → ((offset' left' : ℕ) (s' : S)
            → left' ≤ left
            → offset' + left' ≡ length
            → At offset' s'
            → Ended length (again offset' left' s'))
        → Within (suc left) r
        → Advanced offset r s
        → Ended length (moved transfer again offset (suc left) (r, s))
    moved-Ended again length offset left before (pos zero) s e here call next w at =
        (pos zero, s, refl, inr (offset, before, omega arith, here, call, inl refl))
    moved-Ended again length offset left before (pos (suc n)) s e here call next w at =
        next (offset + suc n) (suc left - suc n) s (omega arith) (omega arith) at
    moved-Ended again length offset left before (negsuc n) s e here call next w at =
        let code : end_code n ≡ negsuc n = end_code_lem n w in
        (
          end_code n,
          s,
          refl,
          inr (
            offset,
            before,
            omega arith,
            here,
            call ∙ ap (λ x. (x, s)) (sym code),
            inr (n, code),
          ),
        )

    fix_loop-Ended :
        (fuel length offset left : ℕ) (s : S)
        → left ≤ fuel
        → offset + left ≡ length
        → At offset s
        → Ended length (fix_loop transfer fuel length offset left s)
    fix_loop-Ended fuel length offset zero s enough e at =
        (to_int length, s, refl, inl (refl, subst (λ k. At k s) (omega arith) at))
    fix_loop-Ended zero length offset (suc left) s enough e at = absurd (omega arith)
    fix_loop-Ended (suc fuel) length offset (suc left) s enough e at =
        let (w, at') = moves offset (suc left) s at in
        moved-Ended (fix_loop transfer fuel length) length offset left s
          (transfer offset (suc left) s).0 (transfer offset (suc left) s).1 e at
          (ap (λ n. transfer offset n s) {x = length - offset} {y = suc left} (omega arith))
          (λ offset' left' s' fewer e' at''.
            fix_loop-Ended fuel length offset' left' s' (omega arith) e' at'')
          w at'

    -- For a length below 2 ^ 63 the loop ends, after as many turns as there are bytes at most. What each call
    -- keeps of the state and of the count of bytes so far holds at the end: of the whole length, which is
    -- what is returned, cut to an `int`; or of less before the last call, which was for all the rest, and
    -- what is returned is the answer of that call, 0 or negative.
    pub fix_size-Ended :
        (length : ℕ) (s : S) → length < 2 ^ 63 → At 0 s → Ended length (fix_size transfer length s)
    unfolding fix_size
    fix_size-Ended length s small at =
        rw (fits small) (fix_loop-Ended length length 0 length s (omega arith) (omega arith) at)
      where
        fits : length < 2 ^ 63 → ltb length (2 ^ 63) ≡ true
        fits h = ground arith
