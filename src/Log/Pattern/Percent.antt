-- ===== src/Log/Pattern/Percent.antt =====
-- What the loop of `LogFormatter::init` makes of a percent sign at the end of a pattern.
use hpgs.Prelude.{
  ℕ, zero, suc, ◌+◌, ◌≤◌, ◌≡◌, refl, arith, Bool, true, false, Bool-cases, inl, inr, List, [], ◌∷◌,
  ◌++◌, ◌==◌, if◌then◌else◌, length,
}
use hpgs.Log.Pattern.{
  Piece, item, Pieces, Scan, found, unclosed, scan_format, scan_name, step, loop, pieces, take_scan,
  ends_name, flushed, starts_percent,
}

abbrev percent : List ℕ
percent = b'%' ∷ []

-- A scan that ends stops before the last percent sign of what it reads.
abbrev Within : ℕ → Scan → Type 0
Within limit (found str fmt n) = n ≤ limit
Within limit unclosed = Unit

Within-weaker : (l m : ℕ) (s : Scan) → l ≤ m → Within l s → Within m s
Within-weaker l m (found str fmt n) h w = omega arith
Within-weaker l m unclosed h w = tt

Within-if :
    (m : ℕ) (t : Bool) (a b : Scan) → Within m a → Within m b → Within m (if t then a else b)
Within-if m true a b ha hb = ha
Within-if m false a b ha hb = hb

scan_format-Within :
    (str seen : List ℕ) (n : ℕ) (cs : List ℕ)
    → Within (n + length cs) (scan_format str seen n (cs ++ percent))
unfolding scan_format
scan_format-Within str seen n [] = tt
scan_format-Within str seen n (c ∷ cs) =
    Within-if _ (c == b'}') _ _ (omega arith)
      (Within-weaker _ _ _ (omega arith) (scan_format-Within str (seen ++ c ∷ []) (suc n) cs))

scan_name-Within :
    (seen : List ℕ) (n : ℕ) (cs : List ℕ)
    → Within (n + length cs) (scan_name seen n (cs ++ percent))
unfolding scan_name
scan_name-Within seen n [] = omega arith
scan_name-Within seen n (c ∷ cs) = Within-if _ (ends_name c) _ _ (omega arith) (
    Within-if _ (c == b'{') _ _
      (Within-weaker _ _ _ (omega arith) (scan_format-Within seen [] (suc n) cs))
      (Within-weaker _ _ _ (omega arith) (scan_name-Within (seen ++ c ∷ []) (suc n) cs)))

take_scan-Within : (m : ℕ) (p : Pieces) (s : Scan) → Within m s → (take_scan p s).1 ≤ m
take_scan-Within m p (found str fmt n) h = h
take_scan-Within m p unclosed h = omega arith

step-Within : (p : Pieces) (c : ℕ) (cs : List ℕ) → (step p c (cs ++ percent)).1 ≤ length cs
unfolding step
step-Within p c cs = elim (Bool-cases (c == b'%')) [
  | inl h ↦ rw h (elim (Bool-cases (starts_percent (cs ++ percent))) [
    | inl d ↦ rw d (omega arith)
    | inr d ↦ rw d (omega (arith, take_scan-Within _ p _ (scan_name-Within [] 0 cs)))
  ])
  | inr h ↦ rw h (omega arith)
]

-- The last piece is an item without a name, and no text is pending.
abbrev EndsNameless : Pieces → Type 0
EndsNameless p = (xs : List Piece) × (p.vec ≡ xs ++ item [] [] ∷ []) × (p.nstr ≡ [])

pub loop-EndsNameless :
    (k : ℕ) (p : Pieces) (cs : List ℕ) → k ≤ length cs → EndsNameless (loop k p (cs ++ percent))
unfolding loop step scan_name
loop-EndsNameless zero p [] h = (flushed p.vec p.nstr, refl, refl)
loop-EndsNameless (suc k) p [] h = absurd (omega arith)
loop-EndsNameless zero p (c ∷ cs) h =
    loop-EndsNameless (step p c (cs ++ percent)).1 (step p c (cs ++ percent)).0 cs
      (step-Within p c cs)
loop-EndsNameless (suc k) p (c ∷ cs) h = loop-EndsNameless k p cs (omega arith)

-- A pattern that ends in a percent sign ends in an item without a name, however many percent signs
-- stand before it.
pub pieces-percent :
    (m_error : Bool) (m_pattern : List ℕ)
    → (xs : List Piece) × ((pieces m_error (m_pattern ++ percent)).0 ≡ xs ++ item [] [] ∷ [])
unfolding pieces
pieces-percent m_error m_pattern =
    let (xs, e, quiet) =
      loop-EndsNameless 0 (record { vec = []; nstr = []; error = m_error }) m_pattern
        (omega arith) in
    (xs, rw quiet e)
