-- ===== src/Stream/Tests.antt =====
-- A source of which at most two bytes come at a time.
use hpgs.Prelude.Int.{ℤ, pos}
use hpgs.Prelude.{
  ℕ, ◌≡◌, refl, arith, min, List, [], ◌∷◌, ◌++◌, some, length, take, drop, length-append,
  length-take,
}
use hpgs.Stream.{fix_size}
use hpgs.Stream.Fix.{Within, Advanced, Ended, fix_size-Ended}

abbrev two_at_most : ℕ → ℕ → List ℕ × List ℕ → ℤ × (List ℕ × List ℕ)
two_at_most offset left (source, buffer) =
    let k = min 2 (min left (length source)) in (pos k, (drop k source, buffer ++ take k source))

abbrev Filled : ℕ → List ℕ × List ℕ → Type 0
Filled n s = length s.1 ≡ n

abbrev source : List ℕ × List ℕ
source = (1 ∷ 2 ∷ 3 ∷ 4 ∷ [], [])

three : fix_size two_at_most 3 source ≡ some (pos 3, (4 ∷ [], 1 ∷ 2 ∷ 3 ∷ []))
unfolding fix_size
three = refl

short : fix_size two_at_most 6 source ≡ some (pos 0, ([], 1 ∷ 2 ∷ 3 ∷ 4 ∷ []))
unfolding fix_size
short = refl

moves :
    (offset left : ℕ) (s : List ℕ × List ℕ)
    → Filled offset s
    → Within left (two_at_most offset left s).0
      × Advanced two_at_most Filled offset
          (two_at_most offset left s).0
          (two_at_most offset left s).1
moves offset left (source, buffer) at =
    let k = min 2 (min left (length source)) in
    (omega arith, omega (arith, at, length-append buffer (take k source), length-take k source))

fix_size-Ended_example : Ended two_at_most Filled 3 (fix_size two_at_most 3 source)
fix_size-Ended_example = fix_size-Ended two_at_most Filled moves 3 source (omega arith) refl
