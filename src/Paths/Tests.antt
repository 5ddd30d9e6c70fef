-- ===== src/Paths/Tests.antt =====
-- The names "a/b" and "/b".
use hpgs.Prelude.{◌≡◌, refl, [], ◌∷◌}
use hpgs.Paths.{dirname, rfind}

directory : dirname (97 ∷ 47 ∷ 98 ∷ []) ≡ 97 ∷ []
unfolding dirname rfind
directory = refl

root : dirname (47 ∷ 98 ∷ []) ≡ 47 ∷ []
unfolding dirname rfind
root = refl
