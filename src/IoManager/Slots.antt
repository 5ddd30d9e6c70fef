-- ===== src/IoManager/Slots.antt =====
-- The vector of contexts: places, growth, and how many events are registered in it.
use hpgs.Prelude.{
  ℕ, zero, suc, ◌+◌, ◌-◌, ◌*◌, ◌≤◌, ◌≡◌, ◌⊎◌, inl, inr, refl, ap, sym, ◌∙◌, arith, false,
  if◌then◌else◌, take_all,
}
use hpgs.Prelude.{List, [], ◌∷◌, ◌++◌, length, get_elem?, set, some, length-append}
use hpgs.Prelude.{get_elem?-append, some-injective}
use hpgs.IoManager.{Events, FdContext, new_contexts, context_resize, reset_context}

abbrev pub count_events : Events → ℕ
count_events es = (if es.has_read then 1 else 0) + (if es.has_write then 1 else 0)

-- How many events are registered.
unfoldable pub count : List FdContext → ℕ
count [] = 0
count (c ∷ cs) = count_events c.events + count cs

pub count-set :
    (xs : List FdContext) (i : ℕ) (c c' : FdContext)
    → get_elem? xs i ≡ some c
    → count (set xs i c') + count_events c.events ≡ count xs + count_events c'.events
unfolding count
count-set [] i c c' e = absurd (cc)
count-set (x ∷ xs) zero c c' e = ground (arith, ap (λ d. count_events d.events) (some-injective e))
count-set (x ∷ xs) (suc i) c c' e = ground (arith, count-set xs i c c' e)

pub count-le : (xs : List FdContext) → count xs ≤ 2 * length xs
unfolding count
count-le [] = omega arith
count-le (x ∷ xs) = ground (arith, count-le xs)

-- A context that waits for nothing.
abbrev pub free_context : ℕ → FdContext
free_context i = record {
  read_ctx = reset_context;
  write_ctx = reset_context;
  fd = i;
  events = record { has_read = false; has_write = false };
}

new_contexts-free :
    (s n i : ℕ) (c : FdContext) → get_elem? (new_contexts s n) i ≡ some c → c ≡ free_context (s + i)
unfolding new_contexts
new_contexts-free s zero i c e = absurd (cc)
new_contexts-free s (suc n) zero c e = sym (some-injective e) ∙ ap free_context (omega arith)
new_contexts-free s (suc n) (suc i) c e =
    new_contexts-free (s + 1) n i c e ∙ ap free_context (omega arith)

length-new_contexts : (s n : ℕ) → length (new_contexts s n) ≡ n
unfolding new_contexts
length-new_contexts s zero = refl
length-new_contexts s (suc n) = ap suc (length-new_contexts (s + 1) n)

count-new_contexts : (s n : ℕ) → count (new_contexts s n) ≡ 0
unfolding new_contexts count
count-new_contexts s zero = refl
count-new_contexts s (suc n) = omega (arith, count-new_contexts (s + 1) n)

count-append : (xs ys : List FdContext) → count (xs ++ ys) ≡ count xs + count ys
unfolding count
count-append [] ys = omega arith
count-append (x ∷ xs) ys = ground (arith, count-append xs ys)

-- Growth keeps what stands in the vector, and fills it up with free contexts.
module _ (size : ℕ) (cs : List FdContext) (grows : length cs ≤ size) where
  resized : context_resize size cs ≡ cs ++ new_contexts (length cs) (size - length cs)
  unfolding context_resize
  resized = ap (λ xs. xs ++ new_contexts (length cs) (size - length cs)) (take_all size cs grows)

  pub length-context_resize : length (context_resize size cs) ≡ size
  length-context_resize =
      ap length resized
      ∙ length-append cs (new_contexts (length cs) (size - length cs))
      ∙ omega (arith, length-new_contexts (length cs) (size - length cs))

  pub count-context_resize : count (context_resize size cs) ≡ count cs
  count-context_resize =
      ap count resized
      ∙ count-append cs (new_contexts (length cs) (size - length cs))
      ∙ omega (arith, count-new_contexts (length cs) (size - length cs))

  pub get_elem?-context_resize :
      (i : ℕ) (c : FdContext)
      → get_elem? (context_resize size cs) i ≡ some c
      → (get_elem? cs i ≡ some c) ⊎ (c ≡ free_context i)
  get_elem?-context_resize i c e =
      elim (get_elem?-append cs (new_contexts (length cs) (size - length cs)) i c
        (ap (λ xs. get_elem? xs i) (sym resized) ∙ e)) [
          | inl old ↦ inl old
          | inr (k, at, new) ↦
              inr (
                new_contexts-free (length cs) (size - length cs) k c new ∙ ap free_context (sym at))
        ]
