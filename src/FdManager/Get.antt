-- ===== src/FdManager/Get.antt =====
-- `get` and `del` of the table of descriptors.
use hpgs.Prelude.{
  ℕ, ◌≤◌, ◌≡◌, ◌⊎◌, inl, inr, refl, ap, sym, ◌∙◌, arith, Bool, true, false, Bool-cases, ==_iff,
}
use hpgs.Prelude.{Option, none, some, length, get_elem?, set, ltb, ◌==◌, if◌then◌else◌, length-set}
use hpgs.Prelude.{get_elem?-set, get_elem?-set_other, get_elem?-lt, get_elem?-past, some-injective}
use hpgs.Prelude.Int.{pos}
use mathlib.Core.Path.{subst}
use hpgs.FdManager.{FdManager, new_fd_ctx, init, look, look_at, get_create, get_looked, get, del}
use hpgs.FdManager.Room.{widened, widened-lt, widened-le, widened_kept, widened_old}

-- The table never gets smaller than two places, and each object in it is that of its descriptor.
pub record IsValid (m : FdManager) : Type 0 where
  pub grown : 2 ≤ length m.datas
  pub own : (i p : ℕ) → get_elem? m.datas i ≡ some (some p) → (m.objects p).fd ≡ i

-- The address `p` is not in the table.
abbrev pub IsFresh : ℕ → FdManager → Type 0
IsFresh p m = (i q : ℕ) → get_elem? m.datas i ≡ some (some q) → (p == q) ≡ false

new_fd_ctx-fd :
    (fstat : ℕ → Option Bool) (fd : ℕ) (k : ℕ → Bool) → (new_fd_ctx fstat fd k).0.fd ≡ fd
unfolding new_fd_ctx init
new_fd_ctx-fd fstat fd k = refl

module _ (fstat : ℕ → Option Bool) (fresh fd : ℕ) (m : FdManager) (v : IsValid m)
    (new : IsFresh fresh m) where
  abbrev created : FdManager
  created = record {
    datas = set (widened fd m.datas) fd (some fresh);
    objects = λ q. if fresh == q then (new_fd_ctx fstat fd m.nonblock).0 else m.objects q;
    nonblock = (new_fd_ctx fstat fd m.nonblock).1;
  }

  slot : get_elem? created.datas fd ≡ some (some fresh)
  slot =
      let (x, at) = get_elem?-lt (widened fd m.datas) fd (widened-lt fd m.datas v.grown) in
      get_elem?-set (widened fd m.datas) fd (some fresh) x at

  -- The second half of `get` stores the new object, and never past the end of the table.
  create_lem : get_create fstat fresh fd m ≡ some (some fresh, created)
  unfolding get_create
  create_lem =
      let room : ltb fd (length (widened fd m.datas)) ≡ true =
        ground (arith, widened-lt fd m.datas v.grown) in
      rw room refl

  created-IsValid : IsValid created
  created-IsValid = record {
    grown = omega (
      arith,
      length-set (widened fd m.datas) fd (some fresh),
      widened-le fd m.datas v.grown,
      v.grown,
    );
    own = λ i p e. elim (Bool-cases (fd == i)) [
      | inl same ↦
          let at : fd ≡ i = (==_iff fd i).0 same in
          let it : fresh ≡ p =
            some-injective (some-injective (sym slot ∙ ap (get_elem? created.datas) at ∙ e)) in
          rw ((==_iff fresh p).1 it) (new_fd_ctx-fd fstat fd m.nonblock ∙ at)
      | inr other ↦
          let old : get_elem? m.datas i ≡ some (some p) =
            widened_old fd m.datas v.grown i p
              (sym (get_elem?-set_other (widened fd m.datas) fd i (some fresh) other) ∙ e) in
          rw (new i p old) (v.own i p old)
    ];
  }

  created-IsFresh : (q : ℕ) → (q == fresh) ≡ false → IsFresh q m → IsFresh q created
  created-IsFresh q differs unused i p e = elim (Bool-cases (fd == i)) [
    | inl same ↦
        let it : fresh ≡ p =
          some-injective
            (some-injective (sym slot ∙ ap (get_elem? created.datas) ((==_iff fd i).0 same) ∙ e)) in
        subst (λ x. (q == x) ≡ false) it differs
    | inr other ↦ unused i p (
        widened_old fd m.datas v.grown i p
          (sym (get_elem?-set_other (widened fd m.datas) fd i (some fresh) other) ∙ e))
  ]

  others :
      (i : ℕ) (x : Option ℕ)
      → (fd == i) ≡ false
      → get_elem? m.datas i ≡ some x
      → get_elem? created.datas i ≡ some x
  others i x n e =
      get_elem?-set_other (widened fd m.datas) fd i (some fresh) n
      ∙ widened_kept fd m.datas v.grown i x e

  -- `get` with `auto_create` answers the object of the descriptor: the one that is in the table, and
  -- then it changes nothing; or the new one, which it makes and stores. It keeps the invariant and the
  -- other places, and afterwards `get` answers that object again, with `auto_create` and without.
  pub get_create_lem :
      (p : ℕ) × (m' : FdManager) × (get fstat fresh (pos fd) true m ≡ some (some p, m'))
      × IsValid m'
      × ((again : ℕ) (auto_create : Bool)
          → get fstat again (pos fd) auto_create m' ≡ some (some p, m'))
      × ((i : ℕ) (x : Option ℕ)
          → (fd == i) ≡ false
          → get_elem? m.datas i ≡ some x
          → get_elem? m'.datas i ≡ some x)
      × ((get_elem? m.datas fd ≡ some (some p)) × (m' ≡ m)
          ⊎ (p ≡ fresh) × (m'.objects p ≡ (new_fd_ctx fstat fd m.nonblock).0))
  unfolding get look
  get_create_lem = from_place (get_elem? m.datas fd) refl
    where
      stored : fresh == fresh ≡ true
      stored = (==_iff fresh fresh).1 refl

      from_place :
          (o : Option (Option ℕ))
          → get_elem? m.datas fd ≡ o
          → (p : ℕ) × (m' : FdManager) × (get_looked fstat fresh (pos fd) m (look_at true o)
              ≡ some (some p, m'))
            × IsValid m'
            × ((again : ℕ) (auto_create : Bool)
                → get fstat again (pos fd) auto_create m' ≡ some (some p, m'))
            × ((i : ℕ) (x : Option ℕ)
                → (fd == i) ≡ false
                → get_elem? m.datas i ≡ some x
                → get_elem? m'.datas i ≡ some x)
            × ((get_elem? m.datas fd ≡ some (some p)) × (m' ≡ m)
                ⊎ (p ≡ fresh) × (m'.objects p ≡ (new_fd_ctx fstat fd m.nonblock).0))
      from_place (some (some p)) at =
          (p, m, refl, v, λ again a. rw at refl, λ i x n e. e, inl (at, refl))
      from_place (some none) at = (
        fresh,
        created,
        create_lem,
        created-IsValid,
        λ again a. rw slot refl,
        others,
        inr (refl, rw stored refl),
      )
      from_place none at = (
        fresh,
        created,
        create_lem,
        created-IsValid,
        λ again a. rw slot refl,
        others,
        inr (refl, rw stored refl),
      )

-- `get` without `auto_create` answers what is in the table, null past its end, and changes nothing.
pub get_only_lem :
    (fstat : ℕ → Option Bool) (fresh fd : ℕ) (m : FdManager)
    → get fstat fresh (pos fd) false m
      ≡ some (elim (get_elem? m.datas fd) [ some p ↦ p | none ↦ none ], m)
unfolding get look
get_only_lem fstat fresh fd m = from_place (get_elem? m.datas fd)
  where
    from_place :
        (o : Option (Option ℕ))
        → get_looked fstat fresh (pos fd) m (look_at false o)
          ≡ some (elim o [ some p ↦ p | none ↦ none ], m)
    from_place none = refl
    from_place (some none) = refl
    from_place (some (some p)) = refl

-- Where two threads both come to the second half of `get` for a descriptor, each makes an object: the
-- table keeps the second, and the first thread has one that `get` does not answer.
pub get_create_race :
    (fstat : ℕ → Option Bool) (first second fd : ℕ) (m : FdManager)
    → IsValid m
    → IsFresh first m
    → IsFresh second m
    → (second == first) ≡ false
    → (m' m'' : FdManager) × (get_create fstat first fd m ≡ some (some first, m'))
      × (get_create fstat second fd m' ≡ some (some second, m''))
      × ((again : ℕ) (auto_create : Bool)
          → get fstat again (pos fd) auto_create m'' ≡ some (some second, m''))
unfolding get look
get_create_race fstat first second fd m v new new' differs =
    let m' : FdManager = created fstat first fd m v new in
    let made : get_create fstat first fd m ≡ some (some first, m') =
      create_lem fstat first fd m v new in
    let v' : IsValid m' = created-IsValid fstat first fd m v new in
    let later : IsFresh second m' = created-IsFresh fstat first fd m v new second differs new' in
    (
      m',
      created fstat second fd m' v' later,
      made,
      create_lem fstat second fd m' v' later,
      λ again a. rw (slot fstat second fd m' v' later) refl,
    )

-- `del` of a descriptor leaves its place empty, so that `get` without `auto_create` answers null. It
-- keeps the invariant and every other place, and does nothing past the end of the table.
pub del_lem :
    (fstat : ℕ → Option Bool) (fresh fd : ℕ) (m : FdManager)
    → IsValid m
    → (m' : FdManager) × (del (pos fd) m ≡ some m')
      × IsValid m'
      × (get fstat fresh (pos fd) false m' ≡ some (none, m'))
      × ((i : ℕ) → (fd == i) ≡ false → get_elem? m'.datas i ≡ get_elem? m.datas i)
unfolding del
del_lem fstat fresh fd m v = elim (Bool-cases (ltb fd (length m.datas))) [
  | inl there ↦
      let (x, at) = get_elem?-lt m.datas fd (ground arith) in
      let m' : FdManager = record m { datas = set m.datas fd none } in
      let gone : get_elem? m'.datas fd ≡ some none = get_elem?-set m.datas fd none x at in
      (
        m',
        rw there refl,
        record {
          grown = omega (arith, length-set m.datas fd none, v.grown);
          own = λ i p e. elim (Bool-cases (fd == i)) [
            | inl same ↦ absurd (
                clash
                  (some-injective (sym gone ∙ ap (get_elem? m'.datas) ((==_iff fd i).0 same) ∙ e)))
            | inr other ↦ v.own i p (sym (get_elem?-set_other m.datas fd i none other) ∙ e)
          ];
        },
        get_only_lem fstat fresh fd m' ∙ rw gone refl,
        λ i n. get_elem?-set_other m.datas fd i none n,
      )
  | inr past ↦
      let none_there : get_elem? m.datas fd ≡ none = get_elem?-past m.datas fd (ground arith) in
      (m, rw past refl, v, get_only_lem fstat fresh fd m ∙ rw none_there refl, λ i n. refl)
]
  where
    clash : {p : ℕ} → none ≡ some p → ⊥
    clash e = cc
