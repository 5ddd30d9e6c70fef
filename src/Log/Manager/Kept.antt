-- ===== src/Log/Manager/Kept.antt =====
-- What each call on loggers and appenders keeps of a well-formed state.
use mathlib.Core.Path.{subst}
use hpgs.Prelude.{
  ℕ, zero, suc, ◌+◌, ◌<◌, ◌≡◌, refl, ap, sym, ◌∙◌, arith, Bool, true, false, List, [], ◌∷◌, ◌++◌,
  Option, none, some, length, get_elem?, set, All, Bool-cases, inl, inr, Option-cases,
  some-injective, if◌then◌else◌, ◌==◌, length-append, All-append, length-set,
}
use hpgs.Log.Items.{LogFormatter, new_formatter}
use hpgs.Log.Loggers.{
  LogAppender, Logger, LogState, update, update_all, follow, adopt, adopt_as, set_own,
  set_formatter, set_formatter_text, set_level, add_appender, del_appender, erase_first,
}
use hpgs.Log.Loggers.Formatters.{formatters, HasFormatter, GoodLogger, GoodFrom, WellFormed}
use hpgs.Log.Manager.{new_logger, new_appender, new_manager, get_logger, get_logger_at}

-- A change that leaves no appender without a formatter that had one.
abbrev Keeps : (LogAppender → LogAppender) → Type 0
Keeps c =
    (a : LogAppender) (f : LogFormatter)
    → a.formatter ≡ some f
    → (g : LogFormatter) × ((c a).formatter ≡ some g)

update-suc :
    (c : LogAppender → LogAppender) (i : ℕ) (a : LogAppender) (ts : List LogAppender)
    → update c (suc i) (a ∷ ts) ≡ a ∷ update c i ts
update-suc c i a ts = elim (Option-cases (get_elem? ts i)) [
  | inl h ↦ rw h refl
  | inr (b, h) ↦ rw h refl
]

update-HasFormatter :
    (c : LogAppender → LogAppender) (i j : ℕ) (ts : List LogAppender)
    → Keeps c
    → HasFormatter (formatters ts) j
    → HasFormatter (formatters (update c i ts)) j
update-HasFormatter c i j [] keeps h = h
update-HasFormatter c zero zero (a ∷ ts) keeps (f, h) =
    let (g, e) = keeps a f (some-injective h) in (g, ap some e)
update-HasFormatter c zero (suc j) (a ∷ ts) keeps h = h
update-HasFormatter c (suc i) zero (a ∷ ts) keeps h =
    subst (λ ts'. HasFormatter (formatters ts') 0) (sym (update-suc c i a ts)) h
update-HasFormatter c (suc i) (suc j) (a ∷ ts) keeps h =
    subst (λ ts'. HasFormatter (formatters ts') (suc j)) (sym (update-suc c i a ts))
      (update-HasFormatter c i j ts keeps h)

-- A change that gives any appender a formatter.
update-gives :
    (c : LogAppender → LogAppender) (i : ℕ) (ts : List LogAppender)
    → ((a : LogAppender) → (g : LogFormatter) × ((c a).formatter ≡ some g))
    → i < length ts
    → HasFormatter (formatters (update c i ts)) i
update-gives c i [] gives lt = absurd (omega arith)
update-gives c zero (a ∷ ts) gives lt = let (g, e) = gives a in (g, ap some e)
update-gives c (suc i) (a ∷ ts) gives lt =
    subst (λ ts'. HasFormatter (formatters ts') (suc i)) (sym (update-suc c i a ts))
      (update-gives c i ts gives (omega arith))

update_all-HasFormatter :
    (c : LogAppender → LogAppender) (is : List ℕ) (j : ℕ) (ts : List LogAppender)
    → Keeps c
    → HasFormatter (formatters ts) j
    → HasFormatter (formatters (update_all c is ts)) j
update_all-HasFormatter c [] j ts keeps h = h
update_all-HasFormatter c (i ∷ is) j ts keeps h =
    update_all-HasFormatter c is j (update c i ts) keeps (update-HasFormatter c i j ts keeps h)

follow-Keeps : (f : LogFormatter) → Keeps (follow (some f))
follow-Keeps f a g h = elim (Bool-cases a.has_formatter) [
  | inl own ↦ rw own (g, h)
  | inr none_own ↦ rw none_own (f, refl)
]

adopt_as-gives :
    (f : LogFormatter) (a : LogAppender) (o : Option LogFormatter)
    → a.formatter ≡ o
    → (g : LogFormatter) × ((adopt_as (some f) a o).formatter ≡ some g)
adopt_as-gives f a none h = (f, refl)
adopt_as-gives f a (some g) h = (g, h)

append-HasFormatter :
    (ts : List LogAppender) (a : LogAppender) (j : ℕ)
    → HasFormatter (formatters ts) j
    → HasFormatter (formatters (ts ++ a ∷ [])) j
append-HasFormatter [] a j (f, h) = absurd (cc)
append-HasFormatter (b ∷ ts) a zero h = h
append-HasFormatter (b ∷ ts) a (suc j) h = append-HasFormatter ts a j h

-- Loggers stay good where the appenders with a formatter are no fewer.
All-HasFormatter :
    (fs fs' : List (Option LogFormatter)) (is : List ℕ)
    → ((j : ℕ) → HasFormatter fs j → HasFormatter fs' j)
    → All (HasFormatter fs) is
    → All (HasFormatter fs') is
All-HasFormatter fs fs' [] more h = tt
All-HasFormatter fs fs' (i ∷ is) more h = (more i h.0, All-HasFormatter fs fs' is more h.1)

pub GoodFrom-more :
    (fs fs' : List (Option LogFormatter)) (n : ℕ) (gs : List Logger)
    → ((j : ℕ) → HasFormatter fs j → HasFormatter fs' j)
    → GoodFrom fs n gs
    → GoodFrom fs' n gs
GoodFrom-more fs fs' n [] more h = tt
GoodFrom-more fs fs' n (g ∷ gs) more h = (
  record {
    own = h.0.own;
    printable = All-HasFormatter fs fs' g.appenders more h.0.printable;
    ranked = h.0.ranked;
  },
  GoodFrom-more fs fs' (suc n) gs more h.1,
)

GoodFrom-set :
    (fs : List (Option LogFormatter)) (n : ℕ) (gs : List Logger) (l m : ℕ) (g : Logger)
    → GoodFrom fs n gs
    → m ≡ n + l
    → GoodLogger fs m g
    → GoodFrom fs n (set gs l g)
GoodFrom-set fs n [] l m g h e good = tt
GoodFrom-set fs n (g' ∷ gs) zero m g h e good =
    (subst (λ k. GoodLogger fs k g) (omega arith) good, h.1)
GoodFrom-set fs n (g' ∷ gs) (suc l) m g h e good =
    (h.0, GoodFrom-set fs (suc n) gs l m g h.1 (omega arith) good)

GoodFrom-append :
    (fs : List (Option LogFormatter)) (n : ℕ) (gs : List Logger) (m : ℕ) (g : Logger)
    → GoodFrom fs n gs
    → m ≡ n + length gs
    → GoodLogger fs m g
    → GoodFrom fs n (gs ++ g ∷ [])
GoodFrom-append fs n [] m g h e good = (subst (λ k. GoodLogger fs k g) (omega arith) good, tt)
GoodFrom-append fs n (g' ∷ gs) m g h e good =
    (h.0, GoodFrom-append fs (suc n) gs m g h.1 (omega arith) good)

GoodFrom-at :
    (fs : List (Option LogFormatter)) (n : ℕ) (gs : List Logger) (l m : ℕ) (g : Logger)
    → GoodFrom fs n gs
    → get_elem? gs l ≡ some g
    → m ≡ n + l
    → GoodLogger fs m g
GoodFrom-at fs n [] l m g h found e = absurd (cc)
GoodFrom-at fs n (g' ∷ gs) zero m g h found e =
    subst (λ x. GoodLogger fs m x) (some-injective found)
      (subst (λ k. GoodLogger fs k g') (omega arith) h.0)
GoodFrom-at fs n (g' ∷ gs) (suc l) m g h found e =
    GoodFrom-at fs (suc n) gs l m g h.1 found (omega arith)

-- Some logger is there, the root, and the state is well-formed.
abbrev pub Ready : LogState → Type 0
Ready s = WellFormed s × (0 < length s.loggers)

module _ (s : LogState) (l : ℕ) (g : Logger) (ready : Ready s)
    (found : get_elem? s.loggers l ≡ some g) where
  good_here : GoodLogger (formatters s.targets) l g
  good_here = GoodFrom-at (formatters s.targets) 0 s.loggers l l g ready.0 found (omega arith)

  follows_more :
      (f : LogFormatter) (j : ℕ)
      → HasFormatter (formatters s.targets) j
      → HasFormatter (formatters (update_all (follow (some f)) g.appenders s.targets)) j
  follows_more f j h =
      update_all-HasFormatter (follow (some f)) g.appenders j s.targets (follow-Keeps f) h

  pub set_formatter-Ready : (f : LogFormatter) → Ready (set_formatter s l g (some f))
  unfolding set_formatter
  set_formatter-Ready f =
      let fs' = formatters (update_all (follow (some f)) g.appenders s.targets) in
      let more = follows_more f in
      (
        GoodFrom-set fs' 0 s.loggers l l _
            (GoodFrom-more (formatters s.targets) fs' 0 s.loggers more ready.0) (omega arith)
            (record {
              own = (f, refl);
              printable =
                  All-HasFormatter (formatters s.targets) fs' g.appenders more good_here.printable;
              ranked = good_here.ranked;
            }),
        omega (arith, length-set s.loggers l (record g { formatter = some f }), ready.1),
      )

  pub set_level-Ready : (level : ℕ) → Ready (set_level s l g level)
  unfolding set_level
  set_level-Ready level = (
    GoodFrom-set (formatters s.targets) 0 s.loggers l l _ ready.0 (omega arith) (record {
      own = good_here.own;
      printable = good_here.printable;
      ranked = good_here.ranked;
    }),
    omega (arith, length-set s.loggers l (record g { level = level }), ready.1),
  )

  by_error : (b : Bool) (f : LogFormatter) → Ready (if b then s else set_formatter s l g (some f))
  by_error true f = ready
  by_error false f = set_formatter-Ready f

  pub set_formatter_text-Ready :
      (m_error : Bool) (val : List ℕ) → Ready (set_formatter_text m_error s l g val)
  unfolding set_formatter_text
  set_formatter_text-Ready m_error val =
      by_error (new_formatter m_error val).error (new_formatter m_error val)

  adopts : (a : LogAppender) → (h : LogFormatter) × ((adopt g.formatter a).formatter ≡ some h)
  adopts a =
      let (f, e) = good_here.own in
      subst (λ o. (h : LogFormatter) × ((adopt_as o a a.formatter).formatter ≡ some h)) (sym e)
        (adopt_as-gives f a a.formatter refl)

  adopts_more :
      (i j : ℕ)
      → HasFormatter (formatters s.targets) j
      → HasFormatter (formatters (update (adopt g.formatter) i s.targets)) j
  adopts_more i j h = update-HasFormatter (adopt g.formatter) i j s.targets (λ a f e. adopts a) h

  pub add_appender-Ready : (i : ℕ) → i < length s.targets → Ready (add_appender s l g i)
  unfolding add_appender
  add_appender-Ready i lt =
      let fs' = formatters (update (adopt g.formatter) i s.targets) in
      let more = adopts_more i in
      (
        GoodFrom-set fs' 0 s.loggers l l _
            (GoodFrom-more (formatters s.targets) fs' 0 s.loggers more ready.0) (omega arith)
            (record {
              own = good_here.own;
              printable =
                  All-append (HasFormatter fs') g.appenders (i ∷ [])
                    (All-HasFormatter (formatters s.targets) fs' g.appenders more
                      good_here.printable)
                    (update-gives (adopt g.formatter) i s.targets adopts lt, tt);
              ranked = good_here.ranked;
            }),
        omega (
          arith,
          length-set s.loggers l (record g { appenders = g.appenders ++ i ∷ [] }),
          ready.1,
        ),
      )

  erase_first-All :
      (fs : List (Option LogFormatter)) (i : ℕ) (is : List ℕ)
      → All (HasFormatter fs) is
      → All (HasFormatter fs) (erase_first i is)
  erase_first-All fs i [] h = tt
  erase_first-All fs i (j ∷ js) h = elim (Bool-cases (j == i)) [
    | inl e ↦ rw e h.1
    | inr n ↦ rw n (h.0, erase_first-All fs i js h.1)
  ]

  pub del_appender-Ready : (i : ℕ) → Ready (del_appender s l g i)
  unfolding del_appender
  del_appender-Ready i = (
    GoodFrom-set (formatters s.targets) 0 s.loggers l l _ ready.0 (omega arith) (record {
      own = good_here.own;
      printable = erase_first-All (formatters s.targets) i g.appenders good_here.printable;
      ranked = good_here.ranked;
    }),
    omega (
      arith,
      length-set s.loggers l (record g { appenders = erase_first i g.appenders }),
      ready.1,
    ),
  )

pub own_formatter-Ready :
    (s : LogState) (i : ℕ) (f : LogFormatter)
    → Ready s
    → Ready (record s { targets = update (set_own (some f)) i s.targets })
own_formatter-Ready s i f ready = (
  GoodFrom-more (formatters s.targets) _ 0 s.loggers
      (λ j h. update-HasFormatter (set_own (some f)) i j s.targets (λ a g e. (f, refl)) h) ready.0,
  ready.1,
)

-- A change of an appender that leaves its formatter.
pub changed_appender-Ready :
    (s : LogState) (i : ℕ) (c : LogAppender → LogAppender)
    → ((a : LogAppender) → (c a).formatter ≡ a.formatter)
    → Ready s
    → Ready (record s { targets = update c i s.targets })
changed_appender-Ready s i c same ready = (
  GoodFrom-more (formatters s.targets) _ 0 s.loggers
      (λ j h. update-HasFormatter c i j s.targets (λ a g e. (g, same a ∙ e)) h) ready.0,
  ready.1,
)

pub fresh_appender-Ready :
    (s : LogState) (a : LogAppender) → Ready s → Ready (record s { targets = s.targets ++ a ∷ [] })
fresh_appender-Ready s a ready = (
  GoodFrom-more (formatters s.targets) _ 0 s.loggers (λ j h. append-HasFormatter s.targets a j h)
      ready.0,
  ready.1,
)

get_logger_at-Ready :
    (m_error : Bool) (name : List ℕ) (s : LogState) (o : Option ℕ)
    → Ready s
    → Ready (get_logger_at m_error name s o).0
unfolding new_logger
get_logger_at-Ready m_error name s (some l) ready = ready
get_logger_at-Ready m_error name s none ready =
    let g = record (new_logger m_error name) { root = some 0 } in
    (
      GoodFrom-append (formatters s.targets) 0 s.loggers (length s.loggers) g ready.0 (omega arith)
          (record { own = (_, refl); printable = tt; ranked = ready.1 }),
      omega (arith, length-append s.loggers (g ∷ [])),
    )

pub get_logger-Ready :
    (m_error : Bool) (name : List ℕ) (s : LogState) → Ready s → Ready (get_logger m_error name s).0
unfolding get_logger
get_logger-Ready m_error name s ready = get_logger_at-Ready m_error name s _ ready

pub new_manager-Ready : (m_error : Bool) (level : ℕ) → Ready (new_manager m_error level)
unfolding new_manager new_logger new_appender add_appender
new_manager-Ready m_error level =
    ((record { own = (_, refl); printable = ((_, refl), tt); ranked = tt }, tt), omega arith)

pub Quiet-Ready :
    (s s' : LogState)
    → (s'.loggers ≡ s.loggers) × (formatters s'.targets ≡ formatters s.targets)
    → Ready s
    → Ready s'
Quiet-Ready s s' (same, kept) ready = (
  subst (λ gs. GoodFrom (formatters s'.targets) 0 gs) (sym same)
      (subst (λ fs. GoodFrom fs 0 s.loggers) (sym kept) ready.0),
  subst (λ gs. 0 < length gs) (sym same) ready.1,
)
