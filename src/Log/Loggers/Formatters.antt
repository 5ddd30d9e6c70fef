-- ===== src/Log/Loggers/Formatters.antt =====
-- Appenders of a logger always have a formatter, so that a message is always printed.
use hpgs.Prelude.{
  ℕ, zero, suc, ◌+◌, ◌<◌, ◌≡◌, refl, ap, sym, ◌∙◌, arith, Bool, true, false, List, [], ◌∷◌, Option,
  none, some, length, get_elem?, set, leb, add64, All, Bool-cases, inl, inr, some-injective,
}
use mathlib.Core.Path.{subst}
use hpgs.Log.Items.{LogEvent, LogFormatter, format}
use hpgs.Log.Loggers.{
  LogAppender, Logger, LogState, Outcome, logged, reopen, write_line, file_log, appender_log,
  log_at, log_each, outcome, refreshed, send, log, pass_on,
}

abbrev pub formatters : List LogAppender → List (Option LogFormatter)
formatters [] = []
formatters (a ∷ ts) = a.formatter ∷ formatters ts

abbrev pub HasFormatter : List (Option LogFormatter) → ℕ → Type 0
HasFormatter fs i = (f : LogFormatter) × (get_elem? fs i ≡ some (some f))

-- The root of a logger was made before it.
abbrev pub RootBelow : ℕ → Option ℕ → Type 0
RootBelow l none = Unit
RootBelow l (some r) = r < l

pub record GoodLogger (fs : List (Option LogFormatter)) (l : ℕ) (g : Logger) : Type 0 where
  pub own : (f : LogFormatter) × (g.formatter ≡ some f)
  pub printable : All (HasFormatter fs) g.appenders
  pub ranked : RootBelow l g.root

abbrev pub GoodFrom : List (Option LogFormatter) → ℕ → List Logger → Type 0
GoodFrom fs n [] = Unit
GoodFrom fs n (g ∷ gs) = GoodLogger fs n g × GoodFrom fs (suc n) gs

-- Every logger has a formatter, as every appender it names, and a root that is older.
abbrev pub WellFormed : LogState → Type 0
WellFormed s = GoodFrom (formatters s.targets) 0 s.loggers

pub GoodFrom-get :
    (fs : List (Option LogFormatter)) (n : ℕ) (gs : List Logger) (l m : ℕ)
    → GoodFrom fs n gs
    → l < length gs
    → m ≡ n + l
    → (g : Logger) × (get_elem? gs l ≡ some g) × GoodLogger fs m g
GoodFrom-get fs n [] l m h lt e = absurd (omega arith)
GoodFrom-get fs n (g ∷ gs) zero m h lt e =
    (g, refl, subst (λ k. GoodLogger fs k g) (omega arith) h.0)
GoodFrom-get fs n (g ∷ gs) (suc l) m h lt e =
    GoodFrom-get fs (suc n) gs l m h.1 (omega arith) (omega arith)

pub get_elem?-formatters :
    (ts : List LogAppender) (i : ℕ) {f : LogFormatter}
    → get_elem? (formatters ts) i ≡ some (some f)
    → (a : LogAppender) × (get_elem? ts i ≡ some a) × (a.formatter ≡ some f)
get_elem?-formatters [] i h = absurd (ground arith)
get_elem?-formatters (a ∷ ts) zero h = (a, refl, some-injective h)
get_elem?-formatters (a ∷ ts) (suc i) h = get_elem?-formatters ts i h

formatters-set :
    (ts : List LogAppender) (i : ℕ) (a b : LogAppender)
    → get_elem? ts i ≡ some a
    → b.formatter ≡ a.formatter
    → formatters (set ts i b) ≡ formatters ts
formatters-set [] i a b h e = refl
formatters-set (c ∷ ts) zero a b h e = cc
formatters-set (c ∷ ts) (suc i) a b h e = ap (λ t. c.formatter ∷ t) (formatters-set ts i a b h e)

write_line-formatter :
    (a : LogAppender) (line : List ℕ) → (write_line a line).formatter ≡ a.formatter
write_line-formatter a line = elim (Bool-cases a.is_open) [ inl h ↦ rw h refl | inr h ↦ rw h refl ]

pub reopen-formatter : (opened : Bool) (a : LogAppender) → (reopen opened a).formatter ≡ a.formatter
reopen-formatter true a = refl
reopen-formatter false a = refl

refreshed-formatter :
    (opened : Bool) (event : LogEvent) (a : LogAppender)
    → (refreshed opened event a).formatter ≡ a.formatter
refreshed-formatter opened event a = elim (Bool-cases (leb (add64 a.last_time 3) event.time)) [
  | inl late ↦ rw late (reopen-formatter opened a)
  | inr soon ↦ rw soon refl
]

module _ (strftime : List ℕ → ℕ → List ℕ) (opens : ℕ → Bool) where
  -- Logging writes lines and nothing else.
  abbrev pub Quiet : LogState → LogState → Type 0
  Quiet s s' = (s'.loggers ≡ s.loggers) × (formatters s'.targets ≡ formatters s.targets)

  file_log-formatter :
      (opened : Bool) (f : LogFormatter) (name : List ℕ) (level : ℕ) (event : LogEvent)
      (a : LogAppender)
      → (file_log strftime opens opened f name level event a).formatter ≡ a.formatter
  file_log-formatter opened f name level event a =
      write_line-formatter (refreshed opened event a) (format strftime f name level event)
      ∙ refreshed-formatter opened event a

  send-Quiet :
      (file : Bool) (name : List ℕ) (level : ℕ) (event : LogEvent) (s : LogState) (i : ℕ)
      (a : LogAppender) (f : LogFormatter)
      → get_elem? s.targets i ≡ some a
      → Quiet s (send strftime opens file name level event s i a f)
  send-Quiet true name level event s i a f found = (
    refl,
    formatters-set s.targets i a _ found (file_log-formatter (opens i) f name level event a),
  )
  send-Quiet false name level event s i a f found = (refl, refl)

  appender_log-some :
      (name : List ℕ) (level : ℕ) (event : LogEvent) (s : LogState) (i : ℕ) (a : LogAppender)
      (f : LogFormatter)
      → get_elem? s.targets i ≡ some a
      → (s' : LogState) × (appender_log strftime opens name level event s i a (some f) ≡ some s')
        × Quiet s s'
  appender_log-some name level event s i a f found = elim (Bool-cases (leb a.level level)) [
    | inr low ↦ rw low (s, refl, (refl, refl))
    | inl high ↦ rw high (_, refl, send-Quiet a.to_file name level event s i a f found)
  ]

  log_at-some :
      (name : List ℕ) (level : ℕ) (event : LogEvent) (s : LogState) (i : ℕ)
      → HasFormatter (formatters s.targets) i
      → (s' : LogState) × (log_at strftime opens name level event s i ≡ some s') × Quiet s s'
  log_at-some name level event s i (f, h) =
      let (a, found, own) = get_elem?-formatters s.targets i h in
      rw (found, own) (appender_log-some name level event s i a f found)

  log_each-some :
      (name : List ℕ) (level : ℕ) (event : LogEvent) (s : LogState) (is : List ℕ)
      → All (HasFormatter (formatters s.targets)) is
      → (s' : LogState) × (log_each strftime opens name level event s is ≡ some s') × Quiet s s'
  log_each-some name level event s [] h = (s, refl, (refl, refl))
  log_each-some name level event s (i ∷ is) h =
      let (t, e, (same, kept)) = log_at-some name level event s i h.0 in
      let (u, e', (same', kept')) =
        log_each-some name level event t is
          (subst (λ fs. All (HasFormatter fs) is) (sym kept) h.1) in
      (u, rw (log_each, e) e', (same' ∙ same, kept' ∙ kept))

  -- What `log` gives in a state where nothing but lines may change.
  abbrev pub Prints : LogState → Outcome → Type 0
  Prints s o = (s' : LogState) × (o ≡ logged s') × Quiet s s'

  pass_on-Prints :
      (again : ℕ → Outcome) (name : List ℕ) (l level : ℕ) (event : LogEvent) (s : LogState)
      (is : List ℕ) (root : Option ℕ)
      → All (HasFormatter (formatters s.targets)) is
      → RootBelow l root
      → ((r : ℕ) → r < l → Prints s (again r))
      → Prints s (pass_on strftime opens again name level event s is root)
  pass_on-Prints again name l level event s [] none h below rec = (s, refl, (refl, refl))
  pass_on-Prints again name l level event s [] (some r) h below rec = rec r below
  pass_on-Prints again name l level event s (i ∷ is) root h below rec =
      let (t, e, quiet) = log_each-some name level event s (i ∷ is) h in
      (t, ap (outcome strftime opens) e, quiet)

  -- In a well-formed state a message reaches its appenders: the call neither meets a null pointer nor
  -- asks more roots than there are loggers before its own, and formatters and loggers stay the same.
  pub log-Prints :
      (depth level : ℕ) (event : LogEvent) (s : LogState) (l : ℕ)
      → WellFormed s
      → l < length s.loggers
      → l < depth
      → Prints s (log strftime opens depth level event s l)
  unfolding log
  log-Prints zero level event s l good lt enough = absurd (omega arith)
  log-Prints (suc depth) level event s l good lt enough =
      let (g, found, ok) =
        GoodFrom-get (formatters s.targets) 0 s.loggers l l good lt (omega arith) in
      rw (log, found)
        (elim (Bool-cases (leb g.level level)) [
          | inr low ↦ rw low (s, refl, (refl, refl))
          | inl high ↦ rw high (
              pass_on-Prints (log strftime opens depth level event s) g.name l level event s
                g.appenders g.root ok.printable ok.ranked
                (λ r below. log-Prints depth level event s r good (omega arith) (omega arith)))
        ])
