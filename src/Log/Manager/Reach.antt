-- ===== src/Log/Manager/Reach.antt =====
-- The states that the calls on loggers and appenders reach, where `setFormatter` is never given a null
-- pointer: after that the next message meets it.
use mathlib.Core.Path.{subst}
use hpgs.Prelude.{
  ℕ, suc, arith, refl, sym, ◌∙◌, ◌<◌, ◌≡◌, Bool, List, [], ◌∷◌, ◌++◌, some, length, get_elem?,
}
use hpgs.Log.Items.{LogEvent, LogFormatter}
use hpgs.Log.Loggers.{
  Logger, LogState, logged, log, update, set_own, set_formatter, set_level, set_appender_level,
  reopen, set_formatter_text, add_appender, del_appender,
}
use hpgs.Log.Loggers.Formatters.{Prints, log-Prints, reopen-formatter}
use hpgs.Log.Manager.Kept.{
  Ready, Quiet-Ready, set_formatter-Ready, set_level-Ready, changed_appender-Ready,
  set_formatter_text-Ready, add_appender-Ready, del_appender-Ready, own_formatter-Ready,
  fresh_appender-Ready, get_logger-Ready, new_manager-Ready,
}
use hpgs.Log.Manager.{new_appender, new_manager, get_logger}

logged-injective : {s t : LogState} → logged s ≡ logged t → s ≡ t
logged-injective e = cc

module _ (strftime : List ℕ → ℕ → List ℕ) (opens : ℕ → Bool) where
  pub data Reachable : LogState → Type 0 where
    start : (m_error : Bool) (level : ℕ) → Reachable (new_manager m_error level)
    named_logger :
        {s : LogState} (m_error : Bool) (name : List ℕ)
        → Reachable s
        → Reachable (get_logger m_error name s).0
    fresh_appender :
        {s : LogState} (to_file opened : Bool) (level : ℕ)
        → Reachable s
        → Reachable (record s { targets = s.targets ++ new_appender to_file opened level ∷ [] })
    own_formatter :
        {s : LogState} (i : ℕ) (f : LogFormatter)
        → Reachable s
        → Reachable (record s { targets = update (set_own (some f)) i s.targets })
    added :
        {s : LogState} {g : Logger} (l i : ℕ)
        → Reachable s
        → get_elem? s.loggers l ≡ some g
        → i < length s.targets
        → Reachable (add_appender s l g i)
    deleted :
        {s : LogState} {g : Logger} (l i : ℕ)
        → Reachable s
        → get_elem? s.loggers l ≡ some g
        → Reachable (del_appender s l g i)
    reformatted :
        {s : LogState} {g : Logger} (m_error : Bool) (l : ℕ) (val : List ℕ)
        → Reachable s
        → get_elem? s.loggers l ≡ some g
        → Reachable (set_formatter_text m_error s l g val)
    given_formatter :
        {s : LogState} {g : Logger} (l : ℕ) (f : LogFormatter)
        → Reachable s
        → get_elem? s.loggers l ≡ some g
        → Reachable (set_formatter s l g (some f))
    relevelled :
        {s : LogState} {g : Logger} (l level : ℕ)
        → Reachable s
        → get_elem? s.loggers l ≡ some g
        → Reachable (set_level s l g level)
    relevelled_appender :
        {s : LogState} (i level : ℕ)
        → Reachable s
        → Reachable (record s { targets = update (set_appender_level level) i s.targets })
    reopened :
        {s : LogState} (i : ℕ) (opened : Bool)
        → Reachable s
        → Reachable (record s { targets = update (reopen opened) i s.targets })
    printed :
        {s s' : LogState} (depth level : ℕ) (event : LogEvent) (l : ℕ)
        → Reachable s
        → l < length s.loggers
        → l < depth
        → log strftime opens depth level event s l ≡ logged s'
        → Reachable s'

  -- In every state that the calls reach, where `setFormatter` is never given a null pointer, each logger has a
  -- formatter, every appender that it names has one, and its root is older than it is.
  pub Reachable-Ready : {s : LogState} → Reachable s → Ready s
  Reachable-Ready (start m_error level) = new_manager-Ready m_error level
  Reachable-Ready (named_logger {s} m_error name r) =
      get_logger-Ready m_error name s (Reachable-Ready r)
  Reachable-Ready (fresh_appender {s} to_file opened level r) =
      fresh_appender-Ready s (new_appender to_file opened level) (Reachable-Ready r)
  Reachable-Ready (own_formatter {s} i f r) = own_formatter-Ready s i f (Reachable-Ready r)
  Reachable-Ready (added {s} {g} l i r found lt) =
      add_appender-Ready s l g (Reachable-Ready r) found i lt
  Reachable-Ready (deleted {s} {g} l i r found) =
      del_appender-Ready s l g (Reachable-Ready r) found i
  Reachable-Ready (reformatted {s} {g} m_error l val r found) =
      set_formatter_text-Ready s l g (Reachable-Ready r) found m_error val
  Reachable-Ready (given_formatter {s} {g} l f r found) =
      set_formatter-Ready s l g (Reachable-Ready r) found f
  Reachable-Ready (relevelled {s} {g} l level r found) =
      set_level-Ready s l g (Reachable-Ready r) found level
  Reachable-Ready (relevelled_appender {s} i level r) =
      changed_appender-Ready s i (set_appender_level level) (λ a. refl) (Reachable-Ready r)
  Reachable-Ready (reopened {s} i opened r) =
      changed_appender-Ready s i (reopen opened) (reopen-formatter opened) (Reachable-Ready r)
  Reachable-Ready (printed {s} {s'} depth level event l r lt enough e) =
      let ready = Reachable-Ready r in
      let (t, e', quiet) = log-Prints strftime opens depth level event s l ready.0 lt enough in
      subst Ready (logged-injective (sym e' ∙ e)) (Quiet-Ready s t quiet ready)

  -- In every state that the calls reach, where `setFormatter` is never given a null pointer, a message to any
  -- logger is handled: no null pointer is met, the chain of roots ends, and loggers and formatters are the
  -- same afterwards.
  pub log_never_fails :
      (s : LogState) (level : ℕ) (event : LogEvent) (l : ℕ)
      → Reachable s
      → l < length s.loggers
      → Prints strftime opens s (log strftime opens (suc l) level event s l)
  log_never_fails s level event l r lt =
      log-Prints strftime opens (suc l) level event s l (Reachable-Ready r).0 lt (omega arith)
