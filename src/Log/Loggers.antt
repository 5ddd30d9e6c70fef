-- ===== src/Log/Loggers.antt =====
-- src/system/log.cc: appenders, loggers and their manager. A shared pointer is an address, and `LogState`
-- holds what the addresses stand for: `targets` the appenders, `loggers` the loggers, `stdout` what has
-- been printed there, and `named` is `m_loggers` of the manager, whose root is the logger at 0. A formatter does not change once it is made, so it is a value; the null
-- pointer is `none`. An appender's `contents` are those of its file, which no other writes.
-- `opens` tells for each appender whether its file can be opened.
pub mod Formatters
pub mod Printed
use hpgs.Prelude.{
  ℕ, zero, suc, ◌+◌, Bool, true, false, not, List, [], ◌∷◌, ◌++◌, Option, none, some, length,
  get_elem?, set, ltb, leb, add64, ◌==◌, if◌then◌else◌,
}
use hpgs.Prelude.Text.{codes, same_text}
use hpgs.Log.Items.{LogEvent, LogFormatter, new_formatter, format}
use hpgs.Log.Level

-- Whether an appender is a `FileLogAppender`, and the fields of either class. No constructor sets
-- `level`, so it is an argument of what makes one.
pub record LogAppender : Type 0 where
  pub to_file : Bool
  pub level : ℕ
  pub has_formatter : Bool
  pub formatter : Option LogFormatter
  pub is_open : Bool
  pub contents : List ℕ
  pub last_time : ℕ

pub record Logger : Type 0 where
  pub name : List ℕ
  pub level : ℕ
  pub formatter : Option LogFormatter
  pub appenders : List ℕ
  pub root : Option ℕ

pub record LogState : Type 0 where
  pub targets : List LogAppender
  pub loggers : List Logger
  pub stdout : List ℕ
  pub named : List (List ℕ × ℕ)

-- How a call ends: at a null pointer, or with the new state.
pub data Outcome : Type 0 where
  null_pointer : Outcome
  too_deep : Outcome
  logged : LogState → Outcome

-- `FileLogAppender::reopen`: opening a file truncates it.
abbrev pub reopen : Bool → LogAppender → LogAppender
reopen opened a =
    if opened then record a { is_open = true; contents = [] } else record a { is_open = false }

-- The first test of `FileLogAppender::log`.
abbrev pub refreshed : Bool → LogEvent → LogAppender → LogAppender
refreshed opened event a =
    if leb (add64 a.last_time 3) event.time
    then record (reopen opened a) { last_time = event.time }
    else a

-- A stream that failed takes no more.
abbrev pub write_line : LogAppender → List ℕ → LogAppender
write_line a line = if a.is_open then record a { contents = a.contents ++ line } else a

-- `LogAppender::setFormatter`.
abbrev pub set_own : Option LogFormatter → LogAppender → LogAppender
set_own none a = record a { formatter = none; has_formatter = false }
set_own (some f) a = record a { formatter = some f; has_formatter = true }

-- One appender of `Logger::setFormatter`.
abbrev pub follow : Option LogFormatter → LogAppender → LogAppender
follow val a = if not a.has_formatter then record a { formatter = val } else a

-- `LogAppender::setLevel`, and `Logger::setLevel` below.
abbrev pub set_appender_level : ℕ → LogAppender → LogAppender
set_appender_level val a = record a { level = val }

-- A change of the appender at an address.
abbrev pub update_at :
    (LogAppender → LogAppender) → ℕ → List LogAppender → Option LogAppender → List LogAppender
update_at f i ts none = ts
update_at f i ts (some a) = set ts i (f a)

abbrev pub update : (LogAppender → LogAppender) → ℕ → List LogAppender → List LogAppender
update f i ts = update_at f i ts (get_elem? ts i)

abbrev pub update_all : (LogAppender → LogAppender) → List ℕ → List LogAppender → List LogAppender
update_all f [] ts = ts
update_all f (i ∷ is) ts = update_all f is (update f i ts)

abbrev pub set_logger : LogState → ℕ → Logger → LogState
set_logger s l g = record s { loggers = set s.loggers l g }

unfoldable pub set_level : LogState → ℕ → Logger → ℕ → LogState
set_level s l g level = set_logger s l (record g { level = level })

-- `Logger::setFormatter` of a formatter.
unfoldable pub set_formatter : LogState → ℕ → Logger → Option LogFormatter → LogState
set_formatter s l g val = record s {
  loggers = set s.loggers l (record g { formatter = val });
  targets = update_all (follow val) g.appenders s.targets;
}

-- `Logger::setFormatter` of a pattern; the Boolean is what the new formatter's memory held.
unfoldable pub set_formatter_text : Bool → LogState → ℕ → Logger → List ℕ → LogState
unfolding set_formatter
set_formatter_text m_error s l g val =
    let new_val = new_formatter m_error val in
    if new_val.error then s else set_formatter s l g (some new_val)

-- What `Logger::addAppender` gives an appender without a formatter.
abbrev pub adopt_as : Option LogFormatter → LogAppender → Option LogFormatter → LogAppender
adopt_as f a none = record a { formatter = f }
adopt_as f a (some own) = a

abbrev pub adopt : Option LogFormatter → LogAppender → LogAppender
adopt f a = adopt_as f a a.formatter

-- `Logger::addAppender`.
unfoldable pub add_appender : LogState → ℕ → Logger → ℕ → LogState
add_appender s l g i = record s {
  loggers = set s.loggers l (record g { appenders = g.appenders ++ i ∷ [] });
  targets = update (adopt g.formatter) i s.targets;
}

-- `Logger::delAppender` erases the first that is equal.
abbrev pub erase_first : ℕ → List ℕ → List ℕ
erase_first i [] = []
erase_first i (j ∷ js) = if j == i then js else j ∷ erase_first i js

unfoldable pub del_appender : LogState → ℕ → Logger → ℕ → LogState
del_appender s l g i = set_logger s l (record g { appenders = erase_first i g.appenders })

module _ (strftime : List ℕ → ℕ → List ℕ) (opens : ℕ → Bool) where
  -- `FileLogAppender::log` behind its test of the level.
  abbrev pub file_log : Bool → LogFormatter → List ℕ → ℕ → LogEvent → LogAppender → LogAppender
  file_log opened f name level event a =
      write_line (refreshed opened event a) (format strftime f name level event)

  -- The two kinds of appender.
  abbrev pub send :
      Bool → List ℕ → ℕ → LogEvent → LogState → ℕ → LogAppender → LogFormatter → LogState
  send true name level event s i a f = record s {
    targets = set s.targets i (file_log (opens i) f name level event a);
  }
  send false name level event s i a f = record s {
    stdout = s.stdout ++ format strftime f name level event;
  }

  -- `FileLogAppender::log` and `StdOutLogAppender::log`, at an address.
  abbrev pub appender_log :
      List ℕ → ℕ → LogEvent → LogState → ℕ → LogAppender → Option LogFormatter → Option LogState
  appender_log name level event s i a none = if leb a.level level then none else some s
  appender_log name level event s i a (some f) =
      some (if leb a.level level then send a.to_file name level event s i a f else s)

  abbrev pub log_target :
      List ℕ → ℕ → LogEvent → LogState → ℕ → Option LogAppender → Option LogState
  log_target name level event s i none = none
  log_target name level event s i (some a) = appender_log name level event s i a a.formatter

  abbrev pub log_at : List ℕ → ℕ → LogEvent → LogState → ℕ → Option LogState
  log_at name level event s i = log_target name level event s i (get_elem? s.targets i)

  -- The loop of `Logger::log`.
  abbrev pub log_each : List ℕ → ℕ → LogEvent → LogState → List ℕ → Option LogState
  log_each name level event s [] = some s
  log_each name level event s (i ∷ is) = elim (log_at name level event s i) [
    | none ↦ none
    | some s' ↦ log_each name level event s' is
  ]

  abbrev pub outcome : Option LogState → Outcome
  outcome none = null_pointer
  outcome (some s) = logged s

  -- `Logger::log` behind its test of the level; `again` is the call of the root's `log`.
  abbrev pub pass_on :
      (ℕ → Outcome) → List ℕ → ℕ → LogEvent → LogState → List ℕ → Option ℕ → Outcome
  pass_on again name level event s [] none = logged s
  pass_on again name level event s [] (some r) = again r
  pass_on again name level event s (i ∷ is) root = outcome (log_each name level event s (i ∷ is))

  abbrev pub log_by : (ℕ → Outcome) → ℕ → LogEvent → LogState → Option Logger → Outcome
  log_by again level event s none = null_pointer
  log_by again level event s (some g) =
      if leb g.level level then pass_on again g.name level event s g.appenders g.root else logged s

  -- `Logger::log`, with a bound on how many roots are asked.
  unfoldable pub log : ℕ → ℕ → LogEvent → LogState → ℕ → Outcome
  log zero level event s l = too_deep
  log (suc depth) level event s l =
      log_by (log depth level event s) level event s (get_elem? s.loggers l)
