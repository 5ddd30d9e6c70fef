-- ===== src/Log/Manager.antt =====
-- src/system/log.cc: what makes appenders and loggers, and `LoggerManager`.
pub mod Kept
pub mod Reach
pub mod Root
use hpgs.Prelude.Text.{codes, same_text}
use hpgs.Prelude.{
  ℕ, Bool, true, false, List, [], ◌∷◌, ◌++◌, Option, none, some, length, if◌then◌else◌,
}
use hpgs.Log.Items.{new_formatter}
use hpgs.Log.Level
use hpgs.Log.Loggers.{LogAppender, Logger, LogState, reopen, add_appender}

-- The pattern of `Logger::Logger`.
abbrev pub default_pattern : List ℕ
default_pattern = codes "%d{[(%Y-%m-%d %H:%M:%S)]}%T%t%T%N%T%F%T[%p]%T[%c]%T%f:%l%T%m%n"

unfoldable pub new_logger : Bool → List ℕ → Logger
new_logger m_error name = record {
  name = name;
  level = Level.debug;
  formatter = some (new_formatter m_error default_pattern);
  appenders = [];
  root = none;
}

-- A `StdOutLogAppender`, or a `FileLogAppender`, whose constructor opens the file.
unfoldable pub new_appender : Bool → Bool → ℕ → LogAppender
new_appender to_file opened level =
    let blank : LogAppender = record {
      to_file = to_file;
      level = level;
      has_formatter = false;
      formatter = none;
      is_open = false;
      contents = [];
      last_time = 0;
    } in
    if to_file then reopen opened blank else blank

-- `LoggerManager::LoggerManager`; the number is the level that the memory of the appender held.
unfoldable pub new_manager : Bool → ℕ → LogState
unfolding new_logger new_appender add_appender
new_manager m_error level =
    let root = new_logger m_error (codes "root") in
    let s =
      add_appender
        (record {
          targets = new_appender false false level ∷ [];
          loggers = root ∷ [];
          stdout = [];
          named = [];
        })
        0 root 0 in
    record s { named = (root.name, 0) ∷ [] }

abbrev pub find_logger : List ℕ → List (List ℕ × ℕ) → Option ℕ
find_logger name [] = none
find_logger name ((n, l) ∷ ns) = if same_text n name then some l else find_logger name ns

abbrev pub get_logger_at : Bool → List ℕ → LogState → Option ℕ → LogState × ℕ
get_logger_at m_error name s (some l) = (s, l)
get_logger_at m_error name s none = (
  record s {
    loggers = s.loggers ++ (record (new_logger m_error name) { root = some 0 }) ∷ [];
    named = (name, length s.loggers) ∷ s.named;
  },
  length s.loggers,
)

-- `LoggerManager::getLogger`.
unfoldable pub get_logger : Bool → List ℕ → LogState → LogState × ℕ
unfolding new_logger
get_logger m_error name s = get_logger_at m_error name s (find_logger name s.named)
