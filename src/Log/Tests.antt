-- ===== src/Log/Tests.antt =====
-- Runs of `LogFormatter`, `Logger` and `LoggerManager`, on a clock that prints its format.
use hpgs.Prelude.{
  ℕ, ◌<◌, ◌≡◌, refl, Bool, true, false, List, [], ◌∷◌, none, map, flatten, arith, length,
}
use hpgs.Prelude.Int.{pos}
use hpgs.Prelude.Text.{codes, decimal, decimal_within}
use hpgs.Log.Define.{LogDefine}
use hpgs.Log.Items.{LogEvent, new_formatter, format}
use hpgs.Log.Items.Documented.{
  Directive, date_time, as_is, message, written, documented, format-documented,
}
use hpgs.Log.Level
use hpgs.Log.Loggers.{LogAppender, LogState, log, add_appender}
use hpgs.Log.Loggers.Formatters.{Prints}
use hpgs.Log.Manager.{default_pattern, new_manager, get_logger, find_logger, new_logger}
use hpgs.Log.Manager.Kept.{Ready}
use hpgs.Log.Manager.Reach.{Reachable, start, named_logger, Reachable-Ready, log_never_fails}
use hpgs.Log.Pattern.{Piece, text, item, pieces}
use hpgs.Log.Pattern.RoundTrip.{render, CanWrite, cons-ne-nil, pieces-render}

abbrev strftime : List ℕ → ℕ → List ℕ
strftime fmt time = fmt

abbrev opens : ℕ → Bool
opens i = true

abbrev event : LogEvent
event = record {
  file = codes "main.cc";
  line = pos 7;
  elapse = 12;
  thread_id = 345;
  fibre_id = 0;
  time = 1000;
  thread_name = codes "io";
  content = codes "hello";
  level = 2;
}

abbrev system : List ℕ
system = codes "system"

default_pattern_fine : (new_formatter false default_pattern).error ≡ false
unfolding new_formatter pieces
default_pattern_fine = refl

-- A pattern with a doubled percent sign.
doubled_percent :
    pieces false (codes "a%%m") ≡ (text (codes "a%") ∷ item (codes "m") [] ∷ [], false)
unfolding pieces
doubled_percent = refl

prints_line :
    format strftime
      (new_formatter false (codes "[%p] %d{%H:%M} %f:%l %t %m%n"))
      system
      Level.info
      event
    ≡ codes "[INFO] %H:%M main.cc:7 345 hello\n"
unfolding format new_formatter mathlib.Core.List.flatten pieces Level.to_string decimal
    decimal_within
prints_line = refl

abbrev two_pieces : List Piece
two_pieces = item (codes "d") (codes "%H") ∷ text (codes ": ") ∷ item (codes "m") [] ∷ []

two_pieces_written : CanWrite false two_pieces
two_pieces_written = (
  cons-ne-nil 100 [],
  (refl, tt),
  (refl, (refl, tt)),
  tt,
  (refl, cons-ne-nil 58 _, (refl, (refl, tt)), (cons-ne-nil 109 [], (refl, tt), tt, tt, tt)),
)

pieces-render_example : pieces true (render two_pieces) ≡ (two_pieces, true)
pieces-render_example = pieces-render true two_pieces two_pieces_written

abbrev directives : List Directive
directives = date_time (codes "%H") ∷ as_is (codes ": ") ∷ message ∷ []

format-documented_example :
    ((new_formatter false (render (map written directives))).error ≡ false)
    × (format strftime
          (new_formatter false (render (map written directives)))
          system
          Level.info
          event
        ≡ flatten (map (documented strftime system Level.info event) directives))
format-documented_example =
    format-documented strftime system Level.info event false directives two_pieces_written

abbrev log_file : LogAppender
log_file = record {
  to_file = true;
  level = Level.debug;
  has_formatter = false;
  formatter = none;
  is_open = true;
  contents = codes "before\n";
  last_time = 990;
}

abbrev first_state : LogState
first_state = new_manager false Level.debug

-- The state with the logger of the system, and its address.
system_is_new : find_logger system first_state.named ≡ none
unfolding new_manager new_logger
system_is_new = refl

abbrev system_state : LogState
system_state = (get_logger false system first_state).0

system_state-Reachable : Reachable strftime opens system_state
system_state-Reachable = named_logger false system (start false Level.debug)

two_loggers : 1 < length system_state.loggers
unfolding new_manager get_logger new_logger add_appender
two_loggers = omega arith

Reachable-Ready_example : Ready system_state
Reachable-Ready_example = Reachable-Ready strftime opens system_state-Reachable

log_never_fails_example :
    Prints strftime opens system_state (log strftime opens 2 Level.info event system_state 1)
log_never_fails_example =
    log_never_fails strftime opens system_state Level.info event 1 system_state-Reachable
      two_loggers

abbrev file_define : LogDefine
file_define = record {
  name = system;
  level = Level.info;
  formatter = [];
  appenders =
      (record { type = 1; level = Level.info; formatter = codes "%m"; file = codes "a.log" }) ∷ [];
}
