-- ===== src/Log/Manager/Root.antt =====
-- What `LoggerManager::getLogger` gives, and how its loggers print.
use hpgs.Prelude.{
  ℕ, suc, ◌≡◌, refl, Bool, List, [], ◌∷◌, ◌++◌, none, some, length, get_elem?, leb, if◌then◌else◌,
  Option-cases, inl, inr,
}
use hpgs.Prelude.Text.{same_text_refl}
use hpgs.Log.Items.{LogEvent}
use hpgs.Log.Loggers.{Logger, LogState, logged, log}
use hpgs.Log.Manager.{new_logger, find_logger, get_logger}

get_elem?-end : (gs : List Logger) (g : Logger) → get_elem? (gs ++ g ∷ []) (length gs) ≡ some g
get_elem?-end [] g = refl
get_elem?-end (h ∷ gs) g = get_elem?-end gs g

-- Asking for a name again gives the logger that was given before, and changes nothing.
pub get_logger-get_logger :
    (m_error m_error' : Bool) (name : List ℕ) (s : LogState)
    → get_logger m_error' name (get_logger m_error name s).0 ≡ get_logger m_error name s
unfolding get_logger
get_logger-get_logger m_error m_error' name s = elim (Option-cases (find_logger name s.named)) [
  | inl new ↦ rw new (rw (same_text_refl name) refl)
  | inr (l, known) ↦ rw (known, known) refl
]

-- A message to a logger that has just been made goes to the root, as a message of the root's: the
-- lines of both are the same, names included. One below the level DEBUG is dropped.
pub log-get_logger :
    (strftime : List ℕ → ℕ → List ℕ) (opens : ℕ → Bool) (m_error : Bool) (name : List ℕ)
    (s : LogState) (depth level : ℕ) (event : LogEvent)
    → find_logger name s.named ≡ none
    → let (s', l) = get_logger m_error name s in
      log strftime opens (suc depth) level event s' l
      ≡ (if leb 1 level then log strftime opens depth level event s' 0 else logged s')
unfolding get_logger log new_logger
log-get_logger strftime opens m_error name s depth level event fresh =
    rw fresh
      (rw (log, get_elem?-end s.loggers (record (new_logger m_error name) { root = some 0 })) refl)
