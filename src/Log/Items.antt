-- ===== src/Log/Items.antt =====
-- src/system/log.cc: the items of a format, the table of their names, the rest of `LogFormatter::init`
-- and `LogFormatter::format`. `strftime` is what stands in the buffer after `localtime_r` and
-- `strftime`, for a format and a time.
pub mod Meaning
pub mod Documented
use hpgs.Prelude.Int.{ℤ, pos, negsuc}
use hpgs.Prelude.Text.{codes, decimal}
use hpgs.Prelude.{
  ℕ, suc, Bool, true, false, List, [], ◌∷◌, ◌++◌, Option, none, some, map, flatten, ◌==◌,
  if◌then◌else◌,
}
use hpgs.Log.Level.{to_string}
use hpgs.Log.Pattern.{Piece, text, item, pieces}

-- The fields of a `LogEvent` that a format shows; `content` is what its stream holds.
pub record LogEvent : Type 0 where
  pub file : List ℕ
  pub line : ℤ
  pub elapse : ℕ
  pub thread_id : ℕ
  pub fibre_id : ℕ
  pub time : ℕ
  pub thread_name : List ℕ
  pub content : List ℕ
  pub level : ℕ

pub data FormatItem : Type 0 where
  message_item level_item elapse_item name_item thread_id_item : FormatItem
  new_line_item file_name_item line_item tab_item fibre_id_item thread_name_item : FormatItem
  date_time_item : List ℕ → FormatItem
  string_item : List ℕ → FormatItem

-- `DateTimeFormatItem::DateTimeFormatItem`.
abbrev pub new_date_time : List ℕ → FormatItem
new_date_time [] = date_time_item (codes "%Y-%m-%d %H:%M:%S")
new_date_time (c ∷ cs) = date_time_item (c ∷ cs)

-- `s_format_items`, by the one letter of a name.
abbrev pub letter_item : ℕ → List ℕ → Option FormatItem
letter_item c fmt =
    if c == b'm'
    then some message_item
    else if c == b'p'
    then some level_item
    else if c == b'r'
    then some elapse_item
    else if c == b'c'
    then some name_item
    else if c == b't'
    then some thread_id_item
    else if c == b'n'
    then some new_line_item
    else if c == b'd'
    then some (new_date_time fmt)
    else if c == b'f'
    then some file_name_item
    else if c == b'l'
    then some line_item
    else if c == b'T'
    then some tab_item
    else if c == b'F'
    then some fibre_id_item
    else if c == b'N'
    then some thread_name_item
    else none

abbrev pub find_item : List ℕ → List ℕ → Option FormatItem
find_item [] fmt = none
find_item (c ∷ []) fmt = letter_item c fmt
find_item (c ∷ d ∷ cs) fmt = none

-- What one piece adds to `m_items`, and whether it sets `m_error`.
abbrev pub found_item : List ℕ → Option FormatItem → FormatItem × Bool
found_item str none = (string_item (codes "<<error_format %" ++ str ++ codes ">>"), true)
found_item str (some i) = (i, false)

abbrev pub piece_item : Piece → FormatItem × Bool
piece_item (text s) = (string_item s, false)
piece_item (item str fmt) = found_item str (find_item str fmt)

-- The loop over `vec`.
abbrev pub add_items : List FormatItem → Bool → List Piece → List FormatItem × Bool
add_items m_items m_error [] = (m_items, m_error)
add_items m_items m_error (i ∷ vec) =
    add_items (m_items ++ (piece_item i).0 ∷ []) (if (piece_item i).1 then true else m_error) vec

pub record LogFormatter : Type 0 where
  pub pattern : List ℕ
  pub items : List FormatItem
  pub error : Bool

-- `LogFormatter::LogFormatter` and `init`; the Boolean is what the memory of `m_error` held.
unfoldable pub new_formatter : Bool → List ℕ → LogFormatter
new_formatter m_error pattern =
    let (vec, failed) = pieces m_error pattern in
    let (items, error) = add_items [] failed vec in
    record { pattern = pattern; items = items; error = error }

-- `operator<<` of an `int32_t`.
abbrev pub decimal_signed : ℤ → List ℕ
decimal_signed (pos n) = decimal n
decimal_signed (negsuc n) = b'-' ∷ decimal (suc n)

module _ (strftime : List ℕ → ℕ → List ℕ) where
  -- `FormatItem::format`, with the name of the logger.
  abbrev pub format_item : List ℕ → ℕ → LogEvent → FormatItem → List ℕ
  format_item name level event message_item = event.content
  format_item name level event level_item = to_string level
  format_item name level event elapse_item = decimal event.elapse
  format_item name level event name_item = name
  format_item name level event thread_id_item = decimal event.thread_id
  format_item name level event new_line_item = b'\n' ∷ []
  format_item name level event file_name_item = event.file
  format_item name level event line_item = decimal_signed event.line
  format_item name level event tab_item = b'\t' ∷ []
  format_item name level event fibre_id_item = decimal event.fibre_id
  format_item name level event thread_name_item = event.thread_name
  format_item name level event (date_time_item fmt) = strftime fmt event.time
  format_item name level event (string_item s) = s

  -- `LogFormatter::format`.
  unfoldable pub format : LogFormatter → List ℕ → ℕ → LogEvent → List ℕ
  format f name level event = flatten (map (format_item name level event) f.items)
