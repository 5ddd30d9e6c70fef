-- ===== src/Log/Items/Documented.antt =====
-- include/system/log.h: the patterns that the comment of `LogFormatter` documents, letter by letter, and what
-- it says that each prints.
use hpgs.Prelude.Text.{codes, decimal}
use hpgs.Prelude.{ℕ, ◌≡◌, refl, ap₂, ◌∙◌, Bool, false, List, [], ◌∷◌, ◌++◌, map, flatten, All}
use hpgs.Log.Level.{to_string}
use hpgs.Log.Items.{LogEvent, piece_item, new_formatter, format_item, format, decimal_signed}
use hpgs.Log.Items.Meaning.{format-render}
use hpgs.Log.Pattern.{Piece, text, item}
use hpgs.Log.Pattern.RoundTrip.{render, CanWrite}

pub data Directive : Type 0 where
  as_is : List ℕ → Directive
  message level elapsed_time logger_name thread_id new_line : Directive
  date_time : List ℕ → Directive
  file_name line_number tab fibre_id thread_name : Directive

-- How a directive is written.
abbrev pub written : Directive → Piece
written (as_is s) = text s
written message = item (codes "m") []
written level = item (codes "p") []
written elapsed_time = item (codes "r") []
written logger_name = item (codes "c") []
written thread_id = item (codes "t") []
written new_line = item (codes "n") []
written (date_time fmt) = item (codes "d") fmt
written file_name = item (codes "f") []
written line_number = item (codes "l") []
written tab = item (codes "T") []
written fibre_id = item (codes "F") []
written thread_name = item (codes "N") []

-- A date without a format has the default one.
abbrev pub date_format : List ℕ → List ℕ
date_format [] = codes "%Y-%m-%d %H:%M:%S"
date_format (c ∷ cs) = c ∷ cs

module _ (strftime : List ℕ → ℕ → List ℕ) (name : List ℕ) (severity : ℕ) (event : LogEvent) where
  -- What a directive prints of a message of the level `severity` to the logger `name`.
  abbrev pub documented : Directive → List ℕ
  documented (as_is s) = s
  documented message = event.content
  documented level = to_string severity
  documented elapsed_time = decimal event.elapse
  documented logger_name = name
  documented thread_id = decimal event.thread_id
  documented new_line = codes "\n"
  documented (date_time fmt) = strftime (date_format fmt) event.time
  documented file_name = event.file
  documented line_number = decimal_signed event.line
  documented tab = codes "\t"
  documented fibre_id = decimal event.fibre_id
  documented thread_name = event.thread_name

  one-documented :
      (d : Directive)
      → format_item strftime name severity event (piece_item (written d)).0 ≡ documented d
  one-documented (as_is s) = refl
  one-documented message = refl
  one-documented level = refl
  one-documented elapsed_time = refl
  one-documented logger_name = refl
  one-documented thread_id = refl
  one-documented new_line = refl
  one-documented (date_time []) = refl
  one-documented (date_time (c ∷ cs)) = refl
  one-documented file_name = refl
  one-documented line_number = refl
  one-documented tab = refl
  one-documented fibre_id = refl
  one-documented thread_name = refl

  every_documented :
      (ds : List Directive)
      → flatten
          (map (λ i. format_item strftime name severity event (piece_item i).0) (map written ds))
        ≡ flatten (map documented ds)
  unfolding mathlib.Core.List.flatten
  every_documented [] = refl
  every_documented (d ∷ ds) = ap₂ (λ x y. x ++ y) (one-documented d) (every_documented ds)

  one-known : (d : Directive) → (piece_item (written d)).1 ≡ false
  one-known (as_is s) = refl
  one-known message = refl
  one-known level = refl
  one-known elapsed_time = refl
  one-known logger_name = refl
  one-known thread_id = refl
  one-known new_line = refl
  one-known (date_time fmt) = refl
  one-known file_name = refl
  one-known line_number = refl
  one-known tab = refl
  one-known fibre_id = refl
  one-known thread_name = refl

  every_known : (ds : List Directive) → All (λ i. (piece_item i).1 ≡ false) (map written ds)
  every_known [] = tt
  every_known (d ∷ ds) = (one-known d, every_known ds)

  -- A pattern of plain texts and documented letters that can be written has no error but one that its
  -- memory held, and a message prints what is documented of each, in order: content, level, time since the
  -- start, name of the logger, number and name of the thread, number of the fibre, date, file and line,
  -- tab, new line, and texts as they stand.
  pub format-documented :
      (m_error : Bool) (ds : List Directive)
      → CanWrite false (map written ds)
      → let f = new_formatter m_error (render (map written ds)) in
        (f.error ≡ m_error) × (format strftime f name severity event ≡ flatten (map documented ds))
  format-documented m_error ds h =
      let (fine, printed) =
        format-render strftime m_error (map written ds) name severity event h (every_known ds) in
      (fine, printed ∙ every_documented ds)
