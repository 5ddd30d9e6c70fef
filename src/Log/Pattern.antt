-- ===== src/Log/Pattern.antt =====
-- src/system/log.cc: the first loop of `LogFormatter::init`, which cuts a pattern into pieces. The index
-- `i` is a position in the list, and `n` is how many bytes after the percent sign have been read;
-- the number that the loop takes is how many bytes it still passes over, from `i = n - 1`.
pub mod RoundTrip
pub mod Percent
use hpgs.Prelude.Text.{codes}
use hpgs.Prelude.{
  ℕ, zero, suc, Bool, true, false, not, ◌&&◌, ◌||◌, List, [], ◌∷◌, ◌++◌, ◌==◌, leb, if◌then◌else◌,
}

-- What `vec` holds: a text as it stands, or the name of an item and its format.
pub data Piece : Type 0 where
  text : List ℕ → Piece
  item : List ℕ → List ℕ → Piece

pub record Pieces : Type 0 where
  pub vec : List Piece
  pub nstr : List ℕ
  pub error : Bool

-- How the inner loop ends: a name and a format, with the bytes read, or inside a brace.
pub data Scan : Type 0 where
  found : List ℕ → List ℕ → ℕ → Scan
  unclosed : Scan

-- `isalpha` in the C locale.
abbrev pub is_alpha : ℕ → Bool
is_alpha c = (leb b'a' c && leb c b'z') || (leb b'A' c && leb c b'Z')

abbrev pub ends_name : ℕ → Bool
ends_name c = not (is_alpha c) && not (c == b'{') && not (c == b'}')

-- `fmt_status` 1.
unfoldable pub scan_format : List ℕ → List ℕ → ℕ → List ℕ → Scan
scan_format str seen n [] = unclosed
scan_format str seen n (c ∷ cs) =
    let rest = scan_format str (seen ++ c ∷ []) (suc n) cs in
    if c == b'}' then found str seen (suc n) else rest

-- `fmt_status` 0.
unfoldable pub scan_name : List ℕ → ℕ → List ℕ → Scan
unfolding scan_format
scan_name seen n [] = found seen [] n
scan_name seen n (c ∷ cs) =
    let rest = scan_name (seen ++ c ∷ []) (suc n) cs in
    if ends_name c
    then found seen [] n
    else if c == b'{'
    then scan_format seen [] (suc n) cs
    else rest

-- A pending text becomes a piece.
abbrev pub flushed : List Piece → List ℕ → List Piece
flushed vec [] = vec
flushed vec (c ∷ cs) = vec ++ text (c ∷ cs) ∷ []

abbrev pub pattern_error : List ℕ
pattern_error = codes "<Pattern Error>"

abbrev pub take_scan : Pieces → Scan → Pieces × ℕ
take_scan p (found str fmt n) =
    (record p { vec = flushed p.vec p.nstr ++ item str fmt ∷ []; nstr = [] }, n)
take_scan p unclosed = (record p { vec = p.vec ++ text pattern_error ∷ []; error = true }, 0)

abbrev pub starts_percent : List ℕ → Bool
starts_percent [] = false
starts_percent (c ∷ cs) = c == b'%'

-- One turn of the loop, and how many bytes it reads besides the first.
unfoldable pub step : Pieces → ℕ → List ℕ → Pieces × ℕ
unfolding scan_name
step p c cs =
    if not (c == b'%')
    then (record p { nstr = p.nstr ++ c ∷ [] }, 0)
    else if starts_percent cs
    then (record p { nstr = p.nstr ++ b'%' ∷ [] }, 0)
    else take_scan p (scan_name [] 0 cs)

unfoldable pub loop : ℕ → Pieces → List ℕ → Pieces
unfolding step
loop k p [] = p
loop (suc k) p (c ∷ cs) = loop k p cs
loop zero p (c ∷ cs) = loop (step p c cs).1 (step p c cs).0 cs

abbrev pub finish : Pieces → List Piece × Bool
finish p = (flushed p.vec p.nstr, p.error)

-- The pieces of a pattern, and `m_error`, which no constructor sets: `m_error` is what its memory held.
unfoldable pub pieces : Bool → List ℕ → List Piece × Bool
unfolding loop
pieces m_error m_pattern =
    finish (loop 0 (record { vec = []; nstr = []; error = m_error }) m_pattern)
