-- ===== src/Log/Pattern/RoundTrip.antt =====
-- A pattern that is written from pieces is cut into these pieces.
use hpgs.Prelude.{
  ℕ, zero, suc, ◌+◌, ◌≡◌, ◌≢◌, refl, sym, ap, ◌∙◌, arith, Bool, true, false, List, [], ◌∷◌, ◌++◌,
  ◌==◌, length, All, append_assoc, append-nil, length-append, ◌⊎◌, inl, inr,
}
use native.Mathlib.Nat.{add-zero}
use hpgs.Log.Pattern.{
  Piece, text, item, Pieces, found, scan_format, scan_name, step, loop, pieces, ends_name, is_alpha,
  flushed, finish, starts_percent,
}

-- `%name`, `%name{format}` or plain text.
abbrev braced : List ℕ → List ℕ
braced [] = []
braced (c ∷ cs) = b'{' ∷ (c ∷ cs) ++ b'}' ∷ []

abbrev pub render : List Piece → List ℕ
render [] = []
render (text s ∷ ps) = s ++ render ps
render (item str fmt ∷ ps) = b'%' ∷ str ++ braced fmt ++ render ps

-- What may follow an item: anything after its format, and else nothing that could be part of it.
abbrev Stops : List ℕ → List ℕ → Type 0
Stops (c ∷ cs) rest = Unit
Stops [] [] = Unit
Stops [] (c ∷ cs) = ends_name c ≡ true

-- Texts are not empty, stand apart and have no percent sign; names are letters; formats hold no brace
-- that closes. The flag is whether a text has just been written.
abbrev pub CanWrite : Bool → List Piece → Type 0
CanWrite after [] = Unit
CanWrite after (text s ∷ ps) =
    (after ≡ false) × (s ≢ []) × All (λ c. (c == b'%') ≡ false) s × CanWrite true ps
CanWrite after (item str fmt ∷ ps) =
    (str ≢ [])
    × All (λ c. is_alpha c ≡ true) str
    × All (λ c. (c == b'}') ≡ false) fmt
    × Stops fmt (render ps)
    × CanWrite false ps

pub cons-ne-nil : (c : ℕ) (cs : List ℕ) → ◌≢◌ {A = List ℕ} (c ∷ cs) []
cons-ne-nil c cs e = absurd (cc)

-- `substr` of what has been passed over.
loop-drop :
    (k : ℕ) (p : Pieces) (cs rest : List ℕ) → length cs ≡ k → loop k p (cs ++ rest) ≡ loop 0 p rest
unfolding loop
loop-drop zero p [] rest h = refl
loop-drop zero p (c ∷ cs) rest h = absurd (omega arith)
loop-drop (suc k) p [] rest h = absurd (omega arith)
loop-drop (suc k) p (c ∷ cs) rest h = loop-drop k p cs rest (omega arith)

found_same :
    {str fmt fmt' : List ℕ} {n n' : ℕ} → fmt ≡ fmt' → n ≡ n' → found str fmt n ≡ found str fmt' n'
found_same e d = cc

scan_format_lem :
    (str seen : List ℕ) (n : ℕ) (fmt rest : List ℕ)
    → All (λ c. (c == b'}') ≡ false) fmt
    → scan_format str seen n (fmt ++ b'}' ∷ rest) ≡ found str (seen ++ fmt) (suc (n + length fmt))
unfolding scan_format
scan_format_lem str seen n [] rest h = found_same (sym (append-nil seen)) (omega arith)
scan_format_lem str seen n (c ∷ fmt) rest h = rw h.0 (
    scan_format_lem str (seen ++ c ∷ []) (suc n) fmt rest h.1
    ∙ found_same (append_assoc seen (c ∷ []) fmt) (omega arith))

alpha_goes_on : (c : ℕ) → is_alpha c ≡ true → (ends_name c ≡ false) × ((c == b'{') ≡ false)
alpha_goes_on c h = (rw h refl, ground arith)

-- A name, and what follows it.
scan_name_skip :
    (seen : List ℕ) (n : ℕ) (str rest : List ℕ)
    → All (λ c. is_alpha c ≡ true) str
    → scan_name seen n (str ++ rest) ≡ scan_name (seen ++ str) (n + length str) rest
unfolding scan_name
scan_name_skip seen n [] rest h = rw (append-nil seen, add-zero n) refl
scan_name_skip seen n (c ∷ str) rest h =
    let (goes, plain) = alpha_goes_on c h.0 in
    rw (goes, plain)
      (scan_name_skip (seen ++ c ∷ []) (suc n) str rest h.1
        ∙ cc (append_assoc seen (c ∷ []) str, n_moves))
  where
    n_moves : suc n + length str ≡ n + length (c ∷ str)
    n_moves = omega arith

scan_name_stop :
    (str : List ℕ) (n : ℕ) (rest : List ℕ) → Stops [] rest → scan_name str n rest ≡ found str [] n
unfolding scan_name
scan_name_stop str n [] h = refl
scan_name_stop str n (c ∷ rest) h = rw h refl

-- What is read of `name` and its format.
scan_name_lem :
    (str fmt rest : List ℕ)
    → All (λ c. is_alpha c ≡ true) str
    → All (λ c. (c == b'}') ≡ false) fmt
    → Stops fmt rest
    → scan_name [] 0 (str ++ braced fmt ++ rest) ≡ found str fmt (length (str ++ braced fmt))
unfolding scan_name
scan_name_lem str [] rest hs hf stops =
    ap (scan_name [] 0) (append_assoc str [] rest)
    ∙ scan_name_skip [] 0 str rest hs
    ∙ scan_name_stop str (0 + length str) rest stops
    ∙ found_same refl (omega (arith, length-append str []))
scan_name_lem str (c ∷ fmt) rest hs hf stops =
    ap (scan_name [] 0) (append_assoc str (braced (c ∷ fmt)) rest)
    ∙ scan_name_skip [] 0 str _ hs
    ∙ ap (λ t. scan_name str (0 + length str) (b'{' ∷ t)) (append_assoc (c ∷ fmt) (b'}' ∷ []) rest)
    ∙ scan_format_lem str [] (suc (0 + length str)) (c ∷ fmt) rest hf
    ∙ found_same refl
        (omega (arith, length-append str (braced (c ∷ fmt)), length-append (c ∷ fmt) (b'}' ∷ [])))

alpha-percent : (c : ℕ) (cs : List ℕ) → is_alpha c ≡ true → starts_percent (c ∷ cs) ≡ false
alpha-percent c cs h = ground arith

name_first :
    (str cs : List ℕ)
    → str ≢ []
    → All (λ c. is_alpha c ≡ true) str
    → starts_percent (str ++ cs) ≡ false
name_first [] cs some h = absurd (some refl)
name_first (c ∷ str) cs some h = alpha-percent c (str ++ cs) h.0

-- One item is one turn of the loop.
loop-item :
    (p : Pieces) (str fmt rest : List ℕ)
    → str ≢ []
    → All (λ c. is_alpha c ≡ true) str
    → All (λ c. (c == b'}') ≡ false) fmt
    → Stops fmt rest
    → loop 0 p (b'%' ∷ str ++ braced fmt ++ rest)
      ≡ loop 0 (record p { vec = flushed p.vec p.nstr ++ item str fmt ∷ []; nstr = [] }) rest
unfolding loop step
loop-item p str fmt rest some hs hf stops =
    rw (loop, step, later, scan_name_lem str fmt rest hs hf stops)
      (loop-drop _ _ (str ++ braced fmt) rest refl)
  where
    later : starts_percent (str ++ braced fmt ++ rest) ≡ false
    later =
        ap starts_percent (append_assoc str (braced fmt) rest)
        ∙ name_first str (braced fmt ++ rest) some hs

loop-text :
    (p : Pieces) (s rest : List ℕ)
    → All (λ c. (c == b'%') ≡ false) s
    → loop 0 p (s ++ rest) ≡ loop 0 (record p { nstr = p.nstr ++ s }) rest
unfolding loop step
loop-text p [] rest h = rw (append-nil p.nstr) refl
loop-text p (c ∷ s) rest h =
    rw (loop, step, h.0)
      (loop-text (record p { nstr = p.nstr ++ c ∷ [] }) s rest h.1
        ∙ ap (λ t. loop 0 (record p { nstr = t }) rest) (append_assoc p.nstr (c ∷ []) s))

flushed-text : (vec : List Piece) (s : List ℕ) → s ≢ [] → flushed vec s ≡ vec ++ text s ∷ []
flushed-text vec [] some = absurd (some refl)
flushed-text vec (c ∷ s) some = refl

-- From any state that may write a text, or that has none pending.
pub loop-render :
    (after : Bool) (p : Pieces) (ps : List Piece)
    → (after ≡ true) ⊎ (p.nstr ≡ [])
    → CanWrite after ps
    → finish (loop 0 p (render ps)) ≡ (flushed p.vec p.nstr ++ ps, p.error)
unfolding loop
loop-render after p [] pending h = rw (append-nil (flushed p.vec p.nstr)) refl
loop-render after p (text s ∷ ps) (inl was) (fresh, some, plain, h) = absurd (ground arith)
loop-render after p (text s ∷ ps) (inr none_yet) (fresh, some, plain, h) =
    ap finish (loop-text p s (render ps) plain)
    ∙ loop-render true (record p { nstr = p.nstr ++ s }) ps (inl refl) h
    ∙ rw none_yet (rw (flushed-text p.vec s some) (rw (append_assoc p.vec (text s ∷ []) ps) refl))
loop-render after p (item str fmt ∷ ps) pending (some, hs, hf, stops, h) =
    ap finish (loop-item p str fmt (render ps) some hs hf stops)
    ∙ loop-render false _ ps (inr refl) h
    ∙ rw (append_assoc (flushed p.vec p.nstr) (item str fmt ∷ []) ps) refl

-- A pattern that is written from texts, names and formats is cut into just these, and the flag of an
-- error keeps what it held.
pub pieces-render :
    (m_error : Bool) (ps : List Piece)
    → CanWrite false ps
    → pieces m_error (render ps) ≡ (ps, m_error)
unfolding pieces
pieces-render m_error ps h =
    loop-render false (record { vec = []; nstr = []; error = m_error }) ps (inr refl) h
