-- ===== src/Log/Items/Meaning.antt =====
-- What a formatter prints for a pattern that is written from pieces, and the patterns that are errors.
use hpgs.Prelude.{
  ℕ, ◌≡◌, refl, ap, ◌∙◌, Bool, true, false, List, [], ◌∷◌, ◌++◌, map, flatten, append_assoc,
  append-nil, All, if◌then◌else◌,
}
use hpgs.Log.Items.{LogEvent, FormatItem, piece_item, add_items, new_formatter, format_item, format}
use hpgs.Log.Pattern.{Piece, item}
use hpgs.Log.Pattern.Percent.{pieces-percent}
use hpgs.Log.Pattern.RoundTrip.{render, CanWrite, pieces-render}

map-map {ℓ κ μ} :
    {A : Type ℓ} {B : Type κ} {C : Type μ} (f : B → C) (g : A → B) (xs : List A)
    → map f (map g xs) ≡ map (λ x. f (g x)) xs
map-map f g [] = refl
map-map f g (x ∷ xs) = ap (λ t. f (g x) ∷ t) (map-map f g xs)

add_items_lem :
    (items : List FormatItem) (m_error : Bool) (vec : List Piece)
    → All (λ i. (piece_item i).1 ≡ false) vec
    → add_items items m_error vec ≡ (items ++ map (λ i. (piece_item i).0) vec, m_error)
add_items_lem items m_error [] h = rw (append-nil items) refl
add_items_lem items m_error (i ∷ vec) h = rw h.0 (
    add_items_lem (items ++ (piece_item i).0 ∷ []) m_error vec h.1
    ∙ rw (append_assoc items ((piece_item i).0 ∷ []) (map (λ x. (piece_item x).0) vec)) refl)

add_items_nameless :
    (items : List FormatItem) (m_error : Bool) (xs : List Piece)
    → (add_items items m_error (xs ++ item [] [] ∷ [])).1 ≡ true
add_items_nameless items m_error [] = refl
add_items_nameless items m_error (i ∷ xs) =
    add_items_nameless (items ++ (piece_item i).0 ∷ []) (if (piece_item i).1 then true else m_error)
      xs

-- A formatter whose pattern is written from texts, names of the table and formats has an error just
-- where its memory held one, and prints each text as it stands and each item by its name.
pub format-render :
    (strftime : List ℕ → ℕ → List ℕ) (m_error : Bool) (ps : List Piece) (name : List ℕ) (level : ℕ)
    (event : LogEvent)
    → CanWrite false ps
    → All (λ i. (piece_item i).1 ≡ false) ps
    → let f = new_formatter m_error (render ps) in
      (f.error ≡ m_error)
      × (format strftime f name level event
          ≡ flatten (map (λ i. format_item strftime name level event (piece_item i).0) ps))
unfolding new_formatter format
format-render strftime m_error ps name level event h known = rw (pieces-render m_error ps h) (
    rw (add_items_lem [] m_error ps known) (
      refl,
      ap flatten (map-map (format_item strftime name level event) (λ i. (piece_item i).0) ps),
    ))

-- A pattern that ends in a percent sign is an error, one that ends in two as well: a doubled percent
-- sign does not stand for one.
pub new_formatter-percent :
    (m_error : Bool) (pattern : List ℕ)
    → (new_formatter m_error (pattern ++ b'%' ∷ [])).error ≡ true
unfolding new_formatter
new_formatter-percent m_error pattern =
    let (xs, e) = pieces-percent m_error pattern in rw e (add_items_nameless [] _ xs)
