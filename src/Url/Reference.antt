-- ===== src/Url/Reference.antt =====
-- `UrlEncode` and `UrlDecode` without the string that is made late: byte by byte.
use hpgs.Prelude.{ℕ, ◌≡◌, refl, ap, sym, ◌∙◌, Bool, true, false, not, ◌&&◌, inl, inr}
use hpgs.Prelude.{
  List, [], ◌∷◌, ◌++◌, append_assoc, append-nil, Option, none, some, ◌==◌, if◌then◌else◌,
  Bool-cases,
}
use hpgs.Url.{
  char_is_unreserved, isxdigit, append_to, append_if, result, escape, code_byte, encode_loop,
  url_encode,
}
use hpgs.Url.{one_byte, hex_byte, decode_loop, url_decode}

abbrev pub encode_byte : Bool → ℕ → List ℕ
encode_byte space_as_plus c = if not (char_is_unreserved c) then escape space_as_plus c else c ∷ []

unfoldable pub encoded : Bool → List ℕ → List ℕ
encoded space_as_plus [] = []
encoded space_as_plus (c ∷ cs) = encode_byte space_as_plus c ++ encoded space_as_plus cs

abbrev pub plain_byte : Bool → ℕ → ℕ
plain_byte space_as_plus c = if c == 43 && space_as_plus then 32 else c

abbrev pub hex_pair : Bool → ℕ → ℕ → ℕ → Bool
hex_pair space_as_plus c d e =
    not (c == 43 && space_as_plus) && (c == 37 && isxdigit d && isxdigit e)

unfoldable pub decoded : Bool → List ℕ → List ℕ
decoded space_as_plus [] = []
decoded space_as_plus (c ∷ []) = plain_byte space_as_plus c ∷ []
decoded space_as_plus (c ∷ d ∷ []) = plain_byte space_as_plus c ∷ decoded space_as_plus (d ∷ [])
decoded space_as_plus (c ∷ d ∷ e ∷ cs) =
    let next = decoded space_as_plus (d ∷ e ∷ cs) in
    let jump = decoded space_as_plus cs in
    if hex_pair space_as_plus c d e then hex_byte d e ∷ jump else plain_byte space_as_plus c ∷ next

result-append_to :
    (passed read more : List ℕ) (ss : Option (List ℕ))
    → result (passed ++ read) (some (append_to passed ss more)) ≡ result passed ss ++ more
result-append_to passed read more none = refl
result-append_to passed read more (some s) = refl

result-append_if :
    (passed more : List ℕ) (ss : Option (List ℕ))
    → result (passed ++ more) (append_if ss more) ≡ result passed ss ++ more
result-append_if passed more none = refl
result-append_if passed more (some s) = refl

result-nil :
    (passed : List ℕ) (ss : Option (List ℕ)) → result (passed ++ []) ss ≡ result passed ss ++ []
result-nil passed none = refl
result-nil passed (some s) = sym (append-nil s)

-- The bytes `more` were passed and `bytes` appended for them; the rest of the loop gives `last`.
turn :
    (passed more cs bytes rest : List ℕ) (ss ss' last : Option (List ℕ))
    → result (passed ++ more) ss' ≡ result passed ss ++ bytes
    → result ((passed ++ more) ++ cs) last ≡ result (passed ++ more) ss' ++ rest
    → result (passed ++ (more ++ cs)) last ≡ result passed ss ++ (bytes ++ rest)
turn passed more cs bytes rest ss ss' last now later =
    ap (λ x. result x last) (sym (append_assoc passed more cs))
    ∙ later
    ∙ ap (λ x. x ++ rest) now
    ∙ append_assoc (result passed ss) bytes rest

code_byte-encode :
    (p : Bool) (passed : List ℕ) (ss : Option (List ℕ)) (c : ℕ)
    → result (passed ++ c ∷ []) (code_byte p passed ss c) ≡ result passed ss ++ encode_byte p c
code_byte-encode p passed ss c = elim (Bool-cases (char_is_unreserved c)) [
  | inl plain ↦ rw plain (result-append_if passed (c ∷ []) ss)
  | inr coded ↦ rw coded (result-append_to passed (c ∷ []) (escape p c) ss)
]

encode_loop-encoded :
    (p : Bool) (passed : List ℕ) (ss : Option (List ℕ)) (cs : List ℕ)
    → result (passed ++ cs) (encode_loop p passed ss cs) ≡ result passed ss ++ encoded p cs
unfolding encode_loop encoded
encode_loop-encoded p passed ss [] = result-nil passed ss
encode_loop-encoded p passed ss (c ∷ cs) =
    turn passed (c ∷ []) cs (encode_byte p c) (encoded p cs) ss (code_byte p passed ss c)
      (encode_loop p (passed ++ c ∷ []) (code_byte p passed ss c) cs)
      (code_byte-encode p passed ss c)
      (encode_loop-encoded p (passed ++ c ∷ []) (code_byte p passed ss c) cs)

-- `UrlEncode` appends to a copy that it makes late; the result is that of each byte on its own.
pub url_encode-encoded : (p : Bool) (str : List ℕ) → url_encode p str ≡ encoded p str
unfolding url_encode
url_encode-encoded p str = encode_loop-encoded p [] none str

one_byte-plain :
    (p : Bool) (passed : List ℕ) (ss : Option (List ℕ)) (c : ℕ)
    → result (passed ++ c ∷ []) (one_byte p passed ss c) ≡ result passed ss ++ plain_byte p c ∷ []
one_byte-plain p passed ss c = elim (Bool-cases (c == 43 && p)) [
  | inl space ↦ rw space (result-append_to passed (c ∷ []) (32 ∷ []) ss)
  | inr other ↦ rw other (result-append_if passed (c ∷ []) ss)
]

decode_loop-decoded :
    (p : Bool) (passed : List ℕ) (ss : Option (List ℕ)) (cs : List ℕ)
    → result (passed ++ cs) (decode_loop p passed ss cs) ≡ result passed ss ++ decoded p cs
unfolding decode_loop decoded
decode_loop-decoded p passed ss [] = result-nil passed ss
decode_loop-decoded p passed ss (c ∷ []) = one_byte-plain p passed ss c
decode_loop-decoded p passed ss (c ∷ d ∷ []) =
    turn passed (c ∷ []) (d ∷ []) (plain_byte p c ∷ []) (decoded p (d ∷ [])) ss
      (one_byte p passed ss c) (decode_loop p (passed ++ c ∷ []) (one_byte p passed ss c) (d ∷ []))
      (one_byte-plain p passed ss c)
      (decode_loop-decoded p (passed ++ c ∷ []) (one_byte p passed ss c) (d ∷ []))
decode_loop-decoded p passed ss (c ∷ d ∷ e ∷ cs) =
    by_case (c == 43 && p) (c == 37 && isxdigit d && isxdigit e)
      (turn passed (c ∷ []) (d ∷ e ∷ cs) (plain_byte p c ∷ []) (decoded p (d ∷ e ∷ cs)) ss
        (one_byte p passed ss c) next_ss (one_byte-plain p passed ss c)
        (decode_loop-decoded p (passed ++ c ∷ []) (one_byte p passed ss c) (d ∷ e ∷ cs)))
      (turn passed (c ∷ d ∷ e ∷ []) cs (hex_byte d e ∷ []) (decoded p cs) ss jump_from jump_ss
        (result-append_to passed (c ∷ d ∷ e ∷ []) (hex_byte d e ∷ []) ss)
        (decode_loop-decoded p (passed ++ c ∷ d ∷ e ∷ []) jump_from cs))
  where
    next_ss : Option (List ℕ)
    next_ss = decode_loop p (passed ++ c ∷ []) (one_byte p passed ss c) (d ∷ e ∷ cs)

    jump_from : Option (List ℕ)
    jump_from = some (append_to passed ss (hex_byte d e ∷ []))

    jump_ss : Option (List ℕ)
    jump_ss = decode_loop p (passed ++ c ∷ d ∷ e ∷ []) jump_from cs

    by_case :
        (plus pair : Bool)
        → result (passed ++ c ∷ d ∷ e ∷ cs) next_ss
          ≡ result passed ss ++ plain_byte p c ∷ decoded p (d ∷ e ∷ cs)
        → result (passed ++ c ∷ d ∷ e ∷ cs) jump_ss
          ≡ result passed ss ++ hex_byte d e ∷ decoded p cs
        → result
            (passed ++ c ∷ d ∷ e ∷ cs)
            (if plus then next_ss else if pair then jump_ss else next_ss)
          ≡ result passed ss
            ++ (if not plus && pair
                then hex_byte d e ∷ decoded p cs
                else plain_byte p c ∷ decoded p (d ∷ e ∷ cs))
    by_case true pair next jump = next
    by_case false true next jump = jump
    by_case false false next jump = next

-- `UrlDecode` likewise.
pub url_decode-decoded : (p : Bool) (str : List ℕ) → url_decode p str ≡ decoded p str
unfolding url_decode
url_decode-decoded p str = decode_loop-decoded p [] none str
