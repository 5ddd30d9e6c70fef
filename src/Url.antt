-- ===== src/Url.antt =====
-- src/util/util.cc: `StringUtil::UrlEncode` and `StringUtil::UrlDecode`. A string is the list of its
-- bytes.
pub mod Reference
pub mod Digits
pub mod RoundTrip
mod Tests
use hpgs.Prelude.{ℕ, ◌+◌, ◌*◌, ◌/◌, ◌%◌, ◌^◌, bit_and, bit_or, Bool, true, false, not, ◌&&◌, ◌||◌}
use hpgs.Prelude.{List, [], ◌∷◌, ◌++◌, Option, none, some, get_elem?, leb, ◌==◌, if◌then◌else◌}

pub uri_chars : List ℕ
uri_chars =
    0 ∷ 0 ∷ 0 ∷ 0 ∷ 0 ∷ 0 ∷ 0 ∷ 0 ∷ 0 ∷ 0 ∷ 0 ∷ 0 ∷ 0 ∷ 0 ∷ 0 ∷ 0 ∷ 0 ∷ 0 ∷ 0 ∷ 0 ∷ 0 ∷ 0 ∷ 0 ∷ 0
    ∷ 0 ∷ 0 ∷ 0 ∷ 0 ∷ 0 ∷ 0 ∷ 0 ∷ 0 ∷ 0 ∷ 0 ∷ 0 ∷ 0 ∷ 0 ∷ 0 ∷ 0 ∷ 0 ∷ 0 ∷ 0 ∷ 0 ∷ 0 ∷ 0 ∷ 1 ∷ 1 ∷ 0
    ∷ 1 ∷ 1 ∷ 1 ∷ 1 ∷ 1 ∷ 1 ∷ 1 ∷ 1 ∷ 1 ∷ 1 ∷ 0 ∷ 0 ∷ 0 ∷ 1 ∷ 0 ∷ 0 ∷ 0 ∷ 1 ∷ 1 ∷ 1 ∷ 1 ∷ 1 ∷ 1 ∷ 1
    ∷ 1 ∷ 1 ∷ 1 ∷ 1 ∷ 1 ∷ 1 ∷ 1 ∷ 1 ∷ 1 ∷ 1 ∷ 1 ∷ 1 ∷ 1 ∷ 1 ∷ 1 ∷ 1 ∷ 1 ∷ 1 ∷ 1 ∷ 0 ∷ 0 ∷ 0 ∷ 0 ∷ 1
    ∷ 0 ∷ 1 ∷ 1 ∷ 1 ∷ 1 ∷ 1 ∷ 1 ∷ 1 ∷ 1 ∷ 1 ∷ 1 ∷ 1 ∷ 1 ∷ 1 ∷ 1 ∷ 1 ∷ 1 ∷ 1 ∷ 1 ∷ 1 ∷ 1 ∷ 1 ∷ 1 ∷ 1
    ∷ 1 ∷ 1 ∷ 1 ∷ 0 ∷ 0 ∷ 0 ∷ 1 ∷ 0 ∷ 0 ∷ 0 ∷ 0 ∷ 0 ∷ 0 ∷ 0 ∷ 0 ∷ 0 ∷ 0 ∷ 0 ∷ 0 ∷ 0 ∷ 0 ∷ 0 ∷ 0 ∷ 0
    ∷ 0 ∷ 0 ∷ 0 ∷ 0 ∷ 0 ∷ 0 ∷ 0 ∷ 0 ∷ 0 ∷ 0 ∷ 0 ∷ 0 ∷ 0 ∷ 0 ∷ 0 ∷ 0 ∷ 0 ∷ 0 ∷ 0 ∷ 0 ∷ 0 ∷ 0 ∷ 0 ∷ 0
    ∷ 0 ∷ 0 ∷ 0 ∷ 0 ∷ 0 ∷ 0 ∷ 0 ∷ 0 ∷ 0 ∷ 0 ∷ 0 ∷ 0 ∷ 0 ∷ 0 ∷ 0 ∷ 0 ∷ 0 ∷ 0 ∷ 0 ∷ 0 ∷ 0 ∷ 0 ∷ 0 ∷ 0
    ∷ 0 ∷ 0 ∷ 0 ∷ 0 ∷ 0 ∷ 0 ∷ 0 ∷ 0 ∷ 0 ∷ 0 ∷ 0 ∷ 0 ∷ 0 ∷ 0 ∷ 0 ∷ 0 ∷ 0 ∷ 0 ∷ 0 ∷ 0 ∷ 0 ∷ 0 ∷ 0 ∷ 0
    ∷ 0 ∷ 0 ∷ 0 ∷ 0 ∷ 0 ∷ 0 ∷ 0 ∷ 0 ∷ 0 ∷ 0 ∷ 0 ∷ 0 ∷ 0 ∷ 0 ∷ 0 ∷ 0 ∷ 0 ∷ 0 ∷ 0 ∷ 0 ∷ 0 ∷ 0 ∷ 0 ∷ 0
    ∷ 0 ∷ 0 ∷ 0 ∷ 0 ∷ 0 ∷ 0 ∷ 0 ∷ 0 ∷ 0 ∷ 0 ∷ 0 ∷ 0 ∷ 0 ∷ 0 ∷ 0 ∷ 0 ∷ []

pub xdigit_chars : List ℕ
xdigit_chars =
    0 ∷ 0 ∷ 0 ∷ 0 ∷ 0 ∷ 0 ∷ 0 ∷ 0 ∷ 0 ∷ 0 ∷ 0 ∷ 0 ∷ 0 ∷ 0 ∷ 0 ∷ 0 ∷ 0 ∷ 0 ∷ 0 ∷ 0 ∷ 0 ∷ 0 ∷ 0 ∷ 0
    ∷ 0 ∷ 0 ∷ 0 ∷ 0 ∷ 0 ∷ 0 ∷ 0 ∷ 0 ∷ 0 ∷ 0 ∷ 0 ∷ 0 ∷ 0 ∷ 0 ∷ 0 ∷ 0 ∷ 0 ∷ 0 ∷ 0 ∷ 0 ∷ 0 ∷ 0 ∷ 0 ∷ 0
    ∷ 0 ∷ 1 ∷ 2 ∷ 3 ∷ 4 ∷ 5 ∷ 6 ∷ 7 ∷ 8 ∷ 9 ∷ 0 ∷ 0 ∷ 0 ∷ 0 ∷ 0 ∷ 0 ∷ 0 ∷ 10 ∷ 11 ∷ 12 ∷ 13 ∷ 14
    ∷ 15 ∷ 0 ∷ 0 ∷ 0 ∷ 0 ∷ 0 ∷ 0 ∷ 0 ∷ 0 ∷ 0 ∷ 0 ∷ 0 ∷ 0 ∷ 0 ∷ 0 ∷ 0 ∷ 0 ∷ 0 ∷ 0 ∷ 0 ∷ 0 ∷ 0 ∷ 0 ∷ 0
    ∷ 0 ∷ 0 ∷ 0 ∷ 10 ∷ 11 ∷ 12 ∷ 13 ∷ 14 ∷ 15 ∷ 0 ∷ 0 ∷ 0 ∷ 0 ∷ 0 ∷ 0 ∷ 0 ∷ 0 ∷ 0 ∷ 0 ∷ 0 ∷ 0 ∷ 0
    ∷ 0 ∷ 0 ∷ 0 ∷ 0 ∷ 0 ∷ 0 ∷ 0 ∷ 0 ∷ 0 ∷ 0 ∷ 0 ∷ 0 ∷ 0 ∷ 0 ∷ 0 ∷ 0 ∷ 0 ∷ 0 ∷ 0 ∷ 0 ∷ 0 ∷ 0 ∷ 0 ∷ 0
    ∷ 0 ∷ 0 ∷ 0 ∷ 0 ∷ 0 ∷ 0 ∷ 0 ∷ 0 ∷ 0 ∷ 0 ∷ 0 ∷ 0 ∷ 0 ∷ 0 ∷ 0 ∷ 0 ∷ 0 ∷ 0 ∷ 0 ∷ 0 ∷ 0 ∷ 0 ∷ 0 ∷ 0
    ∷ 0 ∷ 0 ∷ 0 ∷ 0 ∷ 0 ∷ 0 ∷ 0 ∷ 0 ∷ 0 ∷ 0 ∷ 0 ∷ 0 ∷ 0 ∷ 0 ∷ 0 ∷ 0 ∷ 0 ∷ 0 ∷ 0 ∷ 0 ∷ 0 ∷ 0 ∷ 0 ∷ 0
    ∷ 0 ∷ 0 ∷ 0 ∷ 0 ∷ 0 ∷ 0 ∷ 0 ∷ 0 ∷ 0 ∷ 0 ∷ 0 ∷ 0 ∷ 0 ∷ 0 ∷ 0 ∷ 0 ∷ 0 ∷ 0 ∷ 0 ∷ 0 ∷ 0 ∷ 0 ∷ 0 ∷ 0
    ∷ 0 ∷ 0 ∷ 0 ∷ 0 ∷ 0 ∷ 0 ∷ 0 ∷ 0 ∷ 0 ∷ 0 ∷ 0 ∷ 0 ∷ 0 ∷ 0 ∷ 0 ∷ 0 ∷ 0 ∷ 0 ∷ 0 ∷ 0 ∷ 0 ∷ 0 ∷ 0 ∷ 0
    ∷ 0 ∷ 0 ∷ 0 ∷ 0 ∷ 0 ∷ 0 ∷ 0 ∷ 0 ∷ 0 ∷ 0 ∷ 0 ∷ 0 ∷ 0 ∷ 0 ∷ 0 ∷ 0 ∷ 0 ∷ 0 ∷ 0 ∷ 0 ∷ []

-- A table of 256 entries at an `unsigned char`.
abbrev pub entry : List ℕ → ℕ → ℕ
entry table c = elim (get_elem? table c) [ none ↦ 0 | some v ↦ v ]

-- `CHAR_IS_UNRESERVED`.
pub char_is_unreserved : ℕ → Bool
char_is_unreserved c = not (entry uri_chars c == 0)

-- "0123456789ABCDEF"
pub hexdigits : List ℕ
hexdigits = 48 ∷ 49 ∷ 50 ∷ 51 ∷ 52 ∷ 53 ∷ 54 ∷ 55 ∷ 56 ∷ 57 ∷ 65 ∷ 66 ∷ 67 ∷ 68 ∷ 69 ∷ 70 ∷ []

-- `isxdigit` of the C library.
pub isxdigit : ℕ → Bool
isxdigit c = leb 48 c && leb c 57 || leb 65 c && leb c 70 || leb 97 c && leb c 102

-- `ss` is null until the first byte that is not copied; then it starts with what was passed.
abbrev pub append_to : List ℕ → Option (List ℕ) → List ℕ → List ℕ
append_to passed none more = passed ++ more
append_to passed (some ss) more = ss ++ more

-- `else if(ss)`: a byte that is copied.
abbrev pub append_if : Option (List ℕ) → List ℕ → Option (List ℕ)
append_if none more = none
append_if (some ss) more = some (ss ++ more)

-- The string that is returned: `str` where `ss` is still null.
abbrev pub result : List ℕ → Option (List ℕ) → List ℕ
result str none = str
result str (some ss) = ss

-- What is appended for a byte that is not unreserved.
pub escape : Bool → ℕ → List ℕ
escape space_as_plus c =
    if c == 32 && space_as_plus
    then 43 ∷ []
    else 37 ∷ entry hexdigits (c / 2 ^ 4) ∷ entry hexdigits (bit_and c 0xf) ∷ []

-- One turn of `UrlEncode`.
abbrev pub code_byte : Bool → List ℕ → Option (List ℕ) → ℕ → Option (List ℕ)
code_byte space_as_plus passed ss c =
    if not (char_is_unreserved c)
    then some (append_to passed ss (escape space_as_plus c))
    else append_if ss (c ∷ [])

-- The loop of `UrlEncode` behind the bytes `passed`.
pub encode_loop : Bool → List ℕ → Option (List ℕ) → List ℕ → Option (List ℕ)
encode_loop space_as_plus passed ss [] = ss
encode_loop space_as_plus passed ss (c ∷ cs) =
    encode_loop space_as_plus (passed ++ c ∷ []) (code_byte space_as_plus passed ss c) cs

-- `StringUtil::UrlEncode`.
pub url_encode : Bool → List ℕ → List ℕ
url_encode space_as_plus str = result str (encode_loop space_as_plus [] none str)

-- The bytes that stand for one byte in `UrlDecode`: a plus for a space, or the byte itself.
abbrev pub one_byte : Bool → List ℕ → Option (List ℕ) → ℕ → Option (List ℕ)
one_byte space_as_plus passed ss c =
    if c == 43 && space_as_plus then some (append_to passed ss (32 ∷ [])) else append_if ss (c ∷ [])

-- `(char)(xdigit_chars[*(c + 1)] << 4 | xdigit_chars[*(c + 2)])`
pub hex_byte : ℕ → ℕ → ℕ
hex_byte d e = bit_or (entry xdigit_chars d * 2 ^ 4) (entry xdigit_chars e) % 2 ^ 8

-- The loop of `UrlDecode`. Near the end `(c + 2) < end` is false.
pub decode_loop : Bool → List ℕ → Option (List ℕ) → List ℕ → Option (List ℕ)
decode_loop space_as_plus passed ss [] = ss
decode_loop space_as_plus passed ss (c ∷ []) = one_byte space_as_plus passed ss c
decode_loop space_as_plus passed ss (c ∷ d ∷ []) =
    decode_loop space_as_plus (passed ++ c ∷ []) (one_byte space_as_plus passed ss c) (d ∷ [])
decode_loop space_as_plus passed ss (c ∷ d ∷ e ∷ cs) =
    let next =
      decode_loop space_as_plus (passed ++ c ∷ []) (one_byte space_as_plus passed ss c)
        (d ∷ e ∷ cs) in
    let jump =
      decode_loop space_as_plus (passed ++ c ∷ d ∷ e ∷ [])
        (some (append_to passed ss (hex_byte d e ∷ []))) cs in
    if c == 43 && space_as_plus
    then next
    else if c == 37 && isxdigit d && isxdigit e
    then jump
    else next

-- `StringUtil::UrlDecode`.
pub url_decode : Bool → List ℕ → List ℕ
url_decode space_as_plus str = result str (decode_loop space_as_plus [] none str)
