-- ===== src/Log/Level.antt =====
-- src/include/system/log.h and src/system/log.cc: `LogLevel`. A level is the number of its enumerator.
use hpgs.Prelude.{ℕ, zero, suc, ◌≡◌, refl, arith, List, leb, ◌==◌, if◌then◌else◌}
use hpgs.Prelude.Text.{codes, same_text}

abbrev pub unknow : ℕ
unknow = 0

abbrev pub debug : ℕ
debug = 1

abbrev pub info : ℕ
info = 2

abbrev pub warning : ℕ
warning = 3

abbrev pub error : ℕ
error = 4

abbrev pub fatal : ℕ
fatal = 5

-- `LogLevel::ToString`.
unfoldable pub to_string : ℕ → List ℕ
to_string level =
    if level == debug
    then codes "DEBUG"
    else if level == info
    then codes "INFO"
    else if level == warning
    then codes "WARNING"
    else if level == error
    then codes "ERROR"
    else if level == fatal
    then codes "FATAL"
    else codes "UNKNOW"

-- `LogLevel::FromString`.
unfoldable pub from_string : List ℕ → ℕ
from_string str =
    if same_text str (codes "debug")
    then debug
    else if same_text str (codes "info")
    then info
    else if same_text str (codes "warning")
    then warning
    else if same_text str (codes "error")
    then error
    else if same_text str (codes "fatal")
    then fatal
    else if same_text str (codes "DEBUG")
    then debug
    else if same_text str (codes "INFO")
    then info
    else if same_text str (codes "WARNING")
    then warning
    else if same_text str (codes "ERROR")
    then error
    else if same_text str (codes "FATAL")
    then fatal
    else unknow

-- The text of a level is read back as the level, and that of any number that is none as `UNKNOW`.
pub from_string-to_string :
    (level : ℕ) → from_string (to_string level) ≡ (if leb level fatal then level else unknow)
unfolding from_string to_string
from_string-to_string zero = refl
from_string-to_string (suc zero) = refl
from_string-to_string (suc (suc zero)) = refl
from_string-to_string (suc (suc (suc zero))) = refl
from_string-to_string (suc (suc (suc (suc zero)))) = refl
from_string-to_string (suc (suc (suc (suc (suc zero))))) = refl
from_string-to_string (suc (suc (suc (suc (suc (suc n)))))) = ground arith
