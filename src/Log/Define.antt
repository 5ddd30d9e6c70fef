-- ===== src/Log/Define.antt =====
-- src/system/log.cc: `LogAppenderDefine` and `LogDefine`, and their comparison.
use hpgs.Prelude.{ℕ, ◌≡◌, refl, arith, Bool, true, false, ◌&&◌, List, [], ◌∷◌, ◌==◌}
use hpgs.Prelude.Text.{same_text, same_text_refl}

pub record LogAppenderDefine : Type 0 where
  pub type : ℕ
  pub level : ℕ
  pub formatter : List ℕ
  pub file : List ℕ

pub record LogDefine : Type 0 where
  pub name : List ℕ
  pub level : ℕ
  pub formatter : List ℕ
  pub appenders : List LogAppenderDefine

-- `LogAppenderDefine::operator==`.
abbrev pub same_appender : LogAppenderDefine → LogAppenderDefine → Bool
same_appender a oth =
    a.type == oth.type
    && a.level == oth.level
    && same_text a.formatter oth.formatter
    && same_text a.file oth.formatter

-- `std::vector::operator==`.
abbrev pub same_appenders : List LogAppenderDefine → List LogAppenderDefine → Bool
same_appenders [] [] = true
same_appenders [] (b ∷ bs) = false
same_appenders (a ∷ xs) [] = false
same_appenders (a ∷ xs) (b ∷ bs) = same_appender a b && same_appenders xs bs

-- `LogDefine::operator==`.
unfoldable pub same_define : LogDefine → LogDefine → Bool
same_define d oth =
    same_text d.name oth.name
    && d.level == oth.level
    && same_text d.formatter oth.formatter
    && same_appenders d.appenders oth.appenders

-- `LogDefine::isValid`.
abbrev pub is_valid : LogDefine → Bool
is_valid d = elim d.name [ [] ↦ false | c ∷ cs ↦ true ]

abbrev pub files_named_as_formatters : List LogAppenderDefine → Bool
files_named_as_formatters [] = true
files_named_as_formatters (a ∷ xs) = same_text a.file a.formatter && files_named_as_formatters xs

same_appenders_refl :
    (xs : List LogAppenderDefine) → same_appenders xs xs ≡ files_named_as_formatters xs
same_appenders_refl [] = refl
same_appenders_refl (a ∷ xs) = ground (arith, same_text_refl a.formatter, same_appenders_refl xs)

-- A definition of loggers is equal to itself just where every appender's file has the name that is its
-- format: the file of one side is compared with the format of the other.
pub same_define_refl : (d : LogDefine) → same_define d d ≡ files_named_as_formatters d.appenders
unfolding same_define
same_define_refl d =
    ground
      (arith, same_text_refl d.name, same_text_refl d.formatter, same_appenders_refl d.appenders)
