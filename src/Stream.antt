-- ===== src/Stream.antt =====
-- src/network/stream.cc: readFixSize and writeFixSize. `transfer` is the call of `read` or `write`, on the
-- state `S` of what lies behind it, buffer included: it takes the offset and how much is left, and answers
-- the length. The four functions have the same loop; the two on a ByteArray keep the offset in there.
pub mod Fix
mod Tests
use hpgs.Prelude.Int.{ℤ, pos, negsuc, of_pattern}
use hpgs.Prelude.{ℕ, zero, suc, ◌+◌, ◌-◌, ◌%◌, ◌^◌, Bool, Option, none, some, ltb, if◌then◌else◌}

-- The conversion of a `size_t` or an `int64_t` to an `int`.
abbrev pub to_int : ℕ → ℤ
to_int n = of_pattern 32 (n % 2 ^ 32)

-- -(n + 1), as an `int`.
abbrev pub end_code : ℕ → ℤ
end_code n = of_pattern 32 (2 ^ 32 - 1 - n % 2 ^ 32)

module _ {S : Type 0} (transfer : ℕ → ℕ → S → ℤ × S) where
  -- The body of the loop, behind the call; `again` is the next turn.
  abbrev pub moved : (ℕ → ℕ → S → Option (ℤ × S)) → ℕ → ℕ → ℤ × S → Option (ℤ × S)
  moved again offset left (pos zero, s) = some (pos zero, s)
  moved again offset left (pos (suc n), s) = again (offset + suc n) (left - suc n) s
  moved again offset left (negsuc n, s) = some (end_code n, s)

  -- `while(left > 0)`, with a bound on its turns; `length` is what is returned at the end.
  abbrev pub fix_loop : ℕ → ℕ → ℕ → ℕ → S → Option (ℤ × S)
  fix_loop fuel length offset zero s = some (to_int length, s)
  fix_loop zero length offset (suc left) s = none
  fix_loop (suc fuel) length offset (suc left) s =
      moved (fix_loop fuel length) offset (suc left) (transfer offset (suc left) s)

  -- `readFixSize` and `writeFixSize`. A length of 2 ^ 63 or more is negative as an `int64_t`, and no turn is
  -- made.
  unfoldable pub fix_size : ℕ → S → Option (ℤ × S)
  fix_size length s =
      if ltb length (2 ^ 63) then fix_loop length length 0 length s else some (to_int length, s)
