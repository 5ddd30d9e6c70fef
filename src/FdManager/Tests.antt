-- ===== src/FdManager/Tests.antt =====
-- A table with one object.
use hpgs.Prelude.{ℕ, zero, suc, ◌≡◌, refl, arith, Bool, true, false, [], ◌∷◌}
use hpgs.Prelude.{Option, none, some, get_elem?, length, ◌==◌, some-injective}
use mathlib.Core.Path.{subst}
use hpgs.FdManager.{FdCtx, FdManager, no_timeout, resize}
use hpgs.FdManager.Get.{IsValid, IsFresh}

abbrev sockets : ℕ → Option Bool
sockets fd = some true

abbrev socket : FdCtx
socket = record {
  is_init = true;
  is_socket = true;
  sys_nonblock = true;
  user_nonblock = false;
  is_closed = false;
  fd = 1;
  recv_timeout = no_timeout;
  send_timeout = no_timeout;
}

abbrev table : FdManager
table = record { datas = none ∷ some 8 ∷ []; objects = λ p. socket; nonblock = λ fd. true }

own : (i p : ℕ) → get_elem? table.datas i ≡ some (some p) → (table.objects p).fd ≡ i
own zero p e = absurd (cc)
own (suc zero) p e = refl
own (suc (suc i)) p e = absurd (cc)

table-IsValid : IsValid table
table-IsValid = record { grown = omega arith; own = own }

table-IsFresh : (a : ℕ) → (a == 8) ≡ false → IsFresh a table
table-IsFresh a n zero q e = absurd (cc)
table-IsFresh a n (suc zero) q e =
    subst (λ x. (a == x) ≡ false) (some-injective (some-injective e)) n
table-IsFresh a n (suc (suc i)) q e = absurd (cc)

-- The descriptor 5 makes the table seven places long.
resized : length (resize 7 table.datas) ≡ 7
unfolding resize
resized = refl
