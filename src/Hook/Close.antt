-- ===== src/Hook/Close.antt =====
-- src/util/hook.cc: `close`, up to the call of the system, with the events of IoManager and the table of
-- FdManager. `iom` is `IOManager::GetThis()`, which is null on a thread that runs none.
pub mod Cleared
use hpgs.Prelude.Int.{pos}
use hpgs.Prelude.{ℕ, Bool, true, false, not, Option, none, some, if◌then◌else◌}
use hpgs.FdManager.{FdManager}
use hpgs.FdManager
use hpgs.IoManager.{IoManager, CtlOp, Result, done, fault, out_of_bounds}
use hpgs.IoManager.Operations.{cancel_all}
use hpgs.Hook.Flags.{ctx_of}

pub record Tables (K : Type 0) : Type 0 where
  pub manager : FdManager
  pub iom : Option (IoManager K)

module _ {K : Type 0} (ctl : CtlOp → ℕ → ℕ → K → Bool × K) where
  abbrev pub cancelled_in : Tables K → Result (Bool × IoManager K) → Result (Tables K)
  cancelled_in t (fault e) = fault e
  cancelled_in t (done (b, m')) = done (record t { iom = some m' })

  -- `if(iom){ iom->cancelAll(fd); }`
  abbrev pub cancel_in : ℕ → Tables K → Option (IoManager K) → Result (Tables K)
  cancel_in fd t none = done t
  cancel_in fd t (some m) = cancelled_in t (cancel_all ctl (pos fd) m)

  abbrev pub deleted_in : Tables K → Option FdManager → Result (Tables K)
  deleted_in t none = fault out_of_bounds
  deleted_in t (some manager') = done (record t { manager = manager' })

  abbrev pub then_delete : ℕ → Result (Tables K) → Result (Tables K)
  then_delete fd (fault e) = fault e
  then_delete fd (done t) = deleted_in t (FdManager.del (pos fd) t.manager)

  abbrev pub close_known : ℕ → Tables K → Option ℕ → Result (Tables K)
  close_known fd t none = done t
  close_known fd t (some p) = then_delete fd (cancel_in fd t t.iom)

  unfoldable pub close : Bool → ℕ → Tables K → Result (Tables K)
  close hook_enable fd t =
      if not hook_enable then done t else close_known fd t (ctx_of fd t.manager)
