-- ===== src/Hook/Close/Cleared.antt =====
-- What is left of a descriptor after `close`.
use hpgs.Prelude.Int.{pos}
use hpgs.Prelude.{
  ℕ, zero, suc, ◌≡◌, refl, ap, arith, Bool, true, false, List, [], ◌∷◌, Option, none, some, ◌==◌,
  ◌⊎◌, inl, inr, ltb, length, set, get_elem?, get_elem?-set_other, Bool-cases,
}
use hpgs.FdManager.{FdManager, look, look_at, del}
use hpgs.IoManager.{IoManager, CtlOp, FdContext, done}
use hpgs.Prelude.{not, ◌&&◌}
use hpgs.IoManager.{ctl_del, is_none}
use hpgs.IoManager.Inv.{IsEpoll, IsValid}
use hpgs.IoManager.Ready.{AllGone}
use hpgs.IoManager.Idle.{Untouched, cancel_all_lem}
use hpgs.Hook.Flags.{ctx_of, looked_up}
use hpgs.Hook.Close.{Tables, close}

-- Which object a place of the table stands for.
abbrev by_place : Option (Option ℕ) → Option ℕ
by_place e = looked_up (look_at false e)

forgets : (ds : List (Option ℕ)) (fd : ℕ) → by_place (get_elem? (set ds fd none) fd) ≡ none
forgets [] fd = refl
forgets (a ∷ ds) zero = refl
forgets (a ∷ ds) (suc fd) = forgets ds fd

beyond_none :
    (ds : List (Option ℕ)) (fd : ℕ) → ltb fd (length ds) ≡ false → by_place (get_elem? ds fd) ≡ none
beyond_none [] fd e = refl
beyond_none (a ∷ ds) zero e = absurd (ground arith)
beyond_none (a ∷ ds) (suc fd) e = beyond_none ds fd (ground arith)

-- `del` in its two cases.
del-ctx_of :
    (fd : ℕ) (m : FdManager)
    → (m' : FdManager) × (del (pos fd) m ≡ some m')
      × (ctx_of fd m' ≡ none)
      × ((q : ℕ) → (fd == q) ≡ false → ctx_of q m' ≡ ctx_of q m)
unfolding look del
del-ctx_of fd m = elim (Bool-cases (ltb fd (length m.datas))) [
  | inl inside ↦ rw inside (
    record m { datas = set m.datas fd none },
    refl,
    forgets m.datas fd,
    λ q other. ap (λ e. looked_up (look_at false e)) (get_elem?-set_other m.datas fd q none other),
  )
  | inr beyond ↦ rw beyond (m, refl, beyond_none m.datas fd beyond, λ q other. refl)
]

module _ {K : Type 0} {ctl : CtlOp → ℕ → ℕ → K → Bool × K} {registered : K → ℕ → Option ℕ}
    (kernel : IsEpoll ctl registered) (m : IoManager K) (fd : ℕ) (c : FdContext)
    (v : IsValid registered m) (at : get_elem? m.contexts fd ≡ some c) where
  -- `close` of a descriptor that the table knows and whose context exists, on a thread with an IOManager,
  -- does not fail. The table forgets the descriptor and no other. Where an event is registered and
  -- epoll_ctl succeeds, every event of the descriptor is gone and its waiters are scheduled; otherwise, and
  -- only then, the contexts stay as they are. The invariant of the events is kept.
  pub close_lem :
      (t : Tables K) (p : ℕ)
      → t.iom ≡ some m
      → ctx_of fd t.manager ≡ some p
      → (t' : Tables K) × (m' : IoManager K) × (b : Bool) × (close ctl true fd t ≡ done t')
        × (t'.iom ≡ some m')
        × (ctx_of fd t'.manager ≡ none)
        × ((q : ℕ) → (fd == q) ≡ false → ctx_of q t'.manager ≡ ctx_of q t.manager)
        × (b ≡ (not (is_none c.events) && (ctl ctl_del fd 0 m.epoll).0))
        × ((b ≡ true) × AllGone kernel fd c.events c m m'
            ⊎ (b ≡ false) × Untouched kernel m fd c v at m')
  unfolding close
  close_lem t p here known =
      let (b, m', ran, told, ends) = cancel_all_lem kernel m fd c v at in
      let (manager', deleted, gone, others) = del-ctx_of fd t.manager in
      (
        record { manager = manager'; iom = some m' },
        m',
        b,
        rw (known, here, ran, deleted) refl,
        refl,
        gone,
        others,
        told,
        ends,
      )
