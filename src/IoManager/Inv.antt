-- ===== src/IoManager/Inv.antt =====
-- The invariant of the I/O manager, and what the kernel is relied on for.
use hpgs.Prelude.{
  ℕ, ◌+◌, ◌^◌, ◌≤◌, ◌<◌, ◌≡◌, ◌⊎◌, inl, inr, ap, sym, ◌∙◌, arith, Bool, true, false, Bool-cases,
  ==_iff, ◌==◌,
}
use hpgs.Prelude.{length, get_elem?, set, Option, none, some, length-set}
use mathlib.Core.Path.{subst}
use hpgs.IoManager.{
  is_none, epoll_mask, EventContext, FdContext, reset_context, CtlOp, ctl_add, ctl_mod, IoManager,
}
use hpgs.IoManager.Slots.{count, count_events, count-set}
use hpgs.Prelude.{get_elem?-set, get_elem?-set_other, some-injective}

-- What the manual promises of `epoll_ctl`: success of an addition or a change leaves the mask that was
-- given, no call touches another descriptor, and a call that fails changes nothing.
pub record IsEpoll {K : Type 0} (ctl : CtlOp → ℕ → ℕ → K → Bool × K) (registered : K → ℕ → Option ℕ)
    : Type 0 where
  pub added :
      (fd mask : ℕ) (k : K)
      → (ctl ctl_add fd mask k).0 ≡ true
      → registered (ctl ctl_add fd mask k).1 fd ≡ some mask
  pub changed :
      (fd mask : ℕ) (k : K)
      → (ctl ctl_mod fd mask k).0 ≡ true
      → registered (ctl ctl_mod fd mask k).1 fd ≡ some mask
  pub apart :
      (op : CtlOp) (fd mask : ℕ) (k : K) (other : ℕ)
      → (fd == other) ≡ false
      → registered (ctl op fd mask k).1 other ≡ registered k other
  pub failed :
      (op : CtlOp) (fd mask : ℕ) (k : K)
      → (ctl op fd mask k).0 ≡ false
      → registered (ctl op fd mask k).1 fd ≡ registered k fd

-- One callback or fibre waits, with a scheduler to run it.
pub record IsWaiting (x : EventContext) : Type 0 where
  pub scheduler : (s : ℕ) × (x.scheduler ≡ some s)
  pub waits :
      ((f : ℕ) × (x.cb ≡ some f) × (x.fibre ≡ none))
      ⊎ ((f : ℕ) × (x.fibre ≡ some f) × (x.cb ≡ none))

-- The context of an event that is registered, or is not.
abbrev pub IsSlot : Bool → EventContext → Type 0
IsSlot true x = IsWaiting x
IsSlot false x = x ≡ reset_context

-- The context in the place `i` has a waiter for just the events that are registered, and the kernel
-- watches the descriptor for them.
pub record IsContext (mask : Option ℕ) (i : ℕ) (c : FdContext) : Type 0 where
  pub fd : c.fd ≡ i
  pub read_ctx : IsSlot c.events.has_read c.read_ctx
  pub write_ctx : IsSlot c.events.has_write c.write_ctx
  pub known : is_none c.events ≡ false → mask ≡ some (epoll_mask c.events)

-- Every context is in order, and `pending` is the number of events that are registered.
pub record IsValid {K : Type 0} (registered : K → ℕ → Option ℕ) (m : IoManager K) : Type 0 where
  pub contexts :
      (i : ℕ) (c : FdContext)
      → get_elem? m.contexts i ≡ some c
      → IsContext (registered m.epoll i) i c
  pub pending : m.pending ≡ count m.contexts
  pub grown : 2 ≤ length m.contexts
  pub bounded : length m.contexts < 2 ^ 62

module _ {K : Type 0} (registered : K → ℕ → Option ℕ) where
  -- One context, the kernel's state of its descriptor and the count change together.
  pub put_lem :
      (m : IoManager K) (i : ℕ) (c c' : FdContext) (k : K) (n : ℕ)
      → IsValid registered m
      → get_elem? m.contexts i ≡ some c
      → IsContext (registered k i) i c'
      → ((j : ℕ) → (i == j) ≡ false → registered k j ≡ registered m.epoll j)
      → n + count_events c.events ≡ m.pending + count_events c'.events
      → IsValid registered (record m { contexts = set m.contexts i c'; pending = n; epoll = k })
  put_lem m i c c' k n v at good apart counted = record {
    contexts = place;
    pending = omega (arith, count-set m.contexts i c c' at, v.pending);
    grown = omega (arith, length-set m.contexts i c', v.grown);
    bounded = omega (arith, length-set m.contexts i c', v.bounded);
  }
    where
      place :
          (j : ℕ) (d : FdContext)
          → get_elem? (set m.contexts i c') j ≡ some d
          → IsContext (registered k j) j d
      place j d e = elim (Bool-cases (i == j)) [
        | inl same ↦
            subst (λ x. IsContext (registered k x) x d) ((==_iff i j).0 same)
              (subst (IsContext (registered k i) i)
                (some-injective (
                  sym (get_elem?-set m.contexts i c' c at)
                  ∙ ap (get_elem? (set m.contexts i c')) ((==_iff i j).0 same)
                  ∙ e))
                good)
        | inr other ↦
            subst (λ r. IsContext r j d) (sym (apart j other))
              (v.contexts j d (sym (get_elem?-set_other m.contexts i j c' other) ∙ e))
      ]

  -- A call of epoll_ctl that failed.
  pub failed_lem :
      (ctl : CtlOp → ℕ → ℕ → K → Bool × K)
      → IsEpoll ctl registered
      → (op : CtlOp) (fd mask : ℕ) (m : IoManager K) → (ctl op fd mask m.epoll).0 ≡ false
      → IsValid registered m
      → IsValid registered (record m { epoll = (ctl op fd mask m.epoll).1 })
  failed_lem ctl kernel op fd mask m f v = record {
    contexts = λ j d e. subst (λ r. IsContext r j d) (sym (same j)) (v.contexts j d e);
    pending = v.pending;
    grown = v.grown;
    bounded = v.bounded;
  }
    where
      same : (j : ℕ) → registered (ctl op fd mask m.epoll).1 j ≡ registered m.epoll j
      same j = elim (Bool-cases (fd == j)) [
        | inl it ↦
            subst (λ x. registered (ctl op fd mask m.epoll).1 x ≡ registered m.epoll x)
              ((==_iff fd j).0 it) (kernel.failed op fd mask m.epoll f)
        | inr other ↦ kernel.apart op fd mask m.epoll j other
      ]
