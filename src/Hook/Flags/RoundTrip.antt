-- ===== src/Hook/Flags/RoundTrip.antt =====
-- What fcntl gives back of what it was given, and what the kernel has; and ioctl against the two.
use hpgs.Prelude.{
  ℕ, ◌≡◌, refl, arith, Bool, true, false, Option, some, ◌⊎◌, inl, inr, ◌==◌, Option-cases,
}
use hpgs.Prelude.{none}
use hpgs.FdManager.{look}
use hpgs.Hook.Flags.{Flags, Files, ctx_of, is_plain, set_flags, get_flags}

same : (n : ℕ) → (n == n) ≡ true
same n = ground arith

-- The descriptor `fd` is a socket that is not closed, with its object at `p`.
pub record IsSocket (fd p : ℕ) (s : Files) : Type 0 where
  pub known : ctx_of fd s.manager ≡ some p
  pub not_plain : is_plain (s.manager.objects p) ≡ false

-- Where F_SETFL succeeds the flag O_NONBLOCK is the one of its argument.
pub record IsFcntl (setfl : Flags → Flags → Option Flags) : Type 0 where
  pub settles : (old arg new : Flags) → setfl old arg ≡ some new → new.o_nonblock ≡ arg.o_nonblock

-- FIONBIO on an open descriptor succeeds, and sets the flag to its argument.
pub record IsIoctl (fionbio : Flags → Bool → Option Flags) : Type 0 where
  pub sets :
      (old : Flags) (b : Bool) → (new : Flags) × (fionbio old b ≡ some new) × (new.o_nonblock ≡ b)

-- What the library asks of the kernel instead of `arg`, and what the kernel then has: its flags as they were
-- where it refuses, and where it accepts what it has made of them, with O_NONBLOCK as the library set it.
abbrev pub Asked : (Flags → Flags → Option Flags) → Flags → Flags → Bool → Flags → Type 0
Asked setfl old arg sys_nonblock kernel =
    let asked : Flags = record arg { o_nonblock = sys_nonblock } in
    ((setfl old asked ≡ none) × (kernel ≡ old))
    ⊎ ((setfl old asked ≡ some kernel) × (kernel.o_nonblock ≡ sys_nonblock))

-- On a socket that is not closed F_GETFL answers the O_NONBLOCK that the last F_SETFL asked for, whether the
-- kernel accepted or refused, with the other flags as the kernel has them. The kernel was asked for the
-- other flags and for O_NONBLOCK as the library set it: where it refused it keeps all its flags, and where
-- it accepted it has that O_NONBLOCK, whatever the caller asked.
pub get_flags-set_flags :
    (setfl : Flags → Flags → Option Flags) (fd p : ℕ) (arg : Flags) (s : Files)
    → IsFcntl setfl
    → IsSocket fd p s
    → let s' = set_flags setfl fd arg s in
      ((get_flags fd s').o_nonblock ≡ arg.o_nonblock)
      × ((get_flags fd s').rest ≡ (s'.kernel fd).rest)
      × Asked setfl (s.kernel fd) arg (s.manager.objects p).sys_nonblock (s'.kernel fd)
unfolding get_flags set_flags look
get_flags-set_flags setfl fd p arg s fcntl h = elim (Option-cases (setfl (s.kernel fd) asked)) [
  | inl refused ↦
      rw (h.known, h.not_plain, refused)
        (rw (h.known, same p, h.not_plain) (refl, refl, inl (refl, refl)))
  | inr (new, ok) ↦
      rw (h.known, h.not_plain, ok)
        (rw (h.known, same p, h.not_plain, same fd)
          (refl, refl, inr (refl, fcntl.settles (s.kernel fd) asked new ok)))
]
  where
    asked : Flags
    asked = record arg { o_nonblock = (s.manager.objects p).sys_nonblock }
