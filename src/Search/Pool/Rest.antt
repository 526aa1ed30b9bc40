-- ===== src/Search/Pool/Rest.antt =====
-- hw04/pfind.c: a thread that has nothing to do.
use operating_systems_git.Prelude.{
  ℕ, ◌+◌, ◌≤◌, ◌≡◌, ◌⊎◌, inl, inr, refl, arith, true, false, none, some, List,
}
use operating_systems_git.Threads.Sum.{total}
use operating_systems_git.Search.Pool.{
  Local, unborn, starting, preparing, waiting_start, unstarted, fetching, scanning, handing,
  before_sleep, asleep, woken, finished, failed, crashed, Main, Pool,
}
use operating_systems_git.Search.Pool.Parts.{moving, stray}
use operating_systems_git.Search.Pool.Invariant.{Working}
use operating_systems_git.Search.Pool.Weight.{faults}
use operating_systems_git.Search.Pool.{
  creating, locked, created, waiting_initialized, all_initialized, broadcasting, waiting_sleep,
  all_sleep, waking, joining, exits, faulted, prints,
}
use operating_systems_git.Search.Pool.Program.{has_ended}
use operating_systems_git.Search.Pool.Parts.{busy, sleeps}
use operating_systems_git.Search.Pool.Invariant.{IsPhase}
use operating_systems_git.Search.Pool.Program.{has_exited}
use operating_systems_git.Search.Pool.Parts.{fresh, not_born, parked}

pub fresh-moving : (l : Local) → fresh l ≤ moving l + not_born l
fresh-moving unborn = omega arith
fresh-moving starting = omega arith
fresh-moving preparing = omega arith
fresh-moving waiting_start = omega arith
fresh-moving unstarted = omega arith
fresh-moving fetching = omega arith
fresh-moving (scanning d) = omega arith
fresh-moving (handing to o r) = omega arith
fresh-moving before_sleep = omega arith
fresh-moving asleep = omega arith
fresh-moving (woken none) = omega arith
fresh-moving (woken (some d)) = omega arith
fresh-moving finished = omega arith
fresh-moving failed = omega arith
fresh-moving crashed = omega arith

-- What keeps a thread from its next step, but for the wait on its own condition variable.
abbrev pub others : Local → ℕ
others l = fresh l + parked l + faults l + stray l

pub one_of : (l : Local) → 1 ≤ moving l + sleeps l + others l
one_of unborn = omega arith
one_of starting = omega arith
one_of preparing = omega arith
one_of waiting_start = omega arith
one_of unstarted = omega arith
one_of fetching = omega arith
one_of (scanning d) = omega arith
one_of (handing to o r) = omega arith
one_of before_sleep = omega arith
one_of asleep = omega arith
one_of (woken none) = omega arith
one_of (woken (some d)) = omega arith
one_of finished = omega arith
one_of failed = omega arith
one_of crashed = omega arith

pub ended_of : (l : Local) → busy l ≡ 0 → sleeps l ≤ 0 → moving l ≡ 0 → has_ended l ≡ true
ended_of unborn e a m = absurd (omega (arith, e))
ended_of starting e a m = absurd (omega (arith, e))
ended_of preparing e a m = absurd (omega (arith, e))
ended_of waiting_start e a m = absurd (omega (arith, e))
ended_of unstarted e a m = refl
ended_of fetching e a m = absurd (omega (arith, e))
ended_of (scanning d) e a m = absurd (omega (arith, e))
ended_of (handing to o r) e a m = absurd (omega (arith, e))
ended_of before_sleep e a m = absurd (omega (arith, e))
ended_of asleep e a m = absurd (omega (arith, a))
ended_of (woken none) e a m = absurd (omega (arith, m))
ended_of (woken (some d)) e a m = absurd (omega (arith, e))
ended_of finished e a m = refl
ended_of failed e a m = refl
ended_of crashed e a m = absurd (omega (arith, e))

pub phase-Working :
    (term : List ℕ) (n all : ℕ) (s : Pool) (m : Main)
    → has_exited m ≡ false
    → IsPhase term n all s m
    → Working term n all s ⊎ ((s.done ≡ true) × (total busy n s.locals ≡ 0))
phase-Working term n all s (creating i) e p = inl p.0
phase-Working term n all s locked e p = inl p.0
phase-Working term n all s created e p = inl p.0
phase-Working term n all s waiting_initialized e p = inl p.0
phase-Working term n all s all_initialized e p = inl p.0
phase-Working term n all s broadcasting e p = inl p.0
phase-Working term n all s waiting_sleep e p = inl p.0
phase-Working term n all s all_sleep e p = inl p.0
phase-Working term n all s (waking th) e p = inr (p.0, p.2)
phase-Working term n all s (joining k) e p = inr (p.0, p.2)
phase-Working term n all s (exits st) e p = cc
phase-Working term n all s faulted e p = cc
phase-Working term n all s (prints k st) e p = cc
