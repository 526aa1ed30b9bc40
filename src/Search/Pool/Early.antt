-- ===== src/Search/Pool/Early.antt =====
-- hw04/pfind.c: what holds of the threads that have not come to their first wait.
use operating_systems_git.Prelude.{
  ◌≢◌, ◌≤◌, ℕ, ◌≡◌, ◌⊎◌, inl, inr, refl, arith, none, some, Bool, false, true, List, ◌==◌,
  if◌then◌else◌,
}
use operating_systems_git.Threads.Sum.{total}
use operating_systems_git.Search.Pool.{
  Local, unborn, starting, preparing, waiting_start, unstarted, fetching, scanning, handing,
  before_sleep, asleep, woken, finished, failed, crashed, Main, creating, locked, created,
  waiting_initialized, all_initialized, broadcasting, waiting_sleep, all_sleep, waking, joining,
  exits, faulted, prints, Pool, signal_initialized, holds_initializer,
}
use operating_systems_git.Search.Pool.Thread.{thread_func}
use operating_systems_git.Search.Pool.Parts.{fresh, early, not_born, started, moving}
use operating_systems_git.Search.Pool.Invariant.{Working, AreUnborn}

pub still :
    (term : List ℕ) (memory : ℕ → Bool) (n i : ℕ) (l : Local) (s : Pool)
    → moving l ≡ 0
    → thread_func term memory n i l s ≡ s
unfolding thread_func
still term memory n i unborn s e = refl
still term memory n i starting s e = absurd (omega (arith, e))
still term memory n i preparing s e = absurd (omega (arith, e))
still term memory n i waiting_start s e = refl
still term memory n i unstarted s e = refl
still term memory n i fetching s e = absurd (omega (arith, e))
still term memory n i (scanning d) s e = absurd (omega (arith, e))
still term memory n i (handing to o r) s e = absurd (omega (arith, e))
still term memory n i before_sleep s e = absurd (omega (arith, e))
still term memory n i asleep s e = refl
still term memory n i (woken none) s e = absurd (omega (arith, e))
still term memory n i (woken (some d)) s e = absurd (omega (arith, e))
still term memory n i finished s e = refl
still term memory n i failed s e = refl
still term memory n i crashed s e = refl

pub signal_initialized-cases : (m : Main) → (m ≡ waiting_initialized) ⊎ (signal_initialized m ≡ m)
signal_initialized-cases (creating i) = inr refl
signal_initialized-cases locked = inr refl
signal_initialized-cases created = inr refl
signal_initialized-cases waiting_initialized = inl refl
signal_initialized-cases all_initialized = inr refl
signal_initialized-cases broadcasting = inr refl
signal_initialized-cases waiting_sleep = inr refl
signal_initialized-cases all_sleep = inr refl
signal_initialized-cases (waking th) = inr refl
signal_initialized-cases (joining k) = inr refl
signal_initialized-cases (exits st) = inr refl
signal_initialized-cases faulted = inr refl
signal_initialized-cases (prints k st) = inr refl

pub differs : (a b : ℕ) → (a == b) ≡ false → a ≢ b
differs a b e same = ground (arith, e, same)

pub if_same : {A : Type 0} (b : Bool) (x : A) → (if b then x else x) ≡ x
if_same true x = refl
if_same false x = refl

-- A step of a thread while `main` prepares the search. `fires` is whether it signals.
pub record EarlyStep (term : List ℕ) (n all : ℕ) (s s' : Pool) : Type 0 where
  pub working : Working term n all s'
  pub nobody : total started n s'.locals ≡ 0
  pub unborn_kept : (k : ℕ) → AreUnborn k s → AreUnborn k s'
  pub same_born : total not_born n s'.locals ≡ total not_born n s.locals
  pub early_kept : total early n s.locals ≤ total early n s'.locals
  pub fires : Bool
  pub coming :
      total early n s'.locals ≡ 0
      → 1 ≤ total fresh n s.locals
      → (1 ≤ total fresh n s'.locals) ⊎ ((fires ≡ true) × (holds_initializer s.main ≡ false))
  pub all_there : fires ≡ true → total fresh n s'.locals ≡ 0
  pub main_now : s'.main ≡ (if fires then signal_initialized s.main else s.main)
