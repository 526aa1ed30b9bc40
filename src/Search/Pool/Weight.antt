-- ===== src/Search/Pool/Weight.antt =====
-- hw04/pfind.c: the steps that the search has yet to make, where no call fails.
use operating_systems_git.Prelude.{
  ℕ, ◌+◌, ◌-◌, ◌*◌, ◌≤◌, ◌≡◌, refl, arith, Bool, true, false, none, some, List, [], ◌∷◌, ◌++◌,
  length,
}
use operating_systems_git.Threads.Sum.{total}
use operating_systems_git.Search.Pool.{
  Dir, ended, hidden, unknown, closed, folder, plain, Local, unborn, starting, preparing,
  waiting_start, unstarted, fetching, scanning, handing, before_sleep, asleep, woken, finished,
  failed, crashed, Main, creating, locked, created, waiting_initialized, all_initialized,
  broadcasting, waiting_sleep, all_sleep, waking, joining, exits, faulted, prints, Pool,
  signal_initialized, signal_sleep,
}
use operating_systems_git.Search.Pool.Parts.{early, late}

-- The entries of a directory that end a thread.
abbrev pub faulty : Dir → ℕ
faulty (ended true) = 1
faulty (ended false) = 0
faulty (hidden rest) = faulty rest
faulty (unknown rest) = faulty rest + 1
faulty (closed rest) = faulty rest + 1
faulty (folder true opened rest) = faulty opened + faulty rest
faulty (folder false opened rest) = faulty opened + faulty rest + 1
faulty (plain name rest) = faulty rest

abbrev pub queue_faulty : List Dir → ℕ
queue_faulty [] = 0
queue_faulty (d ∷ ds) = faulty d + queue_faulty ds

abbrev pub size : Dir → ℕ
size (ended e) = 0
size (hidden rest) = size rest + 1
size (unknown rest) = size rest + 1
size (closed rest) = size rest + 1
size (folder memory opened rest) = size opened + size rest + 5
size (plain name rest) = size rest + 1

abbrev pub queue_size : List Dir → ℕ
queue_size [] = 0
queue_size (d ∷ ds) = size d + 1 + queue_size ds

-- The threads that have failed, and those that are about to.
abbrev pub faults : Local → ℕ
faults unstarted = 1
faults (scanning d) = faulty d
faults (handing to o r) = faulty o + faulty r
faults (woken (some d)) = faulty d
faults failed = 1
faults crashed = 1
faults _ = 0

abbrev pub weight : Local → ℕ
weight unborn = 6
weight starting = 5
weight preparing = 4
weight waiting_start = 3
weight fetching = 2
weight (scanning d) = size d + 2
weight (handing to o r) = size o + size r + 6
weight before_sleep = 1
weight (woken none) = 1
weight (woken (some d)) = size d + 3
weight _ = 0

abbrev pub main_weight : (n : ℕ) → Main → ℕ
main_weight n (creating i) = 3 * n + 11
main_weight n locked = 3 * n + 10
main_weight n created = 3 * n + 9
main_weight n waiting_initialized = 3 * n + 8
main_weight n all_initialized = 3 * n + 7
main_weight n broadcasting = 3 * n + 6
main_weight n waiting_sleep = 3 * n + 5
main_weight n all_sleep = 3 * n + 4
main_weight n (waking ts) = 2 * length ts + n + 2
main_weight n (joining i) = n - i + 1
main_weight n _ = 0

abbrev pub gives_up : Main → Bool
gives_up (exits status) = true
gives_up faulted = true
gives_up _ = false

pub record Healthy (n : ℕ) (s : Pool) : Type 0 where
  pub faultless : total faults n s.locals + queue_faulty s.dir_q ≡ 0
  pub open_queues : (s.stuck ≡ false) × (s.no_dir ≡ 0) × (s.no_thread ≡ 0)
  pub going : gives_up s.main ≡ false

abbrev pub measure : (n : ℕ) → Pool → ℕ
measure n s = total weight n s.locals + queue_size s.dir_q + main_weight n s.main

pub signal_initialized-less :
    (n : ℕ) (m : Main)
    → (main_weight n (signal_initialized m) ≤ main_weight n m)
      × (gives_up (signal_initialized m) ≡ gives_up m)
signal_initialized-less n (creating i) = (omega arith, refl)
signal_initialized-less n locked = (omega arith, refl)
signal_initialized-less n created = (omega arith, refl)
signal_initialized-less n waiting_initialized = (omega arith, refl)
signal_initialized-less n all_initialized = (omega arith, refl)
signal_initialized-less n broadcasting = (omega arith, refl)
signal_initialized-less n waiting_sleep = (omega arith, refl)
signal_initialized-less n all_sleep = (omega arith, refl)
signal_initialized-less n (waking th) = (omega arith, refl)
signal_initialized-less n (joining k) = (omega arith, refl)
signal_initialized-less n (exits st) = (omega arith, refl)
signal_initialized-less n faulted = (omega arith, refl)
signal_initialized-less n (prints k st) = (omega arith, refl)

pub signal_sleep-less :
    (n : ℕ) (m : Main)
    → (main_weight n (signal_sleep m) ≤ main_weight n m) × (gives_up (signal_sleep m) ≡ gives_up m)
signal_sleep-less n (creating i) = (omega arith, refl)
signal_sleep-less n locked = (omega arith, refl)
signal_sleep-less n created = (omega arith, refl)
signal_sleep-less n waiting_initialized = (omega arith, refl)
signal_sleep-less n all_initialized = (omega arith, refl)
signal_sleep-less n broadcasting = (omega arith, refl)
signal_sleep-less n waiting_sleep = (omega arith, refl)
signal_sleep-less n all_sleep = (omega arith, refl)
signal_sleep-less n (waking th) = (omega arith, refl)
signal_sleep-less n (joining k) = (omega arith, refl)
signal_sleep-less n (exits st) = (omega arith, refl)
signal_sleep-less n faulted = (omega arith, refl)
signal_sleep-less n (prints k st) = (omega arith, refl)

pub queue_faulty-append :
    (ds : List Dir) (d : Dir) → queue_faulty (ds ++ (d ∷ [])) ≡ queue_faulty ds + faulty d
queue_faulty-append [] d = omega arith
queue_faulty-append (e ∷ ds) d = omega (arith, queue_faulty-append ds d)

pub queue_size-append :
    (ds : List Dir) (d : Dir) → queue_size (ds ++ (d ∷ [])) ≡ queue_size ds + (size d + 1)
queue_size-append [] d = omega arith
queue_size-append (e ∷ ds) d = omega (arith, queue_size-append ds d)

pub faults-ended : (l : Local) → early l + late l ≤ faults l
faults-ended unborn = omega arith
faults-ended starting = omega arith
faults-ended preparing = omega arith
faults-ended waiting_start = omega arith
faults-ended unstarted = omega arith
faults-ended fetching = omega arith
faults-ended (scanning d) = omega arith
faults-ended (handing to o r) = omega arith
faults-ended before_sleep = omega arith
faults-ended asleep = omega arith
faults-ended (woken none) = omega arith
faults-ended (woken (some d)) = omega arith
faults-ended finished = omega arith
faults-ended failed = omega arith
faults-ended crashed = omega arith
