-- ===== src/Search/Pool/Parts.antt =====
-- hw04/pfind.c: what each thread of the search has in a state of the program.
use operating_systems_git.Prelude.{
  ℕ, ◌+◌, ◌≡◌, refl, none, some, List, [], ◌∷◌, ◌==◌, ltb, if◌then◌else◌,
}
use operating_systems_git.Search.Scan.{strstr}
use operating_systems_git.Search.Pool.{
  Dir, ended, hidden, unknown, closed, folder, plain, Local, unborn, starting, preparing,
  waiting_start, unstarted, fetching, scanning, handing, before_sleep, asleep, woken, finished,
  failed, crashed, set_errno,
}

-- The files in a directory, and in the directories below it, whose name has the search term.
abbrev pub matching : (term : List ℕ) → Dir → ℕ
matching term (ended e) = 0
matching term (hidden rest) = matching term rest
matching term (unknown rest) = matching term rest
matching term (closed rest) = matching term rest
matching term (folder memory opened rest) = matching term opened + matching term rest
matching term (plain name rest) = (if strstr name term then 1 else 0) + matching term rest

-- `errno` has no part in what is found.
pub matching-set_errno : (term : List ℕ) (d : Dir) → matching term (set_errno d) ≡ matching term d
matching-set_errno term (ended e) = refl
matching-set_errno term (hidden rest) = matching-set_errno term rest
matching-set_errno term (unknown rest) = matching-set_errno term rest
matching-set_errno term (closed rest) = matching-set_errno term rest
matching-set_errno term (folder memory opened rest) = rw (matching-set_errno term rest) refl
matching-set_errno term (plain name rest) = rw (matching-set_errno term rest) refl

abbrev pub queued : (term : List ℕ) → List Dir → ℕ
queued term [] = 0
queued term (d ∷ ds) = matching term d + queued term ds

-- The files that a thread has yet to find.
abbrev pub work : (term : List ℕ) → Local → ℕ
work term (scanning d) = matching term d
work term (handing to o r) = matching term o + matching term r
work term (woken (some d)) = matching term d
work _ _ = 0

-- A thread in the wait on its own condition variable.
abbrev pub sleeps : Local → ℕ
sleeps asleep = 1
sleeps _ = 0

-- A thread that has a directory for another one.
abbrev pub hands : Local → ℕ
hands (handing to o r) = 1
hands _ = 0

-- A thread that has a directory for thread `t`.
abbrev pub aims : (t : ℕ) → Local → ℕ
aims t (handing to o r) = if to == t then 1 else 0
aims _ _ = 0

-- A thread that has not come to its first wait.
abbrev pub fresh : Local → ℕ
fresh unborn = 1
fresh starting = 1
fresh preparing = 1
fresh _ = 0

-- A thread that has not been created, and one in the wait for `start_work`.
abbrev pub not_born : Local → ℕ
not_born unborn = 1
not_born _ = 0

abbrev pub parked : Local → ℕ
parked waiting_start = 1
parked _ = 0

-- A thread that ended before its first wait.
abbrev pub early : Local → ℕ
early unstarted = 1
early _ = 0

-- A thread that `threads_initialized` counts.
abbrev pub inited : Local → ℕ
inited waiting_start = 1
inited fetching = 1
inited (scanning d) = 1
inited (handing to o r) = 1
inited before_sleep = 1
inited asleep = 1
inited (woken none) = 1
inited (woken (some d)) = 1
inited finished = 1
inited failed = 1
inited crashed = 1
inited _ = 0

-- A thread that ended in `scan_dir`, or by a fault.
abbrev pub late : Local → ℕ
late failed = 1
late crashed = 1
late _ = 0

-- A thread past its first wait.
abbrev pub started : Local → ℕ
started fetching = 1
started (scanning d) = 1
started (handing to o r) = 1
started before_sleep = 1
started asleep = 1
started (woken none) = 1
started (woken (some d)) = 1
started finished = 1
started failed = 1
started crashed = 1
started _ = 0

-- A thread woken without a directory, or after it.
abbrev pub stray : Local → ℕ
stray (woken none) = 1
stray finished = 1
stray crashed = 1
stray _ = 0

-- A thread that comes to `dequeue_dir` again.
abbrev pub active : Local → ℕ
active unborn = 1
active starting = 1
active preparing = 1
active waiting_start = 1
active fetching = 1
active (scanning d) = 1
active (handing to o r) = 1
active (woken (some d)) = 1
active _ = 0

-- A thread that is neither asleep nor at its end.
abbrev pub busy : Local → ℕ
busy unborn = 1
busy starting = 1
busy preparing = 1
busy waiting_start = 1
busy fetching = 1
busy (scanning d) = 1
busy (handing to o r) = 1
busy before_sleep = 1
busy (woken (some d)) = 1
busy failed = 1
busy crashed = 1
busy _ = 0

-- A thread that can step by itself.
abbrev pub moving : Local → ℕ
moving starting = 1
moving preparing = 1
moving fetching = 1
moving (scanning d) = 1
moving (handing to o r) = 1
moving before_sleep = 1
moving (woken none) = 1
moving (woken (some d)) = 1
moving _ = 0

-- How often a thread stands in a queue.
abbrev pub occurs : (t : ℕ) → List ℕ → ℕ
occurs t [] = 0
occurs t (u ∷ q) = (if u == t then 1 else 0) + occurs t q

-- Whether `t` is a thread that sleeps.
abbrev pub room : (n t : ℕ) → (ℕ → Local) → ℕ
room n t locals = if ltb t n then sleeps (locals t) else 0
