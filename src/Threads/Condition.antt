-- ===== src/Threads/Condition.antt =====
-- rec09-mutex/cond_var_ex1.c: a thread that waits for a counter, and threads that count and signal.
pub mod Parts
pub mod Invariant
pub mod Wakeups
use operating_systems_git.Prelude.{
  ℕ, zero, suc, ◌+◌, ◌%◌, ◌^◌, Bool, true, false, List, [], ◌∷◌, ◌==◌, ltb, if◌then◌else◌,
}
use operating_systems_git.Threads.Schedule.{World}
use operating_systems_git.Threads.Joining.{joined}

-- `NUM_THREADS`, `TCOUNT` and `COUNT_LIMIT`
abbrev pub num_threads : ℕ
num_threads = 3

abbrev pub t_count : ℕ
t_count = 10

abbrev pub count_limit : ℕ
count_limit = 12

-- `count`, an `int` kept modulo 2^32, whether `count_mutex` is held, and whether the one thread that
-- waits on `count_threshold_cv` is blocked there.
pub record Shared : Type 0 where
  pub count : ℕ
  pub held : Bool
  pub blocked : Bool

-- `inc_count` with `left` rounds of its loop to go: before its lock or its end, before `count++`,
-- with the value of `count` that it has read, before the test of `count`, and before its unlock.
pub data Inc : Type 0 where
  inc_lock counting checking inc_unlock : (left : ℕ) → Inc
  inc_loaded : (left value : ℕ) → Inc
  inc_finished : Inc

-- `watch_count` before its lock, or in `pthread_cond_wait` with the mutex still to take, at the test
-- of its loop, in the wait, before `count += 125`, with the value of `count` that it has read, and
-- before its unlock.
pub data Watch : Type 0 where
  watch_lock testing waiting adding watch_unlock watch_finished : Watch
  watch_loaded : (value : ℕ) → Watch

-- A thread of the program. `system` stands for the wake-ups without a signal that a wait may have.
pub data Local : Type 0 where
  increments : Inc → Local
  watches : Watch → Local
  system : Local

-- The next step of `inc_count`; a signal wakes the thread that is blocked, if there is one.
unfoldable pub inc_count : Shared → Inc → Shared × Inc
inc_count s (inc_lock zero) = (s, inc_finished)
inc_count s (inc_lock (suc left)) =
    if s.held then (s, inc_lock (suc left)) else (record s { held = true }, counting left)
inc_count s (counting left) = (s, inc_loaded left s.count)
inc_count s (inc_loaded left value) = (record s { count = (value + 1) % 2 ^ 32 }, checking left)
inc_count s (checking left) =
    if s.count == count_limit
    then (record s { blocked = false }, inc_unlock left)
    else (s, inc_unlock left)
inc_count s (inc_unlock left) = (record s { held = false }, inc_lock left)
inc_count s inc_finished = (s, inc_finished)

-- The next step of `watch_count`. The wait gives up the mutex and blocks in one step.
unfoldable pub watch_count : Shared → Watch → Shared × Watch
watch_count s watch_lock = if s.held then (s, watch_lock) else (record s { held = true }, testing)
watch_count s testing =
    if ltb s.count count_limit
    then (record s { held = false; blocked = true }, waiting)
    else (s, adding)
watch_count s waiting = if s.blocked then (s, waiting) else (s, watch_lock)
watch_count s adding = (s, watch_loaded s.count)
watch_count s (watch_loaded value) = (record s { count = (value + 125) % 2 ^ 32 }, watch_unlock)
watch_count s watch_unlock = (record s { held = false }, watch_finished)
watch_count s watch_finished = (s, watch_finished)

unfoldable pub step : Shared → Local → Shared × Local
step s (increments l) = let (t, next) = inc_count s l in (t, increments next)
step s (watches l) = let (t, next) = watch_count s l in (t, watches next)
step s system = (record s { blocked = false }, system)

-- The three threads that `main` creates, where each call of `pthread_create` succeeds, and `system`.
abbrev pub boot : World Shared Local
boot = record {
  mem = record { count = 0; held = false; blocked = false };
  locals = λ i.
      if i == 0
      then watches watch_lock
      else if i == num_threads
      then system
      else increments (inc_lock t_count);
}

abbrev pub is_finished : Local → Bool
is_finished (increments inc_finished) = true
is_finished (watches watch_finished) = true
is_finished _ = false

-- Whether `main` has joined its threads and printed that it is done.
unfoldable pub main : World Shared Local → Bool
main w = joined is_finished num_threads w.locals
