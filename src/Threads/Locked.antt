-- ===== src/Threads/Locked.antt =====
-- rec09-mutex/mutex_ex2.c: threads that add to a counter under a mutex.
pub mod Invariant
pub mod Progress
use operating_systems_git.Prelude.{
  ℕ, zero, suc, ◌+◌, ◌*◌, ◌%◌, ◌^◌, ◌≤◌, ◌<◌, ◌≡◌, ◌≢◌, ◌⊎◌, refl, sym, ap, ◌∙◌, arith, Bool, true,
  false, ◌&&◌, List, [], ◌∷◌, ◌++◌, ◌-◌, ◌==◌, if◌then◌else◌, update, ==_refl, ne→==, ℕ_discrete,
  ltb, inl, inr, Bool-cases, subst,
}
use operating_systems_git.Threads.Joining.{Outcome, waits, exits_early, prints, joined, launched}
use operating_systems_git.Threads.Schedule.{World, place, run, run-keeps, run-next, run-append}
use operating_systems_git.Threads.Sum.{
  total, total-update, total-const, le-total, two-le-total, total-zero, positive-total,
  total-zero-part,
}

-- `NUM_THREADS`
abbrev pub num_threads : ℕ
num_threads = 15

-- `counter`, an `int` kept modulo 2^32, and whether `lock` is held.
pub record Shared : Type 0 where
  pub counter : ℕ
  pub held : Bool

-- A thread of `next_counter` with `left` rounds of its loop to go, the one it is in included: before
-- the loop's test, with the mutex, with the value of `counter` that `++counter` has read, and with
-- that value written back.
pub data Local : Type 0 where
  before locked stored : (left : ℕ) → Local
  loaded : (left value : ℕ) → Local
  finished : Local

-- The next step of `next_counter`; the calls of the mutex succeed.
unfoldable pub next_counter : Shared → Local → Shared × Local
next_counter s (before zero) = (s, finished)
next_counter s (before (suc left)) =
    if s.held then (s, before (suc left)) else (record s { held = true }, locked (suc left))
next_counter s (locked left) = (s, loaded left s.counter)
next_counter s (loaded left value) = (record s { counter = (value + 1) % 2 ^ 32 }, stored left)
next_counter s (stored zero) = (record s { held = false }, finished)
next_counter s (stored (suc left)) = (record s { held = false }, before left)
next_counter s finished = (s, finished)

abbrev pub boot : ℕ → World Shared Local
boot rounds = record { mem = record { counter = 0; held = false }; locals = λ _. before rounds }

abbrev pub is_finished : Local → Bool
is_finished finished = true
is_finished _ = false

-- What `main` has come to in this world.
unfoldable pub main : ℕ → (created : ℕ → Bool) → World Shared Local → Outcome
main n created w =
    if launched n created
    then if joined is_finished n w.locals then prints w.mem.counter else waits
    else exits_early

-- The critical section.
abbrev pub holds : Local → ℕ
holds (locked left) = 1
holds (loaded left value) = 1
holds (stored left) = 1
holds _ = 0
