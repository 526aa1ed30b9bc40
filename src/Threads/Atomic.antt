-- ===== src/Threads/Atomic.antt =====
-- rec09-mutex/mutex_ex1.c: threads that add to an atomic counter.
pub mod Invariant
use operating_systems_git.Prelude.{ℕ, zero, suc, ◌+◌, ◌%◌, ◌^◌, Bool, true, false, if◌then◌else◌}
use operating_systems_git.Threads.Schedule.{World}
use operating_systems_git.Threads.Joining.{Outcome, waits, exits_early, prints, joined, launched}

-- A thread of `next_counter` with `left` rounds of its loop to go, and one that has printed `Result`.
pub data Local : Type 0 where
  looping : (left : ℕ) → Local
  finished : (result : ℕ) → Local

-- The next step of `next_counter` on `counter`, an atomic `int` kept modulo 2^32.
unfoldable pub next_counter : ℕ → Local → ℕ × Local
next_counter counter (looping zero) = (counter, finished counter)
next_counter counter (looping (suc left)) = ((counter + 1) % 2 ^ 32, looping left)
next_counter counter (finished result) = (counter, finished result)

abbrev pub boot : (rounds : ℕ) → World ℕ Local
boot rounds = record { mem = 0; locals = λ _. looping rounds }

abbrev pub is_finished : Local → Bool
is_finished (finished result) = true
is_finished _ = false

-- What `main` has come to in this world.
unfoldable pub main : ℕ → (created : ℕ → Bool) → World ℕ Local → Outcome
main n created w =
    if launched n created
    then if joined is_finished n w.locals then prints w.mem else waits
    else exits_early
