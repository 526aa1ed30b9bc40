-- ===== src/Threads/Condition/Wakeups.antt =====
-- rec09-mutex/cond_var_ex1.c: no wake-up and no addition is lost.
use operating_systems_git.Prelude.{
  ℕ, ◌+◌, ◌≤◌, ◌<◌, ◌≡◌, ◌∙◌, inl, inr, refl, arith, true, false, List, Bool-cases, ℕ_discrete,
  ==_refl, ne→==,
}
use operating_systems_git.Threads.Joining.{joined-finished}
use operating_systems_git.Threads.Schedule.{run, run-keeps}
use operating_systems_git.Threads.Condition.{
  num_threads, t_count, count_limit, Shared, Local, increments, watches, system, watch_lock,
  testing, waiting, adding, watch_loaded, watch_unlock, watch_finished, step, boot, is_finished,
  main,
}
use operating_systems_git.Threads.Condition.Parts.{pending, tests, finished-parts}
use operating_systems_git.Threads.Condition.Invariant.{run-Inv}

-- What kind of thread this is; it never changes.
abbrev kind : Local → ℕ
kind (watches l) = 0
kind (increments l) = 1
kind system = 2

kind-step : (s : Shared) (l : Local) → kind (step s l).1 ≡ kind l
unfolding step
kind-step s (increments l) = refl
kind-step s (watches l) = refl
kind-step s system = refl

kind-run : (order : List ℕ) (i : ℕ) → kind ((run step 4 boot order).locals i) ≡ kind (boot.locals i)
kind-run order =
    run-keeps step 4 (λ w. (i : ℕ) → kind (w.locals i) ≡ kind (boot.locals i))
      (λ w j lt same i. elim (ℕ_discrete i j) [
        | yes e ↦ rw (e, ==_refl j) (kind-step w.mem (w.locals j) ∙ same j)
        | no ne ↦ rw (ne→== i j ne) (same i)
      ])
      boot order (λ i. refl)

kind_of_system : (l : Local) → kind l ≡ 2 → (pending l ≡ 0) × (tests l ≡ 0)
kind_of_system system e = (refl, refl)
kind_of_system (increments l) e = absurd (omega (arith, e))
kind_of_system (watches l) e = absurd (omega (arith, e))

kind_of_watch : (l : Local) → kind l ≡ 0 → (pending l ≤ 125) × (tests l ≡ 0)
kind_of_watch (watches watch_lock) e = (omega arith, refl)
kind_of_watch (watches testing) e = (omega arith, refl)
kind_of_watch (watches waiting) e = (omega arith, refl)
kind_of_watch (watches adding) e = (omega arith, refl)
kind_of_watch (watches (watch_loaded value)) e = (omega arith, refl)
kind_of_watch (watches watch_unlock) e = (omega arith, refl)
kind_of_watch (watches watch_finished) e = (omega arith, refl)
kind_of_watch (increments l) e = absurd (omega (arith, e))
kind_of_watch system e = absurd (omega (arith, e))

-- No wake-up is lost: in every order of steps, once both counting threads have finished, the watcher
-- is not blocked in its wait, and the counter is past the limit.
pub no_lost_wakeup :
    (order : List ℕ)
    → let w = run step 4 boot order in
      is_finished (w.locals 1) ≡ true
      → is_finished (w.locals 2) ≡ true
      → (w.mem.blocked ≡ false) × (count_limit ≤ w.mem.count)
no_lost_wakeup order one two =
    let w = run step 4 boot order in
    let inv = run-Inv order in
    let first = kind_of_watch (w.locals 0) (kind-run order 0) in
    let second = finished-parts (w.locals 1) one in
    let third = finished-parts (w.locals 2) two in
    let last = kind_of_system (w.locals 3) (kind-run order 3) in
    let past : count_limit ≤ w.mem.count =
      omega (arith, inv.added, first.0, second.0, third.0, last.0) in
    (
      elim (Bool-cases w.mem.blocked) [
        | inl b ↦ absurd (omega (arith, inv.to_wake b, past, first.1, second.1, third.1, last.1))
        | inr b ↦ b
      ],
      past,
    )

-- In every order of steps, wake-ups without a signal included, when `main` has joined its threads the
-- counter is the sum of all that the threads add: 10 of each counting thread and 125 of the watcher.
pub main-count :
    (order : List ℕ)
    → let w = run step 4 boot order in main w ≡ true → w.mem.count ≡ t_count + t_count + 125
unfolding main
main-count order done =
    let w = run step 4 boot order in
    let ended = λ (i : ℕ) (lt : i < 3).
      finished-parts (w.locals i) (joined-finished is_finished num_threads w.locals done i lt) in
    let last = kind_of_system (w.locals 3) (kind-run order 3) in
    omega (
      arith,
      (run-Inv order).added,
      (ended 0 (omega arith)).0,
      (ended 1 (omega arith)).0,
      (ended 2 (omega arith)).0,
      last.0,
    )
