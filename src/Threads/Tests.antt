-- ===== src/Threads/Tests.antt =====
-- The theorems at small programs and at orders of their steps.
use operating_systems_git.Prelude.{
  ℕ, zero, suc, false, ◌*◌, ◌≡◌, ◌≤◌, ◌<◌, refl, arith, Bool, true, List, [], ◌∷◌, ◌++◌, ◌↔◌,
}
use operating_systems_git.Threads.Schedule.{run}
use operating_systems_git.Threads.Joining.{prints}
use operating_systems_git.Threads.Locked as Locked
use operating_systems_git.Threads.Locked.Invariant.{mutual_exclusion, main-prints}
use operating_systems_git.Threads.Locked.Progress.{can_finish}
use operating_systems_git.Threads.Primes as Primes
use operating_systems_git.Threads.Primes.Test.{IsPrime, is_prime-IsPrime}
use operating_systems_git.Threads.Primes.Invariant.{
  count, expected, counter-bound, prints_each_once,
}
use operating_systems_git.Threads.Atomic as Atomic
use operating_systems_git.Threads.Atomic.Invariant.{main-results}
use operating_systems_git.Threads.Condition as Condition
use operating_systems_git.Threads.Condition.Wakeups.{no_lost_wakeup, main-count}

abbrev repeat : ℕ → List ℕ → List ℕ
repeat zero is = []
repeat (suc n) is = is ++ repeat n is

abbrev always : ℕ → Bool
always i = true

-- Two threads with one round each, in turn.
abbrev in_turn : List ℕ
in_turn = repeat 9 (0 ∷ 1 ∷ [])

mutual_exclusion_example : ◌≡◌ {A = ℕ} 0 0
unfolding run Locked.next_counter
mutual_exclusion_example =
    mutual_exclusion 2 1 (0 ∷ 1 ∷ 0 ∷ []) 0 0 (omega arith) (omega arith) (omega arith) refl refl

main-prints_example : 2 ≡ 2 * 1
unfolding run Locked.next_counter Locked.main
main-prints_example = main-prints 2 1 always in_turn 2 (omega arith) refl

can_finish_example :
    (more : List ℕ) × (Locked.main 2 always
        (run Locked.next_counter 2 (Locked.boot 1) ((0 ∷ 1 ∷ []) ++ more))
      ≡ prints (2 * 1))
can_finish_example = can_finish 2 1 always (0 ∷ 1 ∷ []) (omega arith) (λ i. refl)

is_prime-IsPrime_example : (Primes.is_prime 7 ≡ true) ↔ IsPrime 7
is_prime-IsPrime_example = is_prime-IsPrime 7 (omega arith)

counter-bound_example : (run (Primes.prime_print 6) 2 Primes.boot in_turn).mem.counter ≤ 8
counter-bound_example = counter-bound 2 6 in_turn (omega arith) (omega arith)

abbrev after_primes : Primes.Shared
after_primes = (run (Primes.prime_print 6) 2 Primes.boot in_turn).mem

prints_each_once_example : (6 ≤ 7) × ((v : ℕ) → count v after_primes.printed ≡ expected v 7)
unfolding run Primes.prime_print Primes.main Primes.is_prime Primes.no_divisor
prints_each_once_example =
    prints_each_once 2 6 always in_turn 7 (omega arith) (omega arith) (omega arith) refl

main-results_example :
    (2 ≡ 2 * 1)
    × ((i result : ℕ)
        → i < 2
        → (run Atomic.next_counter 2 (Atomic.boot 1) in_turn).locals i ≡ Atomic.finished result
        → (1 ≤ result) × (result ≤ 2))
unfolding run Atomic.next_counter Atomic.main
main-results_example = main-results 2 1 always in_turn 2 (omega arith) refl

-- The watcher waits, then the others count in turn and one of them signals.
abbrev watched : List ℕ
watched = 0 ∷ 0 ∷ repeat 110 (1 ∷ 2 ∷ []) ++ repeat 7 (0 ∷ [])

no_lost_wakeup_example :
    ((run Condition.step 4 Condition.boot watched).mem.blocked ≡ false)
    × (12 ≤ (run Condition.step 4 Condition.boot watched).mem.count)
unfolding run Condition.step Condition.inc_count Condition.watch_count
no_lost_wakeup_example = no_lost_wakeup watched refl refl

main-count_example : (run Condition.step 4 Condition.boot watched).mem.count ≡ 145
unfolding run Condition.step Condition.inc_count Condition.watch_count Condition.main
main-count_example = main-count watched refl
