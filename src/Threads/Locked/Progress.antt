-- ===== src/Threads/Locked/Progress.antt =====
-- rec09-mutex/mutex_ex2.c: no deadlock.
use operating_systems_git.Prelude.{
  ℕ, zero, suc, ◌+◌, ◌*◌, ◌^◌, ◌<◌, ◌≡◌, refl, ap, ◌∙◌, arith, Bool, true, List, [], ◌∷◌, ◌++◌, ◌-◌,
  ℕ_discrete, inl, inr, Bool-cases,
}
use operating_systems_git.Threads.Joining.{prints, finished-joined, all_launched}
use operating_systems_git.Threads.Schedule.{World, place, run, run-next, run-append}
use operating_systems_git.Threads.Sum.{total, total-update, positive-total, total-zero-part}
use operating_systems_git.Threads.Locked.{
  Shared, Local, before, locked, loaded, stored, finished, next_counter, boot, is_finished, main,
  holds,
}
use operating_systems_git.Threads.Locked.Invariant.{Inv, IsFresh, flag, keeps, run-Inv, main-prints}

-- The steps that a thread has yet to make.
abbrev weight : Local → ℕ
weight (before left) = 4 * left + 1
weight (locked left) = 4 * left
weight (loaded left value) = 4 * left - 1
weight (stored left) = 4 * left - 2
weight finished = 0

-- A thread that is not finished, and has the mutex if any thread has it, makes one of its steps.
progress :
    (m : Shared) (l : Local)
    → 0 < weight l
    → (m.held ≡ true → holds l ≡ 1)
    → IsFresh m l
    → weight (next_counter m l).1 < weight l
unfolding next_counter
progress m (before zero) pos own fresh = omega arith
progress m (before (suc left)) pos own fresh = elim (Bool-cases m.held) [
  | inl busy ↦ absurd (omega (arith, own busy))
  | inr free ↦ rw free (omega arith)
]
progress m (locked left) pos own fresh = omega (arith, fresh)
progress m (loaded left value) pos own fresh = omega (arith, fresh.0)
progress m (stored zero) pos own fresh = omega arith
progress m (stored (suc left)) pos own fresh = omega arith
progress m finished pos own fresh = absurd (omega arith)

record Next (n : ℕ) (w : World Shared Local) : Type 0 where
  thread : ℕ
  lt : thread < n
  less : weight (next_counter w.mem (w.locals thread)).1 < weight (w.locals thread)

holds-weight : (s : Shared) (l : Local) → 0 < holds l → IsFresh s l → (holds l ≡ 1) × (0 < weight l)
holds-weight s (before left) own f = absurd (omega arith)
holds-weight s (locked left) own f = (refl, omega (arith, f))
holds-weight s (loaded left value) own f = (refl, omega (arith, f.0))
holds-weight s (stored left) own f = (refl, omega (arith, f))
holds-weight s finished own f = absurd (omega arith)

-- While a thread is not finished, some thread can step.
some_can_step :
    (n all : ℕ) (w : World Shared Local) → Inv n all w → 0 < total weight n w.locals → Next n w
some_can_step n all w inv pos = elim (Bool-cases w.mem.held) [
  | inl busy ↦
      let (i, lt, own) = positive-total holds n w.locals (omega (arith, inv.owned, ap flag busy)) in
      let (one, some_step) = holds-weight w.mem (w.locals i) own (inv.fresh i lt) in
      record {
        thread = i;
        lt = lt;
        less = progress w.mem (w.locals i) some_step (λ _. one) (inv.fresh i lt);
      }
  | inr free ↦
      let (i, lt, some_step) = positive-total weight n w.locals pos in
      record {
        thread = i;
        lt = lt;
        less = progress w.mem (w.locals i) some_step (λ busy. cc) (inv.fresh i lt);
      }
]

finish :
    (fuel n all : ℕ) (small : all < 2 ^ 32) (w : World Shared Local)
    → Inv n all w
    → total weight n w.locals < fuel
    → (more : List ℕ) × (total weight n (run next_counter n w more).locals ≡ 0)
unfolding run
finish zero n all small w inv enough = absurd (omega arith)
finish (suc fuel) n all small w inv enough = elim (ℕ_discrete (total weight n w.locals) 0) [
  | yes done ↦ ([], done)
  | no left ↦
      let x = some_can_step n all w inv (omega (arith, left)) in
      let i = x.thread in
      let r = next_counter w.mem (w.locals i) in
      let kept = keeps n all small w.mem w.locals inv i x.lt (w.locals i) refl in
      let less = total-update weight n i w.locals r.1 x.lt in
      let (more, done) =
        finish fuel n all small (place w i r) kept (omega (arith, enough, less, x.less)) in
      (i ∷ more, ap (λ v. total weight n v.locals) (run-next next_counter n w i more x.lt) ∙ done)
]

weight-finished : (s : Shared) (l : Local) → weight l ≡ 0 → IsFresh s l → l ≡ finished
weight-finished s (before left) e f = absurd (omega (arith, e))
weight-finished s (locked left) e f = absurd (omega (arith, e, f))
weight-finished s (loaded left value) e f = absurd (omega (arith, e, f.0))
weight-finished s (stored left) e f = absurd (omega (arith, e, f))
weight-finished s finished e f = refl

-- There is no deadlock: where every thread is created, whatever steps were made, more of them bring
-- `main` to print the number of all rounds.
pub can_finish :
    (n rounds : ℕ) (created : ℕ → Bool) (order : List ℕ)
    → n * rounds < 2 ^ 32
    → ((i : ℕ) → created i ≡ true)
    → (more : List ℕ) × (main n created (run next_counter n (boot rounds) (order ++ more))
        ≡ prints (n * rounds))
unfolding main
can_finish n rounds created order small all =
    let w = run next_counter n (boot rounds) order in
    let (more, done) =
      finish (suc (total weight n w.locals)) n (n * rounds) small w (run-Inv n rounds order small)
        (omega arith) in
    let end = run next_counter n (boot rounds) (order ++ more) in
    let same : end ≡ run next_counter n w more =
      run-append next_counter n (boot rounds) order more in
    let inv = run-Inv n rounds (order ++ more) small in
    let none : total weight n end.locals ≡ 0 = ap (λ v. total weight n v.locals) same ∙ done in
    let ended = λ (i : ℕ) (lt : i < n).
      weight-finished end.mem (end.locals i) (total-zero-part weight n i end.locals none lt)
        (inv.fresh i lt) in
    let all_ended =
      finished-joined is_finished n end.locals (λ i lt. ap is_finished (ended i lt)) in
    let shown : main n created end ≡ prints end.mem.counter =
      rw (all_launched n created all, all_ended, main) refl in
    (
      more,
      shown ∙ ap prints (main-prints n rounds created (order ++ more) end.mem.counter small shown),
    )
