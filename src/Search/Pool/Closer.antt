-- ===== src/Search/Pool/Closer.antt =====
-- hw04/pfind.c: a step of a thread, or of `main`, changes nothing or brings the search closer to its end.
use operating_systems_git.Prelude.{
  ℕ, ◌<◌, ◌≡◌, ◌⊎◌, inl, inr, refl, ap, arith, Bool, true, false, Bool-cases, none, some, List,
  if◌then◌else◌,
}
use operating_systems_git.Threads.Sum.{total, le-total}
use operating_systems_git.Threads.Schedule.{if-elim}
use operating_systems_git.Search.Pool.{
  Local, unborn, starting, preparing, waiting_start, unstarted, fetching, scanning, handing,
  before_sleep, asleep, woken, finished, failed, crashed, Pool, holds_initializer, move,
}
use operating_systems_git.Search.Pool.Thread.{prepare, take_dir, sleep, thread_func}
use operating_systems_git.Search.Pool.Parts.{moving, stray}
use operating_systems_git.Search.Pool.Invariant.{Working}
use operating_systems_git.Search.Pool.Weight.{weight, Healthy}
use operating_systems_git.Search.Pool.Parts.{busy}
use operating_systems_git.Search.Pool.Better.{
  Better, scan_dir-Better, prepare-Better, sleep-Better, hand_to-Better, steps_on, unless_stuck,
  take_from-Better,
}

-- A thread that does not step has to wait.
abbrev pub HasToWait : Pool → Local → Type 0
HasToWait s l = (moving l ≡ 0) ⊎ (holds_initializer s.main ≡ true)

module _ (term : List ℕ) (memory : ℕ → Bool) (served : (i : ℕ) → memory i ≡ true) (n all : ℕ)
    (s : Pool) (h : Healthy n s)
    (phase : (Working term n all s) ⊎ ((s.done ≡ true) × (total busy n s.locals ≡ 0))) (i : ℕ)
    (lt : i < n) where
  wakes :
      (l l' : Local)
      → s.locals i ≡ l
      → weight finished < weight l
      → (s.done ≡ false → Better n s (move i l' s))
      → Better n s (if s.stuck then s else if s.done then move i finished s else move i l' s)
  wakes l l' e less goes =
      unless_stuck n s h i lt (if s.done then move i finished s else move i l' s) (
        if-elim (Better n s) s.done (move i finished s) (move i l' s)
          (λ b. steps_on n s h i lt l finished e (omega arith) less) goes)

  pub thread-Better :
      (l : Local)
      → s.locals i ≡ l
      → ((thread_func term memory n i l s ≡ s) × HasToWait s l)
        ⊎ Better n s (thread_func term memory n i l s)
  unfolding thread_func take_dir
  thread-Better starting e =
      rw (served i) (inr (steps_on n s h i lt starting preparing e (omega arith) (omega arith)))
  thread-Better preparing e = elim (Bool-cases (holds_initializer s.main)) [
    | inl b ↦ inl (ap (λ (c : Bool). if c then s else prepare n i s) b, inr b)
    | inr b ↦ inr (
        if-elim (Better n s) (holds_initializer s.main) s (prepare n i s) (λ c. cc)
          (λ c. prepare-Better n s h i lt e))
  ]
  thread-Better fetching e = inr (
      unless_stuck n s h i lt (take_dir i s)
        (take_from-Better n s h i lt fetching s.dir_q e refl refl))
  thread-Better (scanning d) e = inr (scan_dir-Better n s h i lt term d e)
  thread-Better (handing to opened rest) e = elim phase [
    | inl w ↦ inr (hand_to-Better n s h i lt term all to opened rest w e)
    | inr (over, idle) ↦ absurd (omega (arith, idle, le-total busy n i s.locals lt, ap busy e))
  ]
  thread-Better before_sleep e =
      inr (unless_stuck n s h i lt (sleep i s) (sleep-Better n s h i lt e))
  thread-Better (woken none) e = inr (
      wakes (woken none) crashed e (omega arith) (λ b. elim phase [
        | inl w ↦ absurd (omega (arith, w.directed, le-total stray n i s.locals lt, ap stray e))
        | inr (over, idle) ↦ cc
      ]))
  thread-Better (woken (some d)) e = inr (
      wakes (woken (some d)) (scanning d) e (omega arith)
        (λ b. steps_on n s h i lt (woken (some d)) (scanning d) e (omega arith) (omega arith)))
  thread-Better unborn e = inl (refl, inl refl)
  thread-Better waiting_start e = inl (refl, inl refl)
  thread-Better unstarted e = inl (refl, inl refl)
  thread-Better asleep e = inl (refl, inl refl)
  thread-Better finished e = inl (refl, inl refl)
  thread-Better failed e = inl (refl, inl refl)
  thread-Better crashed e = inl (refl, inl refl)
