-- ===== src/Search/Pool/Ending.antt =====
-- hw04/pfind.c: a step of a thread, and of `main`, keeps what holds at each place of `main`.
use operating_systems_git.Search.Pool.Early.{EarlyStep, signal_initialized-cases}
use operating_systems_git.Prelude.{
  ◌⊎◌, ◌-◌, ◌≤◌, ℕ_discrete, ==_refl, ne→==, ℕ, ◌-◌, ◌<◌, ◌^◌, ◌≡◌, inl, inr, refl, sym, ◌∙◌, arith,
  none, some, Bool, false, true, List, if◌then◌else◌, ap, subst,
}
use operating_systems_git.Threads.Sum.{total, total-update, le-total, total_mono_two}
use operating_systems_git.Threads.Schedule.{if-elim}
use operating_systems_git.Search.Pool.{
  Local, unborn, starting, preparing, waiting_start, unstarted, fetching, scanning, handing,
  before_sleep, asleep, woken, finished, failed, crashed, Main, creating, locked, created,
  waiting_initialized, all_initialized, broadcasting, waiting_sleep, all_sleep, waking, joining,
  exits, faulted, prints, Pool, signal_initialized, holds_initializer, move,
}
use operating_systems_git.Search.Pool.Thread.{thread_func}
use operating_systems_git.Search.Pool.Program.{has_exited}
use operating_systems_git.Search.Pool.Parts.{fresh, early, started, busy, moving, sleeps, occurs}
use operating_systems_git.Search.Pool.Classes.{started-moving}
use operating_systems_git.Search.Pool.Invariant.{Working, IsPhase}
use operating_systems_git.Search.Pool.Waiting.{early_step, frozen}
use operating_systems_git.Search.Pool.Searching.{search-IsPhase}

-- What holds once `main` has set `done`, where the threads that sleep are among those of `rest`.
abbrev pub AllFound : (n all : ℕ) (rest : ℕ → ℕ) → Pool → Type 0
AllFound n all rest s =
    (s.done ≡ true)
    × (s.num_of_files_found ≡ all)
    × (total busy n s.locals ≡ 0)
    × ((t : ℕ) → t < n → sleeps (s.locals t) ≤ rest t)

module _ (term : List ℕ) (memory : ℕ → Bool) (n all : ℕ) (small : all < 2 ^ 32) where
  -- After the end of the search a thread wakes up and ends.
  ending :
      (rest : ℕ → ℕ) (s : Pool) (i : ℕ) (l : Local)
      → i < n
      → s.locals i ≡ l
      → AllFound n all rest s
      → let s' = thread_func term memory n i l s in AllFound n all rest s' × (s'.main ≡ s.main)
  unfolding thread_func
  ending rest s i asleep lt e a = (a, refl)
  ending rest s i unstarted lt e a = (a, refl)
  ending rest s i finished lt e a = (a, refl)
  ending rest s i (woken none) lt e (over, found, idle, asleep_rest) =
      if-elim (λ (x : Pool). AllFound n all rest x × (x.main ≡ s.main)) s.stuck s
        (if s.done then move i finished s else move i crashed s)
        (λ b. ((over, found, idle, asleep_rest), refl))
        (λ b.
          if-elim (λ (x : Pool). AllFound n all rest x × (x.main ≡ s.main)) s.done
            (move i finished s) (move i crashed s)
            (λ b2. (
              (
                over,
                found,
                omega (arith, idle, total-update busy n i s.locals finished lt, ap busy e),
                λ t less. elim (ℕ_discrete t i) [
                  | yes same ↦ rw (same, ==_refl i) (omega arith)
                  | no ne ↦ rw (ne→== t i ne) (asleep_rest t less)
                ],
              ),
              refl,
            ))
            (λ b2. cc))
  ending rest s i unborn lt e (over, found, idle, asleep_rest) =
      absurd (omega (arith, idle, le-total busy n i s.locals lt, ap busy e))
  ending rest s i starting lt e (over, found, idle, asleep_rest) =
      absurd (omega (arith, idle, le-total busy n i s.locals lt, ap busy e))
  ending rest s i preparing lt e (over, found, idle, asleep_rest) =
      absurd (omega (arith, idle, le-total busy n i s.locals lt, ap busy e))
  ending rest s i waiting_start lt e (over, found, idle, asleep_rest) =
      absurd (omega (arith, idle, le-total busy n i s.locals lt, ap busy e))
  ending rest s i fetching lt e (over, found, idle, asleep_rest) =
      absurd (omega (arith, idle, le-total busy n i s.locals lt, ap busy e))
  ending rest s i (scanning d) lt e (over, found, idle, asleep_rest) =
      absurd (omega (arith, idle, le-total busy n i s.locals lt, ap busy e))
  ending rest s i (handing to o r) lt e (over, found, idle, asleep_rest) =
      absurd (omega (arith, idle, le-total busy n i s.locals lt, ap busy e))
  ending rest s i before_sleep lt e (over, found, idle, asleep_rest) =
      absurd (omega (arith, idle, le-total busy n i s.locals lt, ap busy e))
  ending rest s i (woken (some d)) lt e (over, found, idle, asleep_rest) =
      absurd (omega (arith, idle, le-total busy n i s.locals lt, ap busy e))
  ending rest s i failed lt e (over, found, idle, asleep_rest) =
      absurd (omega (arith, idle, le-total busy n i s.locals lt, ap busy e))
  ending rest s i crashed lt e (over, found, idle, asleep_rest) =
      absurd (omega (arith, idle, le-total busy n i s.locals lt, ap busy e))

  early-IsPhase :
      (s : Pool) (m : Main) (s' : Pool) (step : EarlyStep term n all s s')
      → s.main ≡ m
      → ((step.fires ≡ false) ⊎ (signal_initialized m ≡ m) → IsPhase term n all s' m)
      → IsPhase term n all s' s'.main
  early-IsPhase s m s' step at p =
      let fired : step.fires ≡ true → IsPhase term n all s' (signal_initialized s.main) = λ b.
        elim (signal_initialized-cases m) [
          | inl e ↦
              subst (IsPhase term n all s') (sym (ap signal_initialized (at ∙ e)))
                (step.working, step.nobody, step.all_there b)
          | inr e ↦ subst (IsPhase term n all s') (sym (ap signal_initialized at ∙ e)) (p (inr e))
        ] in
      subst (IsPhase term n all s') (sym step.main_now) (
        if-elim (IsPhase term n all s') step.fires (signal_initialized s.main) s.main fired
          (λ b. subst (IsPhase term n all s') (sym at) (p (inl b))))

  -- While `main` is at `created`, no thread is counted.
  created_coming :
      (s s' : Pool) (step : EarlyStep term n all s s')
      → s.main ≡ created
      → (total early n s'.locals ≡ 0 → 1 ≤ total fresh n s.locals)
      → total early n s'.locals ≡ 0
      → 1 ≤ total fresh n s'.locals
  created_coming s s' step at more none_early = elim (step.coming none_early (more none_early)) [
    | inl left ↦ left
    | inr (b, free) ↦ let busy_there = ap holds_initializer at in cc
  ]

  waiting_coming :
      (s s' : Pool) (step : EarlyStep term n all s s')
      → (step.fires ≡ false) ⊎ (all_initialized ≡ waiting_initialized)
      → (total early n s'.locals ≡ 0 → 1 ≤ total fresh n s.locals)
      → total early n s'.locals ≡ 0
      → 1 ≤ total fresh n s'.locals
  waiting_coming s s' step why more none_early = elim (step.coming none_early (more none_early)) [
    | inl left ↦ left
    | inr (b, free) ↦ elim why [ inl quiet_now ↦ cc | inr same ↦ cc ]
  ]

  -- No thread can step before the broadcast, once all of them have come to their first wait.
  none_moves :
      (s : Pool)
      → total started n s.locals ≡ 0
      → total fresh n s.locals ≡ 0
      → total moving n s.locals ≡ 0
  none_moves s nobody past = omega (
    arith,
    nobody,
    past,
    total_mono_two moving (λ _. 0) started fresh (λ l. omega (arith, started-moving l)) n s.locals,
  )

  early_at :
      (s : Pool) (i : ℕ)
      → i < n
      → Working term n all s
      → total started n s.locals ≡ 0
      → EarlyStep term n all s (thread_func term memory n i (s.locals i) s)
  early_at s i lt w nobody = early_step term memory n all small s w nobody i lt (s.locals i) refl

  frozen_at :
      (s : Pool) (m : Main) (i : ℕ)
      → i < n
      → s.main ≡ m
      → total moving n s.locals ≡ 0
      → IsPhase term n all s m
      → let s' = thread_func term memory n i (s.locals i) s in IsPhase term n all s' s'.main
  frozen_at s m i lt at still_all p =
      frozen term memory n all small s i lt still_all (subst (IsPhase term n all s) (sym at) p)

  ended_at :
      (rest : ℕ → ℕ) (s : Pool) (m : Main) (i : ℕ)
      → i < n
      → s.main ≡ m
      → ((x : Pool) → AllFound n all rest x → IsPhase term n all x m)
      → AllFound n all rest s
      → let s' = thread_func term memory n i (s.locals i) s in IsPhase term n all s' s'.main
  ended_at rest s m i lt at phase a =
      let (a', same) = ending rest s i (s.locals i) lt refl a in
      let s' = thread_func term memory n i (s.locals i) s in
      subst (IsPhase term n all s') (sym (same ∙ at)) (phase s' a')

  -- A step of a thread, wherever `main` is.
  pub thread-IsPhase :
      (s : Pool) (m : Main) (i : ℕ)
      → i < n
      → s.main ≡ m
      → has_exited m ≡ false
      → IsPhase term n all s m
      → let s' = thread_func term memory n i (s.locals i) s in IsPhase term n all s' s'.main
  thread-IsPhase s (creating k) i lt at run_on (w, nobody, less, unborn_rest, count) =
      let step = early_at s i lt w nobody in
      early-IsPhase s (creating k) (thread_func term memory n i (s.locals i) s) step at (λ why. (
        step.working,
        step.nobody,
        less,
        step.unborn_kept k unborn_rest,
        omega (arith, count, step.same_born),
      ))
  thread-IsPhase s locked i lt at run_on (w, nobody, unborn_rest, count) =
      let step = early_at s i lt w nobody in
      early-IsPhase s locked (thread_func term memory n i (s.locals i) s) step at (λ why. (
        step.working,
        step.nobody,
        step.unborn_kept (n - 1) unborn_rest,
        omega (arith, count, step.same_born),
      ))
  thread-IsPhase s created i lt at run_on (w, nobody, count, more) =
      let s' = thread_func term memory n i (s.locals i) s in
      let step = early_at s i lt w nobody in
      early-IsPhase s created s' step at (λ why. (
        step.working,
        step.nobody,
        omega (arith, count, step.same_born),
        created_coming s s' step at (λ e. more (omega (arith, e, step.early_kept))),
      ))
  thread-IsPhase s waiting_initialized i lt at run_on (w, nobody, count, more) =
      let s' = thread_func term memory n i (s.locals i) s in
      let step = early_at s i lt w nobody in
      early-IsPhase s waiting_initialized s' step at (λ why. (
        step.working,
        step.nobody,
        omega (arith, count, step.same_born),
        waiting_coming s s' step why (λ e. more (omega (arith, e, step.early_kept))),
      ))
  thread-IsPhase s all_initialized i lt at run_on p =
      frozen_at s all_initialized i lt at (none_moves s p.1 p.2) p
  thread-IsPhase s broadcasting i lt at run_on p =
      frozen_at s broadcasting i lt at (none_moves s p.1 p.2) p
  thread-IsPhase s waiting_sleep i lt at run_on (w, past, act, queue_less, none_parked) =
      search-IsPhase term memory n all small s at w past act queue_less none_parked i lt
        (s.locals i) refl
  thread-IsPhase s all_sleep i lt at run_on p = frozen_at s all_sleep i lt at p.1 p
  thread-IsPhase s (waking ts) i lt at run_on p =
      ended_at (λ t. occurs t ts) s (waking ts) i lt at (λ x a. a) p
  thread-IsPhase s (joining k) i lt at run_on p =
      ended_at (λ t. 0) s (joining k) i lt at (λ x a. a) p
  thread-IsPhase s (exits status) i lt at run_on p = cc
  thread-IsPhase s faulted i lt at run_on p = cc
  thread-IsPhase s (prints found status) i lt at run_on p = cc
