-- ===== src/Search/Pool/Further.antt =====
-- hw04/pfind.c: where no call fails, a step of `main` that is not a wait brings the search closer to
-- its end.
use operating_systems_git.Search.Pool.Weight.{faults-ended}
use operating_systems_git.Search.Pool.Signals.{not_less}
use operating_systems_git.Prelude.{
  ℕ, ◌+◌, ◌≤◌, ◌<◌, ◌≡◌, ◌⊎◌, inl, inr, refl, sym, ◌∙◌, ap, arith, Bool, true, false, Bool-cases,
  List, [], ◌∷◌, ◌==◌, if◌then◌else◌, update,
}
use operating_systems_git.Threads.Sum.{total-update}
use operating_systems_git.Threads.Schedule.{if-elim}
use operating_systems_git.Search.Pool.{Local, unborn, starting, Main, Pool}
use operating_systems_git.Search.Pool.Invariant.{Working}
use operating_systems_git.Search.Pool.Weight.{faults, weight, main_weight, gives_up, Healthy}
use operating_systems_git.Prelude.{◌-◌, subst, ltb, ltb→lt, ne→==}
use operating_systems_git.Threads.Sum.{
  total_mono_two, total-zero, total_map_le, total-le, total_beyond,
}
use operating_systems_git.Search.Pool.{
  creating, locked, created, waiting_initialized, all_initialized, broadcasting, waiting_sleep,
  all_sleep, waking, joining, exits, faulted, prints,
}
use operating_systems_git.Search.Pool.Program.{
  start_work, wake_up, create_thread, join_thread, has_ended, main_step,
}
use operating_systems_git.Search.Pool.Parts.{early, late, sleeps}
use operating_systems_git.Search.Pool.Invariant.{IsPhase}
use operating_systems_git.Search.Pool.Better.{Better, better}
use operating_systems_git.Search.Pool.Lighter.{
  weight-start_work, faults-start_work, weight-wake_up, faults-wake_up, sleeps_le, conflict,
}

module _ (term : List ℕ) (can_create : ℕ → Bool) (served : (i : ℕ) → can_create i ≡ true)
    (can_join : ℕ → Bool) (joins : (i : ℕ) → can_join i ≡ true) (n all : ℕ) (s : Pool)
    (h : Healthy n s) where
  -- The places where `main` waits for a thread.
  abbrev pub Waits : Main → Type 0
  Waits waiting_initialized = Unit
  Waits waiting_sleep = Unit
  Waits (joining i) = (i < n) × (has_ended (s.locals i) ≡ false)
  Waits (prints k st) = Unit
  Waits _ = ⊥

  next_main :
      (m m' : Main)
      → s.main ≡ m
      → main_weight n m' < main_weight n m
      → gives_up m' ≡ false
      → Better n s (record s { main = m' })
  next_main m m' at less going = record {
    healthy = record { faultless = h.faultless; open_queues = h.open_queues; going = going };
    less = omega (arith, less, ap (main_weight n) at);
  }

  creates :
      (i : ℕ) (m m' : Main)
      → i < n
      → s.locals i ≡ unborn
      → s.main ≡ m
      → main_weight n m' ≤ main_weight n m
      → gives_up m' ≡ false
      → Better n s (create_thread can_create i m' s)
  unfolding create_thread
  creates i m m' lt e at less going = rw (served i) (
      better n s h i lt unborn starting
        (record s { locals = update s.locals i starting; main = m' }) e refl (omega arith)
        h.open_queues (omega (arith, less, ap (main_weight n) at), going ∙ sym h.going)
        (omega arith))

  not_all_failed : Working term n all s → 1 ≤ n → (s.threads_failed == n) ≡ false
  not_all_failed w pos = ne→== s.threads_failed n (
      omega (
        arith,
        pos,
        w.failures,
        h.faultless,
        total_mono_two early late faults (λ _. 0) (λ l. omega (arith, faults-ended l)) n s.locals,
        total-zero (λ (l : Local). 0) n s.locals (λ i lt. refl),
      ))

  broadcasts :
      s.main ≡ broadcasting
      → Better n s (record s { locals = λ i. start_work (s.locals i); main = waiting_sleep })
  broadcasts at = record {
    healthy = record {
      faultless =
          omega (arith, h.faultless, total_map_le faults start_work faults-start_work n s.locals);
      open_queues = h.open_queues;
      going = refl;
    };
    less =
        omega (
          arith,
          total_map_le weight start_work weight-start_work n s.locals,
          ap (main_weight n) at,
        );
  }

  wakes_next :
      (t : ℕ) (ts : List ℕ)
      → s.main ≡ waking (t ∷ ts)
      → Better n s
          (record s { locals = update s.locals t (wake_up (s.locals t)); main = waking ts })
  wakes_next t ts at = elim (Bool-cases (ltb t n)) [
    | inl less ↦
        let lt = ltb→lt t n less in
        record {
          healthy = record {
            faultless = omega (
              arith,
              h.faultless,
              faults-wake_up (s.locals t),
              total-update faults n t s.locals (wake_up (s.locals t)) lt,
            );
            open_queues = h.open_queues;
            going = refl;
          };
          less = omega (
            arith,
            weight-wake_up (s.locals t),
            ap (main_weight n) at,
            total-update weight n t s.locals (wake_up (s.locals t)) lt,
          );
        }
    | inr over ↦
        let le = not_less t n over in
        record {
          healthy = record {
            faultless =
                omega
                  (arith, h.faultless, total_beyond faults n t s.locals (wake_up (s.locals t)) le);
            open_queues = h.open_queues;
            going = refl;
          };
          less = omega (
            arith,
            ap (main_weight n) at,
            total_beyond weight n t s.locals (wake_up (s.locals t)) le,
          );
        }
  ]

  join-Better :
      (i : ℕ)
      → i < n
      → s.main ≡ joining i
      → ((join_thread can_join i s ≡ s) × Waits (joining i)) ⊎ Better n s (join_thread can_join i s)
  unfolding join_thread
  join-Better i lt at = elim (Bool-cases (has_ended (s.locals i))) [
    | inl b ↦
        rw (joins i, b) (inr (next_main (joining i) (joining (i + 1)) at (omega (arith, lt)) refl))
    | inr b ↦ rw (joins i, b) (inl (refl, (lt, refl)))
  ]

  pub main-Better :
      (m : Main)
      → s.main ≡ m
      → 1 ≤ n
      → IsPhase term n all s m
      → ((main_step can_create can_join n m s ≡ s) × Waits m)
        ⊎ Better n s (main_step can_create can_join n m s)
  unfolding main_step
  main-Better (creating i) at pos (w, nobody, lt, unborn_rest, count) = inr (
      if-elim (Better n s) (ltb (i + 1) n) (create_thread can_create i (creating (i + 1)) s)
        (record s { main = locked })
        (λ b.
          creates i (creating i) (creating (i + 1)) lt (unborn_rest i (omega arith)) at
            (omega arith) refl)
        (λ b. next_main (creating i) locked at (omega arith) refl))
  main-Better locked at pos (w, nobody, unborn_rest, count) = inr (
      creates (n - 1) locked created (omega (arith, pos)) (unborn_rest (n - 1) (omega arith)) at
        (omega arith) refl)
  main-Better created at pos p = inr (next_main created waiting_initialized at (omega arith) refl)
  main-Better waiting_initialized at pos p = inl (refl, tt)
  main-Better all_initialized at pos (w, nobody, past) = inr (
      subst
        (λ (b : Bool). Better n s (record s { main = if b then exits s.status else broadcasting }))
        (sym (not_all_failed w pos)) (next_main all_initialized broadcasting at (omega arith) refl))
  main-Better broadcasting at pos p = inr (
      if-elim (Better n s) s.stuck s
        (record s { locals = λ i. start_work (s.locals i); main = waiting_sleep })
        (λ c. let free = h.open_queues.0 in cc) (λ c. broadcasts at))
  main-Better waiting_sleep at pos p = inl (refl, tt)
  main-Better all_sleep at pos (w, still_all, ended_how) = inr (
      if-elim (Better n s) s.stuck s
        (if s.threads_failed == n
          then record s { main = exits s.status }
          else record s { done = true; main = waking s.thread_q })
        (λ c. let free = h.open_queues.0 in cc)
        (λ c.
          if-elim (Better n s) (s.threads_failed == n) (record s { main = exits s.status })
            (record s { done = true; main = waking s.thread_q })
            (λ b. let some_left = not_all_failed w pos in cc)
            (λ b. record {
              healthy = record {
                faultless = h.faultless;
                open_queues = h.open_queues;
                going = refl;
              };
              less =
                  omega
                    (arith, ap (main_weight n) at, w.queue, total-le sleeps sleeps_le n s.locals);
            })))
  main-Better (waking (t ∷ ts)) at pos p = inr (wakes_next t ts at)
  main-Better (waking []) at pos p = inr (next_main (waking []) (joining 0) at (omega arith) refl)
  main-Better (joining i) at pos p = elim (Bool-cases (ltb i n)) [
    | inl b ↦ rw b (join-Better i (ltb→lt i n b) at)
    | inr b ↦
        rw b
          (inr (next_main (joining i) (prints s.num_of_files_found s.status) at (omega arith) refl))
  ]
  main-Better (exits status) at pos p = absurd (omega (arith, conflict s.main status at h.going))
  main-Better faulted at pos p = absurd p
  main-Better (prints found status) at pos p = inl (refl, tt)
