-- ===== src/Search/Pool/Steps.antt =====
-- hw04/pfind.c: a step of `main` keeps what holds where it is.
use operating_systems_git.Search.Pool.Early.{differs}
use operating_systems_git.Threads.Sum.{le-total, total-zero}
use operating_systems_git.Prelude.{ℕ_discrete, ==_refl}
use operating_systems_git.Search.Pool.Parts.{parked, not_born, occurs, hands, moving}
use operating_systems_git.Search.Pool.Classes.{started-sleeps, moving-hands, aims-hands}
use operating_systems_git.Prelude.{
  ℕ, ◌+◌, ◌-◌, ◌≤◌, ◌<◌, ◌^◌, ◌≡◌, ◌≢◌, inl, inr, refl, sym, ◌∙◌, arith, Bool, true, Bool-cases,
  List, [], ◌∷◌, ◌==◌, ltb, ltb→lt, if◌then◌else◌, update, ap, ne→==, subst,
}
use operating_systems_git.Threads.Sum.{
  total, total-update, total_beyond, total_mono, total-classes, le_total_three, total-map,
}
use operating_systems_git.Threads.Schedule.{if-elim}
use operating_systems_git.Search.Queues.{failure}
use operating_systems_git.Search.Pool.{
  Local, unborn, starting, waiting_start, fetching, Main, creating, locked, created,
  waiting_initialized, all_initialized, broadcasting, waiting_sleep, all_sleep, waking, joining,
  exits, faulted, prints, Pool, move,
}
use operating_systems_git.Search.Pool.Program.{
  start_work, wake_up, create_thread, join_thread, has_ended, main_step,
}
use operating_systems_git.Search.Pool.Parts.{
  work, sleeps, hands, aims, fresh, early, inited, late, started, stray, active, busy,
}
use operating_systems_git.Search.Pool.Classes.{one_class, started-late, active-early}
use operating_systems_git.Search.Pool.Invariant.{Working, IsPhase, AreUnborn}
use operating_systems_git.Search.Pool.Keeps.{quiet}
use operating_systems_git.Search.Pool.Ending.{AllFound}
use operating_systems_git.Search.Pool.Signals.{
  start_work-same, busy-wake_up, not_less, parked-start_work, sleeps-wake_up, room-lt, count_of,
}

module _ (term : List ℕ) (can_create can_join : ℕ → Bool) (n all : ℕ) (small : all < 2 ^ 32) where
  Working-main :
      (s : Pool) (m : Main) → Working term n all s → Working term n all (record s { main = m })
  Working-main s m w = record {
    initialized = w.initialized;
    failures = w.failures;
    found = w.found;
    queue = w.queue;
    targets = w.targets;
    directed = w.directed;
    intact = w.intact;
  }

  -- The next thread is created.
  born :
      (s : Pool) (i : ℕ) (m : Main)
      → i < n
      → AreUnborn i s
      → Working term n all s
      → total started n s.locals ≡ 0
      → let s' = record s { locals = update s.locals i starting; main = m } in
        Working term n all s'
        × (total started n s'.locals ≡ 0)
        × AreUnborn (i + 1) s'
        × (total not_born n s'.locals + 1 ≡ total not_born n s.locals)
        × (1 ≤ total fresh n s'.locals)
  born s i m lt unborn_rest w nobody =
      let e = unborn_rest i (omega arith) in
      (
        Working-main (move i starting s) m (
            quiet term n all small s w i lt unborn starting e refl refl (omega arith) refl
              (omega arith) (λ t. omega arith) (omega arith)),
        omega (arith, nobody, total-update started n i s.locals starting lt),
        λ j le. rw (ne→== j i (omega (arith, le))) (unborn_rest j (omega (arith, le))),
        omega (arith, total-update not_born n i s.locals starting lt, ap not_born e),
        omega (
          arith,
          total-update fresh n i s.locals starting lt,
          ap fresh e,
          le-total fresh n i s.locals lt,
        ),
      )

  create-IsPhase :
      (s : Pool) (i : ℕ) (m : Main)
      → i < n
      → AreUnborn i s
      → Working term n all s
      → total started n s.locals ≡ 0
      → ((s' : Pool)
          → Working term n all s'
            × (total started n s'.locals ≡ 0)
            × AreUnborn (i + 1) s'
            × (total not_born n s'.locals + 1 ≡ total not_born n s.locals)
            × (1 ≤ total fresh n s'.locals)
          → IsPhase term n all s' m)
      → let s' = create_thread can_create i m s in IsPhase term n all s' s'.main
  unfolding create_thread
  create-IsPhase s i m lt unborn_rest w nobody next =
      let s' = record s { locals = update s.locals i starting; main = m } in
      if-elim (λ (x : Pool). IsPhase term n all x x.main) (can_create i) s'
        (record s { status = failure; main = exits failure })
        (λ b. next s' (born s i m lt unborn_rest w nobody)) (λ b. tt)

  -- The broadcast of `start_work`.
  started_all :
      (s : Pool)
      → Working term n all s
      → total started n s.locals ≡ 0
      → total fresh n s.locals ≡ 0
      → s.threads_failed ≢ n
      → IsPhase term n all
          (record s { locals = λ i. start_work (s.locals i); main = waiting_sleep })
          waiting_sleep
  started_all s w nobody past some_left =
      let same = λ (f : Local → ℕ) (e : f fetching ≡ f waiting_start).
        total-map f start_work (start_work-same f e) n s.locals in
      (
        record {
          initialized = w.initialized ∙ sym (same inited refl);
          failures = omega (arith, w.failures, same early refl, same late refl);
          found =
              λ whole. omega (arith, w.found (sym (same late refl) ∙ whole), same (work term) refl);
          queue = omega (arith, w.queue, same hands refl, same sleeps refl);
          targets = λ t. omega (
            arith,
            w.targets t,
            same (aims t) refl,
            ap (λ (k : ℕ). if ltb t n then k else 0) (start_work-same sleeps refl (s.locals t)),
          );
          directed = same stray refl ∙ w.directed;
          intact = w.intact;
        },
        omega (arith, past, same fresh refl),
        λ whole. inr (
            omega (
              arith,
              same active refl,
              w.failures,
              some_left,
              nobody,
              le_total_three active early started active-early n s.locals,
              total_mono late started started-late n s.locals,
              total-classes fresh inited early one_class n s.locals,
            )),
        omega (
          arith,
          w.queue,
          w.initialized,
          w.failures,
          some_left,
          nobody,
          past,
          total_mono sleeps started started-sleeps n s.locals,
          total_mono late started started-late n s.locals,
          total-classes fresh inited early one_class n s.locals,
        ),
        total-zero parked n (λ i. start_work (s.locals i)) (λ i lt. parked-start_work (s.locals i)),
      )

  other_rest :
      {k : ℕ} (u t : ℕ) (ts : List ℕ) → u < n → u ≢ t → k ≤ occurs u (t ∷ ts) → k ≤ occurs u ts
  other_rest u t ts less ne le =
      omega (arith, le, ap (λ (b : Bool). count_of b) (ne→== t u (λ e. ne (sym e))))

  -- The threads that sleep when `main` is woken are in the queue.
  sleepers_queued :
      (s : Pool)
      → Working term n all s
      → total moving n s.locals ≡ 0
      → (t : ℕ) → t < n
      → sleeps (s.locals t) ≤ occurs t s.thread_q
  sleepers_queued s w still_all t lt = omega (
    arith,
    w.targets t,
    room-lt n t s.locals lt,
    still_all,
    total_mono (aims t) hands (aims-hands t) n s.locals,
    total_mono hands moving moving-hands n s.locals,
  )

  wake_next :
      (s : Pool) (t : ℕ) (ts : List ℕ) (m : Main)
      → AllFound n all (λ u. occurs u (t ∷ ts)) s
      → AllFound n all
          (λ u. occurs u ts)
          (record s { locals = update s.locals t (wake_up (s.locals t)); main = m })
  wake_next s t ts m (over, found, idle, asleep_rest) = (
    over,
    found,
    elim (Bool-cases (ltb t n)) [
      | inl less ↦ omega (
        arith,
        idle,
        busy-wake_up (s.locals t),
        total-update busy n t s.locals (wake_up (s.locals t)) (ltb→lt t n less),
      )
      | inr over_end ↦ omega (
        arith,
        idle,
        total_beyond busy n t s.locals (wake_up (s.locals t)) (not_less t n over_end),
      )
    ],
    λ u less. elim (ℕ_discrete u t) [
      | yes same ↦ rw (same, ==_refl t) (omega (arith, sleeps-wake_up (s.locals t)))
      | no ne ↦ rw (ne→== u t ne) (other_rest u t ts less ne (asleep_rest u less))
    ],
  )

  join-IsPhase :
      (s : Pool) (i : ℕ)
      → s.main ≡ joining i
      → IsPhase term n all s (joining i)
      → let s' = join_thread can_join i s in IsPhase term n all s' s'.main
  unfolding join_thread
  join-IsPhase s i at p =
      let P = λ (x : Pool). IsPhase term n all x x.main in
      let goes_on = record s { main = joining (i + 1) } in
      if-elim P (can_join i) (if has_ended (s.locals i) then goes_on else s)
        (record s { status = failure; main = exits failure })
        (λ b.
          if-elim P (has_ended (s.locals i)) goes_on s (λ b2. p)
            (λ b2. subst (IsPhase term n all s) (sym at) p))
        (λ b. tt)

  -- A step of `main`, wherever it is.
  pub main-IsPhase :
      (s : Pool) (m : Main)
      → 1 ≤ n
      → s.main ≡ m
      → IsPhase term n all s m
      → let s' = main_step can_create can_join n m s in IsPhase term n all s' s'.main
  unfolding main_step
  main-IsPhase s (creating i) pos at (w, nobody, less, unborn_rest, count) =
      if-elim (λ (x : Pool). IsPhase term n all x x.main) (ltb (i + 1) n)
        (create_thread can_create i (creating (i + 1)) s) (record s { main = locked })
        (λ b.
          create-IsPhase s i (creating (i + 1)) less unborn_rest w nobody
            (λ s' p. (p.0, p.1, ltb→lt (i + 1) n b, p.2, omega (arith, p.3, count))))
        (λ b. (
          Working-main s locked w,
          nobody,
          λ j le. unborn_rest j (omega (arith, le, not_less (i + 1) n b)),
          omega (arith, count, less, not_less (i + 1) n b),
        ))
  main-IsPhase s locked pos at (w, nobody, unborn_rest, count) =
      create-IsPhase s (n - 1) created (omega (arith, pos)) unborn_rest w nobody
        (λ s' p. (p.0, p.1, omega (arith, p.3, count), λ none_early. p.4))
  main-IsPhase s created pos at (w, nobody, count, more) =
      (Working-main s waiting_initialized w, nobody, count, more)
  main-IsPhase s waiting_initialized pos at p = subst (IsPhase term n all s) (sym at) p
  main-IsPhase s all_initialized pos at (w, nobody, past) =
      if-elim (λ (m : Main). IsPhase term n all (record s { main = m }) m) (s.threads_failed == n)
        (exits s.status) broadcasting (λ b. tt)
        (λ b. (Working-main s broadcasting w, nobody, past, differs s.threads_failed n b))
  main-IsPhase s broadcasting pos at (w, nobody, past, ne) =
      if-elim (λ (x : Pool). IsPhase term n all x x.main) s.stuck s
        (record s { locals = λ i. start_work (s.locals i); main = waiting_sleep })
        (λ b. subst (IsPhase term n all s) (sym at) (w, nobody, past, ne))
        (λ b. started_all s w nobody past ne)
  main-IsPhase s waiting_sleep pos at p = subst (IsPhase term n all s) (sym at) p
  main-IsPhase s all_sleep pos at p =
      if-elim (λ (x : Pool). IsPhase term n all x x.main) s.stuck s
        (if s.threads_failed == n
          then record s { main = exits s.status }
          else record s { done = true; main = waking s.thread_q })
        (λ b. subst (IsPhase term n all s) (sym at) p)
        (λ b.
          if-elim (λ (x : Pool). IsPhase term n all x x.main) (s.threads_failed == n)
            (record s { main = exits s.status })
            (record s { done = true; main = waking s.thread_q }) (λ b2. tt)
            (λ b2. elim p.2 [
              | inl e ↦ absurd (differs s.threads_failed n b2 e)
              | inr (found, idle) ↦ (refl, found, idle, sleepers_queued s p.0 p.1)
            ]))
  main-IsPhase s (waking (t ∷ ts)) pos at p = wake_next s t ts (waking ts) p
  main-IsPhase s (waking []) pos at p = p
  main-IsPhase s (joining i) pos at p =
      if-elim (λ (x : Pool). IsPhase term n all x x.main) (ltb i n) (join_thread can_join i s)
        (record s { main = prints s.num_of_files_found s.status }) (λ b. join-IsPhase s i at p)
        (λ b. p.1)
  main-IsPhase s (exits status) pos at p = subst (IsPhase term n all s) (sym at) p
  main-IsPhase s faulted pos at p = absurd p
  main-IsPhase s (prints found status) pos at p = subst (IsPhase term n all s) (sym at) p
