-- ===== src/Search/Pool/Quiet.antt =====
-- hw04/pfind.c: what holds when `all_sleep` is signalled.
use operating_systems_git.Prelude.{
  false, ℕ, ◌≤◌, ◌≡◌, ◌⊎◌, inl, inr, refl, arith, Bool, false, true, List, [], if◌then◌else◌,
  length, ap,
}
use operating_systems_git.Threads.Sum.{
  total, total_mono, total_mono_two, total_le_three, total-zero, total-zero-part,
}
use operating_systems_git.Search.Pool.{Main, waiting_sleep, all_sleep, Pool, signal_sleep}
use operating_systems_git.Search.Pool.Parts.{
  queued, work, sleeps, fresh, early, inited, late, stray, active, busy, moving,
}
use operating_systems_git.Search.Pool.Classes.{
  busy-sleeps, busy-late, busy-active, busy-moving, moving-ended, busy-work,
}
use operating_systems_git.Search.Pool.Invariant.{Working, IsPhase}

module _ (term : List ℕ) (n all : ℕ) where
  -- Where no thread is busy, all files have been found.
  pub quiet_end :
      (s : Pool)
      → Working term n all s
      → (total late n s.locals ≡ 0 → (s.dir_q ≡ []) ⊎ (1 ≤ total active n s.locals))
      → total busy n s.locals ≡ 0
      → s.num_of_files_found ≡ all
  quiet_end s w act idle =
      let kept : total late n s.locals ≡ 0 =
        omega (arith, idle, total_mono late busy busy-late n s.locals) in
      let files : total (work term) n s.locals ≡ 0 =
        total-zero (work term) n s.locals
          (λ i lt. busy-work term (s.locals i) (total-zero-part busy n i s.locals idle lt)) in
      elim (act kept) [
        | inl empty ↦ omega (arith, w.found kept, files, ap (queued term) empty)
        | inr some_thread ↦
            absurd (omega (arith, some_thread, idle, total_mono active busy busy-active n s.locals))
      ]

  -- The signal of the last thread that enters the queue of sleeping threads.
  pub all_queued :
      (s : Pool)
      → Working term n all s
      → total fresh n s.locals ≡ 0
      → (total late n s.locals ≡ 0 → (s.dir_q ≡ []) ⊎ (1 ≤ total active n s.locals))
      → length s.thread_q ≡ s.threads_initialized
      → IsPhase term n all s all_sleep
  all_queued s w counted_all act full =
      let idle : total busy n s.locals ≡ 0 = omega (
        arith,
        w.queue,
        w.initialized,
        full,
        counted_all,
        total_mono_two busy sleeps inited fresh busy-sleeps n s.locals,
      ) in
      (
        w,
        omega (
          arith,
          idle,
          w.directed,
          total_mono_two moving (λ _. 0) busy stray (λ l. omega (arith, busy-moving l)) n s.locals,
        ),
        inr (quiet_end s w act idle, idle),
      )

  -- The signal of the last thread that fails.
  pub all_failed :
      (s : Pool) → Working term n all s → s.threads_failed ≡ n → IsPhase term n all s all_sleep
  all_failed s w full = (
    w,
    omega (arith, w.failures, full, total_le_three moving early late moving-ended n s.locals),
    inl full,
  )

  pub to_sleep :
      (s : Pool) (m : Main) (b : Bool)
      → m ≡ waiting_sleep
      → (b ≡ true → IsPhase term n all s all_sleep)
      → (b ≡ false → IsPhase term n all s waiting_sleep)
      → IsPhase term n all s (if b then signal_sleep m else m)
  to_sleep s m true at fires p = rw at (fires refl)
  to_sleep s m false at fires p = rw at (p refl)
