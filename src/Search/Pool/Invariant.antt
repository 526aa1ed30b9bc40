-- ===== src/Search/Pool/Invariant.antt =====
-- hw04/pfind.c: what every step of the search keeps.
use operating_systems_git.Prelude.{
  ℕ, ◌+◌, ◌-◌, ◌≤◌, ◌<◌, ◌≡◌, ◌≢◌, ◌⊎◌, arith, false, true, List, [], length,
}
use operating_systems_git.Threads.Sum.{total}
use operating_systems_git.Search.Pool.{
  Local, unborn, Main, creating, locked, created, waiting_initialized, all_initialized,
  broadcasting, waiting_sleep, all_sleep, waking, joining, exits, faulted, prints, Pool,
}
use operating_systems_git.Search.Pool.Parts.{
  queued, work, sleeps, hands, aims, fresh, early, inited, not_born, parked, late, started, stray,
  active, busy, moving, occurs, room,
}

-- The threads from `k` on have not been created.
abbrev pub AreUnborn : (k : ℕ) → Pool → Type 0
AreUnborn k s = (j : ℕ) → k ≤ j → s.locals j ≡ unborn

module _ (term : List ℕ) (n all : ℕ) where
  -- The counters count the threads. While no thread was lost in `scan_dir`, the files found and the
  -- files that the queue and the threads have are `all`. A thread stands in the queue of sleeping
  -- threads, or in the hands of another, at most once, and only while it sleeps.
  pub record Working (s : Pool) : Type 0 where
    pub initialized : s.threads_initialized ≡ total inited n s.locals
    pub failures : s.threads_failed ≡ total early n s.locals + total late n s.locals
    pub found :
        total late n s.locals ≡ 0
        → s.num_of_files_found + queued term s.dir_q + total (work term) n s.locals ≡ all
    pub queue : length s.thread_q + total hands n s.locals ≡ total sleeps n s.locals
    pub targets : (t : ℕ) → occurs t s.thread_q + total (aims t) n s.locals ≡ room n t s.locals
    pub directed : total stray n s.locals ≡ 0
    pub intact : (s.done ≡ false) × (s.no_dir ≡ 0) × (s.no_thread ≡ 0)

  -- A step that changes the states of at most two threads.
  pub record Moved (s s' : Pool) (l k l' k' : Local) : Type 0 where
    pub sums :
        (f : Local → ℕ) → total f n s'.locals + (f l + f k) ≡ total f n s.locals + (f l' + f k')
    pub initialized :
        s'.threads_initialized + (inited l + inited k)
        ≡ s.threads_initialized + (inited l' + inited k')
    pub failures :
        s'.threads_failed + (early l + late l + (early k + late k))
        ≡ s.threads_failed + (early l' + late l' + (early k' + late k'))
    pub lost : late l + late k ≤ late l' + late k'
    pub found :
        total late n s'.locals ≡ 0
        → s'.num_of_files_found + queued term s'.dir_q + (work term l' + work term k')
          ≡ s.num_of_files_found + queued term s.dir_q + (work term l + work term k)
    pub queue :
        length s'.thread_q + (hands l' + hands k') + (sleeps l + sleeps k)
        ≡ length s.thread_q + (hands l + hands k) + (sleeps l' + sleeps k')
    pub targets : (t : ℕ) → occurs t s'.thread_q + total (aims t) n s'.locals ≡ room n t s'.locals
    pub directed : stray l' + stray k' ≤ stray l + stray k
    pub intact : (s'.done ≡ false) × (s'.no_dir ≡ 0) × (s'.no_thread ≡ 0)

  pub Moved-Working :
      (s s' : Pool) (l k l' k' : Local) → Working s → Moved s s' l k l' k' → Working s'
  Moved-Working s s' l k l' k' w m = record {
    initialized = omega (arith, w.initialized, m.initialized, m.sums inited);
    failures = omega (arith, w.failures, m.failures, m.sums early, m.sums late);
    found = λ none. omega (
      arith,
      w.found (omega (arith, none, m.sums late, m.lost)),
      m.found none,
      m.sums (work term),
    );
    queue = omega (arith, w.queue, m.queue, m.sums hands, m.sums sleeps);
    targets = m.targets;
    directed = omega (arith, w.directed, m.directed, m.sums stray);
    intact = m.intact;
  }

  -- What holds while `main` is where it is.
  abbrev pub IsPhase : Pool → Main → Type 0
  IsPhase s (creating i) =
      Working s
      × (total started n s.locals ≡ 0)
      × (i < n)
      × AreUnborn i s
      × (total not_born n s.locals + i ≡ n)
  IsPhase s locked =
      Working s
      × (total started n s.locals ≡ 0)
      × AreUnborn (n - 1) s
      × (total not_born n s.locals ≡ 1)
  IsPhase s created =
      Working s
      × (total started n s.locals ≡ 0)
      × (total not_born n s.locals ≡ 0)
      × (total early n s.locals ≡ 0 → 1 ≤ total fresh n s.locals)
  IsPhase s waiting_initialized =
      Working s
      × (total started n s.locals ≡ 0)
      × (total not_born n s.locals ≡ 0)
      × (total early n s.locals ≡ 0 → 1 ≤ total fresh n s.locals)
  IsPhase s all_initialized =
      Working s × (total started n s.locals ≡ 0) × (total fresh n s.locals ≡ 0)
  IsPhase s broadcasting =
      Working s
      × (total started n s.locals ≡ 0)
      × (total fresh n s.locals ≡ 0)
      × (s.threads_failed ≢ n)
  IsPhase s waiting_sleep =
      Working s
      × (total fresh n s.locals ≡ 0)
      × (total late n s.locals ≡ 0 → (s.dir_q ≡ []) ⊎ (1 ≤ total active n s.locals))
      × (length s.thread_q < s.threads_initialized)
      × (total parked n s.locals ≡ 0)
  IsPhase s all_sleep =
      Working s
      × (total moving n s.locals ≡ 0)
      × ((s.threads_failed ≡ n) ⊎ ((s.num_of_files_found ≡ all) × (total busy n s.locals ≡ 0)))
  IsPhase s (waking ts) =
      (s.done ≡ true)
      × (s.num_of_files_found ≡ all)
      × (total busy n s.locals ≡ 0)
      × ((t : ℕ) → t < n → sleeps (s.locals t) ≤ occurs t ts)
  IsPhase s (joining i) =
      (s.done ≡ true)
      × (s.num_of_files_found ≡ all)
      × (total busy n s.locals ≡ 0)
      × ((t : ℕ) → t < n → sleeps (s.locals t) ≤ 0)
  IsPhase s (exits status) = Unit
  IsPhase s faulted = ⊥
  IsPhase s (prints found status) = found ≡ all
