-- ===== src/Search/Pool/Keeps.antt =====
-- hw04/pfind.c: every step of a thread keeps the counts.
use operating_systems_git.Prelude.{
  ℕ, ◌+◌, ◌≤◌, ◌<◌, ◌^◌, ◌≡◌, ◌⊎◌, inl, inr, refl, ◌∙◌, arith, Bool, false, true, List, [], ◌∷◌,
  ◌++◌, ◌==◌, length, length-append, update, ap,
}
use operating_systems_git.Threads.Sum.{le-total}
use operating_systems_git.Threads.Schedule.{if-elim}
use operating_systems_git.Search.Pool.Early.{differs}
use operating_systems_git.Search.Pool.{
  Dir, ended, folder, plain, Local, starting, preparing, waiting_start, unstarted, fetching,
  scanning, handing, before_sleep, asleep, failed, Pool, crash, move,
}
use operating_systems_git.Search.Pool.Thread.{
  give_up, not_started, prepare, take_from, take_dir, opened_for, opened_dir, found_plain, sleep,
}
use operating_systems_git.Search.Pool.Parts.{
  queued, work, sleeps, hands, aims, early, inited, late, stray, occurs,
}
use operating_systems_git.Search.Pool.Invariant.{Working}
use operating_systems_git.Search.Pool.Moves.{single, own, awake, queued-append, occurs-append}

module _ (term : List ℕ) (n all : ℕ) (small : all < 2 ^ 32) (s : Pool) (w : Working term n all s)
    (i : ℕ) (lt : i < n) where
  -- A step that changes nothing but the state of the thread, and not what is counted of it.
  pub quiet :
      (l l' : Local)
      → s.locals i ≡ l
      → inited l ≡ inited l'
      → early l + late l ≡ early l' + late l'
      → late l ≤ late l'
      → work term l' ≡ work term l
      → hands l' + sleeps l ≡ hands l + sleeps l'
      → ((t : ℕ) → aims t l' + own i t l ≡ aims t l + own i t l')
      → stray l' ≤ stray l
      → Working term n all (move i l' s)
  quiet l l' e ini ended_too lost files q aim str =
      single term n all s w i lt l l' (move i l' s) e refl (omega (arith, ini))
        (omega (arith, ended_too)) lost (λ gone none. omega (arith, files)) (omega (arith, q))
        (λ t. omega (arith, aim t)) str w.intact

  pub give_up-Working : (d : Dir) → s.locals i ≡ scanning d → Working term n all (give_up n i s)
  unfolding give_up
  give_up-Working d e =
      single term n all s w i lt (scanning d) failed (give_up n i s) e refl (omega arith)
        (omega arith) (omega arith) (λ gone none. absurd (omega (arith, gone))) (omega arith)
        (λ t. omega (arith, awake i t (scanning d) refl)) (omega arith) w.intact

  pub not_started-Working : s.locals i ≡ starting → Working term n all (not_started n i s)
  unfolding not_started
  not_started-Working e =
      single term n all s w i lt starting unstarted (not_started n i s) e refl (omega arith)
        (omega arith) (omega arith) (λ gone none. refl) (omega arith) (λ t. omega arith)
        (omega arith) w.intact

  pub prepare-Working : s.locals i ≡ preparing → Working term n all (prepare n i s)
  unfolding prepare
  prepare-Working e =
      single term n all s w i lt preparing waiting_start (prepare n i s) e refl (omega arith)
        (omega arith) (omega arith) (λ gone none. refl) (omega arith) (λ t. omega arith)
        (omega arith) w.intact

  take_next :
      (l : Local) (d : Dir) (ds : List Dir)
      → s.locals i ≡ l
      → s.dir_q ≡ d ∷ ds
      → (l ≡ fetching) ⊎ (l ≡ scanning (ended false))
      → Working term n all (record s { locals = update s.locals i (scanning d); dir_q = ds })
  take_next l d ds e q (inl same) =
      single term n all s w i lt fetching (scanning d)
        (record s { locals = update s.locals i (scanning d); dir_q = ds }) (e ∙ same) refl
        (omega arith) (omega arith) (omega arith) (λ gone none. omega (arith, ap (queued term) q))
        (omega arith) (λ t. omega (arith, awake i t fetching refl)) (omega arith) w.intact
  take_next l d ds e q (inr same) =
      single term n all s w i lt (scanning (ended false)) (scanning d)
        (record s { locals = update s.locals i (scanning d); dir_q = ds }) (e ∙ same) refl
        (omega arith) (omega arith) (omega arith) (λ gone none. omega (arith, ap (queued term) q))
        (omega arith) (λ t. omega (arith, awake i t (scanning (ended false)) refl)) (omega arith)
        w.intact

  take_none :
      (l : Local)
      → s.locals i ≡ l
      → (l ≡ fetching) ⊎ (l ≡ scanning (ended false))
      → Working term n all (move i before_sleep s)
  take_none l e (inl same) =
      quiet fetching before_sleep (e ∙ same) refl refl (omega arith) refl (omega arith)
        (λ t. omega (arith, awake i t fetching refl)) (omega arith)
  take_none l e (inr same) =
      quiet (scanning (ended false)) before_sleep (e ∙ same) refl refl (omega arith) refl
        (omega arith) (λ t. omega (arith, awake i t (scanning (ended false)) refl)) (omega arith)

  take_from-Working :
      (l : Local) (q : List Dir)
      → s.locals i ≡ l
      → s.dir_q ≡ q
      → (l ≡ fetching) ⊎ (l ≡ scanning (ended false))
      → Working term n all (take_from q i s)
  unfolding take_from
  take_from-Working l [] e q which =
      if-elim (Working term n all) (s.no_dir == 0) (move i before_sleep s) (crash s)
        (λ b. take_none l e which) (λ b. absurd (differs s.no_dir 0 b w.intact.1))
  take_from-Working l (d ∷ ds) e q which = take_next l d ds e q which

  pub take_dir-Working :
      (l : Local)
      → s.locals i ≡ l
      → (l ≡ fetching) ⊎ (l ≡ scanning (ended false))
      → Working term n all (take_dir i s)
  unfolding take_dir
  take_dir-Working l e which = take_from-Working l s.dir_q e refl which

  pub found_plain-Working :
      (name : List ℕ) (rest : Dir)
      → s.locals i ≡ scanning (plain name rest)
      → Working term n all (found_plain term i name rest s)
  unfolding found_plain
  found_plain-Working name rest e =
      single term n all s w i lt (scanning (plain name rest)) (scanning rest)
        (found_plain term i name rest s) e refl (omega arith) (omega arith) (omega arith)
        (λ gone none.
          ground (arith, w.found none, le-total (work term) n i s.locals lt, ap (work term) e))
        (omega arith) (λ t. omega arith) (omega arith) w.intact

  pub sleep-Working : s.locals i ≡ before_sleep → Working term n all (sleep i s)
  unfolding sleep
  sleep-Working e =
      single term n all s w i lt before_sleep asleep (sleep i s) e refl (omega arith) (omega arith)
        (omega arith) (λ gone none. refl) (omega (arith, length-append s.thread_q (i ∷ [])))
        (λ t. omega (arith, occurs-append t s.thread_q i, awake i t before_sleep refl))
        (omega arith) (w.intact.0, w.intact.1, refl)

  opened_for-Working :
      (q : List ℕ) (memory : Bool) (opened rest : Dir)
      → s.thread_q ≡ q
      → s.locals i ≡ scanning (folder memory opened rest)
      → Working term n all (opened_for q n i memory opened rest s)
  unfolding opened_for give_up
  opened_for-Working (t ∷ ts) memory opened rest q e =
      single term n all s w i lt (scanning (folder memory opened rest)) (handing t opened rest)
        (record s { locals = update s.locals i (handing t opened rest); thread_q = ts }) e refl
        (omega arith) (omega arith) (omega arith) (λ gone none. refl) (omega (arith, ap length q))
        (λ u. omega (arith, ap (occurs u) q, awake i u (scanning (folder memory opened rest)) refl))
        (omega arith) w.intact
  opened_for-Working [] true opened rest q e =
      let s' = record s {
        locals = update s.locals i (scanning rest);
        dir_q = s.dir_q ++ (opened ∷ []);
      } in
      if-elim (Working term n all) (s.no_thread == 0) s' (crash s)
        (λ b.
          single term n all s w i lt (scanning (folder true opened rest)) (scanning rest) s' e refl
            (omega arith) (omega arith) (omega arith)
            (λ gone none. omega (arith, queued-append term s.dir_q opened)) (omega arith)
            (λ u. omega (arith, awake i u (scanning (folder true opened rest)) refl)) (omega arith)
            w.intact)
        (λ b. absurd (differs s.no_thread 0 b w.intact.2))
  opened_for-Working [] false opened rest q e =
      let g = give_up-Working (folder false opened rest) e in
      if-elim (Working term n all) (s.no_thread == 0) (record (give_up n i s) { stuck = true })
        (crash s)
        (λ b. record {
          initialized = g.initialized;
          failures = g.failures;
          found = g.found;
          queue = g.queue;
          targets = g.targets;
          directed = g.directed;
          intact = g.intact;
        })
        (λ b. absurd (differs s.no_thread 0 b w.intact.2))

  pub opened_dir-Working :
      (memory : Bool) (opened rest : Dir)
      → s.locals i ≡ scanning (folder memory opened rest)
      → Working term n all (opened_dir n i memory opened rest s)
  unfolding opened_dir
  opened_dir-Working memory opened rest e = opened_for-Working s.thread_q memory opened rest refl e
