-- ===== src/Search/Pool/Better.antt =====
-- hw04/pfind.c: where no call fails, a step of a thread brings the search closer to its end.
use operating_systems_git.Prelude.{
  ℕ, ◌+◌, ◌≤◌, ◌<◌, ◌≡◌, refl, ◌∙◌, ap, arith, Bool, true, false, List, [], ◌∷◌, ◌++◌, ◌==◌, length,
  if◌then◌else◌, update,
}
use operating_systems_git.Threads.Sum.{total, total-update, le-total}
use operating_systems_git.Threads.Schedule.{if-elim}
use operating_systems_git.Search.Pool.{
  Dir, ended, hidden, unknown, closed, folder, plain, Local, preparing, waiting_start, scanning,
  handing, before_sleep, asleep, Pool, signal_initialized, signal_sleep, crash, move,
}
use operating_systems_git.Search.Pool.Thread.{
  prepare, take_from, take_dir, opened_for, opened_dir, hand_to, found_plain, sleep, scan_dir,
}
use operating_systems_git.Search.Pool.Early.{differs}
use operating_systems_git.Search.Pool.Invariant.{Working}
use operating_systems_git.Search.Pool.Handing.{hand_sums}
use operating_systems_git.Search.Pool.Weight.{
  queue_faulty, queue_size, faults, weight, main_weight, gives_up, Healthy, measure,
  signal_initialized-less, signal_sleep-less, queue_faulty-append, queue_size-append,
}

pub record Better (n : ℕ) (s s' : Pool) : Type 0 where
  pub healthy : Healthy n s'
  pub less : measure n s' < measure n s

module _ (n : ℕ) (s : Pool) (h : Healthy n s) (i : ℕ) (lt : i < n) where
  pub better :
      (l l' : Local) (s' : Pool)
      → s.locals i ≡ l
      → s'.locals ≡ update s.locals i l'
      → faults l' + queue_faulty s'.dir_q ≤ faults l + queue_faulty s.dir_q
      → (s'.stuck ≡ false) × (s'.no_dir ≡ 0) × (s'.no_thread ≡ 0)
      → (main_weight n s'.main ≤ main_weight n s.main) × (gives_up s'.main ≡ gives_up s.main)
      → weight l' + queue_size s'.dir_q < weight l + queue_size s.dir_q
      → Better n s s'
  better l l' s' e same sound opened_still (main_less, going) less = record {
    healthy = record {
      faultless = omega (
        arith,
        h.faultless,
        sound,
        total-update faults n i s.locals l' lt,
        ap faults e,
        ap (total faults n) same,
      );
      open_queues = opened_still;
      going = going ∙ h.going;
    };
    less = omega (
      arith,
      less,
      main_less,
      total-update weight n i s.locals l' lt,
      ap weight e,
      ap (total weight n) same,
    );
  }

  pub same_main :
      (main_weight n s.main ≤ main_weight n s.main) × (gives_up s.main ≡ gives_up s.main)
  same_main = (omega arith, refl)

  pub steps_on :
      (l l' : Local)
      → s.locals i ≡ l
      → faults l' ≤ faults l
      → weight l' < weight l
      → Better n s (move i l' s)
  steps_on l l' e sound less =
      better l l' (move i l' s) e refl (omega (arith, sound)) h.open_queues same_main
        (omega (arith, less))

  to_initialized :
      (b : Bool)
      → let m = if b then signal_initialized s.main else s.main in
        (main_weight n m ≤ main_weight n s.main) × (gives_up m ≡ gives_up s.main)
  to_initialized true = signal_initialized-less n s.main
  to_initialized false = same_main

  to_sleep :
      (b : Bool)
      → let m = if b then signal_sleep s.main else s.main in
        (main_weight n m ≤ main_weight n s.main) × (gives_up m ≡ gives_up s.main)
  to_sleep true = signal_sleep-less n s.main
  to_sleep false = same_main

  no_fault : (l : Local) → s.locals i ≡ l → faults l ≡ 0
  no_fault l e = omega (arith, h.faultless, le-total faults n i s.locals lt, ap faults e)

  pub prepare-Better : s.locals i ≡ preparing → Better n s (prepare n i s)
  unfolding prepare
  prepare-Better e =
      better preparing waiting_start (prepare n i s) e refl (omega arith) h.open_queues
        (to_initialized (s.threads_initialized + 1 + s.threads_failed == n)) (omega arith)

  pub sleep-Better : s.locals i ≡ before_sleep → Better n s (sleep i s)
  unfolding sleep
  sleep-Better e =
      better before_sleep asleep (sleep i s) e refl (omega arith)
        (h.open_queues.0, h.open_queues.1, refl)
        (to_sleep (length (s.thread_q ++ (i ∷ [])) == s.threads_initialized)) (omega arith)

  pub take_from-Better :
      (l : Local) (q : List Dir)
      → s.locals i ≡ l
      → s.dir_q ≡ q
      → weight l ≡ 2
      → Better n s (take_from q i s)
  unfolding take_from
  take_from-Better l [] e q two =
      if-elim (Better n s) (s.no_dir == 0) (move i before_sleep s) (crash s)
        (λ b.
          better l before_sleep (move i before_sleep s) e refl (omega arith) h.open_queues same_main
            (omega (arith, two)))
        (λ b. absurd (differs s.no_dir 0 b h.open_queues.1))
  take_from-Better l (d ∷ ds) e q two =
      better l (scanning d) (record s { locals = update s.locals i (scanning d); dir_q = ds }) e
        refl (omega (arith, ap queue_faulty q)) h.open_queues same_main
        (omega (arith, two, ap queue_size q))

  opened_for-Better :
      (q : List ℕ) (memory : Bool) (opened rest : Dir)
      → s.locals i ≡ scanning (folder memory opened rest)
      → Better n s (opened_for q n i memory opened rest s)
  unfolding opened_for
  opened_for-Better (t ∷ ts) true opened rest e =
      better (scanning (folder true opened rest)) (handing t opened rest)
        (record s { locals = update s.locals i (handing t opened rest); thread_q = ts }) e refl
        (omega arith) h.open_queues same_main (omega arith)
  opened_for-Better (t ∷ ts) false opened rest e =
      absurd (omega (arith, no_fault (scanning (folder false opened rest)) e))
  opened_for-Better [] true opened rest e =
      let s' = record s {
        locals = update s.locals i (scanning rest);
        dir_q = s.dir_q ++ (opened ∷ []);
      } in
      if-elim (Better n s) (s.no_thread == 0) s' (crash s)
        (λ b.
          better (scanning (folder true opened rest)) (scanning rest) s' e refl
            (omega (arith, queue_faulty-append s.dir_q opened)) h.open_queues same_main
            (omega (arith, queue_size-append s.dir_q opened)))
        (λ b. absurd (differs s.no_thread 0 b h.open_queues.2))
  opened_for-Better [] false opened rest e =
      absurd (omega (arith, no_fault (scanning (folder false opened rest)) e))

  found_plain-Better :
      (term name : List ℕ) (rest : Dir)
      → s.locals i ≡ scanning (plain name rest)
      → Better n s (found_plain term i name rest s)
  unfolding found_plain
  found_plain-Better term name rest e =
      better (scanning (plain name rest)) (scanning rest) (found_plain term i name rest s) e refl
        (omega arith) h.open_queues same_main (omega arith)

  pub unless_stuck : (x : Pool) → Better n s x → Better n s (if s.stuck then s else x)
  unless_stuck x b =
      if-elim (Better n s) s.stuck s x (λ c. let free = h.open_queues.0 in cc) (λ c. b)

  pub scan_dir-Better :
      (term : List ℕ) (d : Dir) → s.locals i ≡ scanning d → Better n s (scan_dir term n i d s)
  unfolding scan_dir take_dir opened_dir
  scan_dir-Better term (ended true) e = absurd (omega (arith, no_fault (scanning (ended true)) e))
  scan_dir-Better term (ended false) e =
      unless_stuck (take_dir i s) (take_from-Better (scanning (ended false)) s.dir_q e refl refl)
  scan_dir-Better term (hidden rest) e =
      steps_on (scanning (hidden rest)) (scanning rest) e (omega arith) (omega arith)
  scan_dir-Better term (unknown rest) e =
      absurd (omega (arith, no_fault (scanning (unknown rest)) e))
  scan_dir-Better term (closed rest) e = absurd (omega (arith, no_fault (scanning (closed rest)) e))
  scan_dir-Better term (folder memory opened rest) e =
      unless_stuck (opened_dir n i memory opened rest s)
        (opened_for-Better s.thread_q memory opened rest e)
  scan_dir-Better term (plain name rest) e = found_plain-Better term name rest e

  pub hand_to-Better :
      (term : List ℕ) (all to : ℕ) (opened rest : Dir)
      → Working term n all s
      → s.locals i ≡ handing to opened rest
      → Better n s (hand_to i to opened rest s)
  unfolding hand_to
  hand_to-Better term all to opened rest w e = record {
    healthy = record {
      faultless = omega (arith, h.faultless, hand_sums term n all s w i lt to opened rest e faults);
      open_queues = h.open_queues;
      going = h.going;
    };
    less = omega (arith, hand_sums term n all s w i lt to opened rest e weight);
  }
