-- ===== src/Search/Pool/Searching.antt =====
-- hw04/pfind.c: a step of a thread while `main` waits for the search to end.
use operating_systems_git.Search.Pool.Early.{differs}
use operating_systems_git.Prelude.{
  ℕ, ◌+◌, ◌≤◌, ◌<◌, ◌^◌, ◌≡◌, ◌⊎◌, inl, inr, refl, sym, ◌∙◌, arith, none, some, Bool, false, true,
  List, [], ◌∷◌, ◌++◌, ◌==◌, if◌then◌else◌, length, update, ap, ==_refl, ==_iff, subst,
}
use operating_systems_git.Threads.Sum.{total, total-update, le-total}
use operating_systems_git.Threads.Schedule.{if-elim}
use operating_systems_git.Search.Pool.{
  Dir, ended, hidden, unknown, closed, folder, plain, Local, unborn, starting, preparing,
  waiting_start, unstarted, fetching, scanning, handing, before_sleep, asleep, woken, finished,
  failed, crashed, waiting_sleep, Pool, signal_sleep, crash, set_errno, move,
}
use operating_systems_git.Search.Pool.Thread.{
  give_up, take_from, take_dir, opened_for, opened_dir, hand_to, found_plain, sleep, scan_dir,
  thread_func,
}
use operating_systems_git.Search.Pool.Parts.{fresh, late, stray, active, matching-set_errno}
use operating_systems_git.Search.Pool.Invariant.{Working, IsPhase}
use operating_systems_git.Search.Pool.Keeps.{
  quiet, give_up-Working, take_dir-Working, found_plain-Working, sleep-Working, opened_dir-Working,
}
use operating_systems_git.Search.Pool.Handing.{hand_to-Working, hand_sums}
use operating_systems_git.Search.Pool.Quiet.{all_queued, all_failed, to_sleep}
use operating_systems_git.Threads.Sum.{total_mono_two}
use operating_systems_git.Search.Pool.Parts.{parked, sleeps, inited, busy}
use operating_systems_git.Search.Pool.Classes.{busy-sleeps}

module _ (term : List ℕ) (memory : ℕ → Bool) (n all : ℕ) (small : all < 2 ^ 32) (s : Pool)
    (at : s.main ≡ waiting_sleep) (w : Working term n all s)
    (counted_all : total fresh n s.locals ≡ 0)
    (act : total late n s.locals ≡ 0 → (s.dir_q ≡ []) ⊎ (1 ≤ total active n s.locals))
    (queue_less : length s.thread_q < s.threads_initialized)
    (none_parked : total parked n s.locals ≡ 0) (i : ℕ) (lt : i < n) where
  still_counted :
      (l' : Local) (s' : Pool)
      → s'.locals ≡ update s.locals i l'
      → fresh l' ≡ 0
      → total fresh n s'.locals ≡ 0
  still_counted l' s' same past =
      omega
        (arith, counted_all, past, total-update fresh n i s.locals l' lt, ap (total fresh n) same)

  still_unparked :
      (l' : Local) (s' : Pool)
      → s'.locals ≡ update s.locals i l'
      → parked l' ≡ 0
      → total parked n s'.locals ≡ 0
  still_unparked l' s' same past =
      omega
        (arith, none_parked, past, total-update parked n i s.locals l' lt, ap (total parked n) same)

  goes_on :
      (l' : Local) (s' : Pool)
      → s'.locals ≡ update s.locals i l'
      → s'.main ≡ s.main
      → Working term n all s'
      → length s'.thread_q < s'.threads_initialized
      → fresh l' + parked l' ≡ 0
      → active l' ≡ 1
      → IsPhase term n all s' s'.main
  goes_on l' s' same kept w' less past more =
      let own : s'.locals i ≡ l' = rw (same, ==_refl i) refl in
      subst (IsPhase term n all s') (sym (kept ∙ at)) (
        w',
        still_counted l' s' same (omega (arith, past)),
        λ whole. inr (omega (arith, le-total active n i s'.locals lt, ap active own, more)),
        less,
        still_unparked l' s' same (omega (arith, past)),
      )

  ==_own : (l' : Local) → update s.locals i l' i ≡ l'
  ==_own l' = rw (==_refl i) refl

  unchanged : IsPhase term n all s s.main
  unchanged = subst (IsPhase term n all s) (sym at) (w, counted_all, act, queue_less, none_parked)

  lost-IsPhase :
      (s' : Pool)
      → Working term n all s'
      → s'.locals ≡ update s.locals i failed
      → s'.threads_failed ≡ s.threads_failed + 1
      → length s'.thread_q < s'.threads_initialized
      → IsPhase term n all s' (if s.threads_failed + 1 == n then signal_sleep s.main else s.main)
  lost-IsPhase s' w' same count less =
      let own : s'.locals i ≡ failed = rw same (==_own failed) in
      let gone : 1 ≤ total late n s'.locals =
        omega (arith, le-total late n i s'.locals lt, ap late own) in
      to_sleep term n all s' s.main (s.threads_failed + 1 == n) at
        (λ b. all_failed term n all s' w' (count ∙ (==_iff (s.threads_failed + 1) n).0 b))
        (λ b. (
          w',
          still_counted failed s' same refl,
          λ whole. absurd (omega (arith, whole, gone)),
          less,
          still_unparked failed s' same refl,
        ))

  give_up-IsPhase :
      (d : Dir) → s.locals i ≡ scanning d → IsPhase term n all (give_up n i s) (give_up n i s).main
  unfolding give_up
  give_up-IsPhase d e =
      lost-IsPhase (give_up n i s) (give_up-Working term n all small s w i lt d e) refl refl
        queue_less

  take-IsPhase :
      (l : Local) (q : List Dir)
      → s.locals i ≡ l
      → s.dir_q ≡ q
      → Working term n all (take_from q i s)
      → IsPhase term n all (take_from q i s) (take_from q i s).main
  unfolding take_from
  take-IsPhase l [] e q w' =
      if-elim (λ (x : Pool). Working term n all x → IsPhase term n all x x.main) (s.no_dir == 0)
        (move i before_sleep s) (crash s)
        (λ b after. subst (IsPhase term n all (move i before_sleep s)) (sym at) (
          after,
          still_counted before_sleep (move i before_sleep s) refl refl,
          λ whole. inl q,
          queue_less,
          still_unparked before_sleep (move i before_sleep s) refl refl,
        ))
        (λ b after. absurd (differs s.no_dir 0 b w.intact.1)) w'
  take-IsPhase l (d ∷ ds) e q w' =
      goes_on (scanning d) (record s { locals = update s.locals i (scanning d); dir_q = ds }) refl
        refl w' queue_less refl refl

  opened-IsPhase :
      (q : List ℕ) (memory : Bool) (opened rest : Dir)
      → s.thread_q ≡ q
      → s.locals i ≡ scanning (folder memory opened rest)
      → Working term n all (opened_for q n i memory opened rest s)
      → IsPhase term n all
          (opened_for q n i memory opened rest s)
          (opened_for q n i memory opened rest s).main
  unfolding opened_for give_up
  opened-IsPhase (t ∷ ts) memory opened rest q e w' =
      goes_on (handing t opened rest)
        (record s { locals = update s.locals i (handing t opened rest); thread_q = ts }) refl refl
        w' (omega (arith, queue_less, ap length q)) refl refl
  opened-IsPhase [] true opened rest q e w' =
      let s' = record s {
        locals = update s.locals i (scanning rest);
        dir_q = s.dir_q ++ (opened ∷ []);
      } in
      if-elim (λ (x : Pool). Working term n all x → IsPhase term n all x x.main) (s.no_thread == 0)
        s' (crash s) (λ b after. goes_on (scanning rest) s' refl refl after queue_less refl refl)
        (λ b after. absurd (differs s.no_thread 0 b w.intact.2)) w'
  opened-IsPhase [] false opened rest q e w' =
      let s' = record (give_up n i s) { stuck = true } in
      if-elim (λ (x : Pool). Working term n all x → IsPhase term n all x x.main) (s.no_thread == 0)
        s' (crash s) (λ b after. lost-IsPhase s' after refl refl queue_less)
        (λ b after. absurd (differs s.no_thread 0 b w.intact.2)) w'

  sleep-IsPhase : s.locals i ≡ before_sleep → IsPhase term n all (sleep i s) (sleep i s).main
  unfolding sleep
  sleep-IsPhase e =
      let s' = sleep i s in
      let w' = sleep-Working term n all small s w i lt e in
      let past = still_counted asleep s' refl refl in
      let act' : total late n s'.locals ≡ 0 → (s'.dir_q ≡ []) ⊎ (1 ≤ total active n s'.locals) =
        λ whole.
          elim (act (omega (arith, whole, total-update late n i s.locals asleep lt, ap late e))) [
            | inl empty ↦ inl empty
            | inr more ↦
                inr (omega (arith, more, total-update active n i s.locals asleep lt, ap active e))
          ] in
      to_sleep term n all s' s.main (length (s.thread_q ++ (i ∷ [])) == s.threads_initialized) at
        (λ b.
          all_queued term n all s' w' past act'
            ((==_iff (length (s.thread_q ++ (i ∷ []))) s.threads_initialized).0 b))
        (λ b. (
          w',
          past,
          act',
          omega (
            arith,
            w'.queue,
            w'.initialized,
            past,
            differs (length (s.thread_q ++ (i ∷ []))) s.threads_initialized b,
            total_mono_two busy sleeps inited fresh busy-sleeps n s'.locals,
          ),
          still_unparked asleep s' refl refl,
        ))

  hand-IsPhase :
      (to : ℕ) (opened rest : Dir)
      → s.locals i ≡ handing to opened rest
      → IsPhase term n all (hand_to i to opened rest s) (hand_to i to opened rest s).main
  unfolding hand_to
  hand-IsPhase to opened rest e =
      let s' = hand_to i to opened rest s in
      let w' = hand_to-Working term n all s w i lt to opened rest e in
      let own : s'.locals i ≡ scanning rest = rw (==_refl i) refl in
      subst (IsPhase term n all s') (sym at) (
        w',
        omega (arith, counted_all, hand_sums term n all s w i lt to opened rest e fresh),
        λ whole. inr (omega (arith, le-total active n i s'.locals lt, ap active own)),
        queue_less,
        omega (arith, none_parked, hand_sums term n all s w i lt to opened rest e parked),
      )

  unless_stuck :
      (x : Pool)
      → IsPhase term n all x x.main
      → let x' = if s.stuck then s else x in IsPhase term n all x' x'.main
  unless_stuck x p =
      if-elim (λ (y : Pool). IsPhase term n all y y.main) s.stuck s x (λ b. unchanged) (λ b. p)

  unless_done :
      (y x : Pool)
      → IsPhase term n all x x.main
      → let x' = if s.done then y else x in IsPhase term n all x' x'.main
  unless_done y x p =
      if-elim (λ (z : Pool). IsPhase term n all z z.main) s.done y x
        (λ b. let open_still = w.intact.0 in cc) (λ b. p)

  scan-IsPhase :
      (d : Dir)
      → s.locals i ≡ scanning d
      → IsPhase term n all (scan_dir term n i d s) (scan_dir term n i d s).main
  unfolding scan_dir take_dir opened_dir found_plain
  scan-IsPhase (ended true) e = give_up-IsPhase (ended true) e
  scan-IsPhase (ended false) e = unless_stuck (take_dir i s) (
      take-IsPhase (scanning (ended false)) s.dir_q e refl
        (take_dir-Working term n all small s w i lt (scanning (ended false)) e (inr refl)))
  scan-IsPhase (unknown rest) e = give_up-IsPhase (unknown rest) e
  scan-IsPhase (hidden rest) e =
      goes_on (scanning rest) (move i (scanning rest) s) refl refl
        (quiet term n all small s w i lt (scanning (hidden rest)) (scanning rest) e refl refl
          (omega arith) refl (omega arith) (λ t. omega arith) (omega arith))
        queue_less refl refl
  scan-IsPhase (closed rest) e =
      goes_on (scanning (set_errno rest)) (move i (scanning (set_errno rest)) s) refl refl
        (quiet term n all small s w i lt (scanning (closed rest)) (scanning (set_errno rest)) e refl
          refl (omega arith) (matching-set_errno term rest) (omega arith) (λ t. omega arith)
          (omega arith))
        queue_less refl refl
  scan-IsPhase (folder memory opened rest) e = unless_stuck (opened_dir n i memory opened rest s) (
      opened-IsPhase s.thread_q memory opened rest refl e
        (opened_dir-Working term n all small s w i lt memory opened rest e))
  scan-IsPhase (plain name rest) e =
      goes_on (scanning rest) (found_plain term i name rest s) refl refl
        (found_plain-Working term n all small s w i lt name rest e) queue_less refl refl

  -- A step of a thread while `main` waits for `all_sleep`.
  pub search-IsPhase :
      (l : Local)
      → s.locals i ≡ l
      → let s' = thread_func term memory n i l s in IsPhase term n all s' s'.main
  unfolding thread_func take_dir
  search-IsPhase fetching e = unless_stuck (take_dir i s) (
      take-IsPhase fetching s.dir_q e refl
        (take_dir-Working term n all small s w i lt fetching e (inl refl)))
  search-IsPhase (scanning d) e = scan-IsPhase d e
  search-IsPhase (handing to opened rest) e = hand-IsPhase to opened rest e
  search-IsPhase before_sleep e = unless_stuck (sleep i s) (sleep-IsPhase e)
  search-IsPhase (woken none) e =
      absurd (omega (arith, w.directed, le-total stray n i s.locals lt, ap stray e))
  search-IsPhase (woken (some d)) e =
      unless_stuck (if s.done then move i finished s else move i (scanning d) s) (
        unless_done (move i finished s) (move i (scanning d) s) (
          goes_on (scanning d) (move i (scanning d) s) refl refl
            (quiet term n all small s w i lt (woken (some d)) (scanning d) e refl refl (omega arith)
              refl (omega arith) (λ t. omega arith) (omega arith))
            queue_less refl refl))
  search-IsPhase starting e =
      absurd (omega (arith, counted_all, le-total fresh n i s.locals lt, ap fresh e))
  search-IsPhase preparing e =
      absurd (omega (arith, counted_all, le-total fresh n i s.locals lt, ap fresh e))
  search-IsPhase unborn e = unchanged
  search-IsPhase waiting_start e = unchanged
  search-IsPhase unstarted e = unchanged
  search-IsPhase asleep e = unchanged
  search-IsPhase finished e = unchanged
  search-IsPhase failed e = unchanged
  search-IsPhase crashed e = unchanged
