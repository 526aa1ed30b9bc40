-- ===== src/Search/Pool/Waiting.antt =====
-- hw04/pfind.c: a step of a thread keeps what holds at each place of `main`.
use operating_systems_git.Search.Pool.Early.{EarlyStep}
use operating_systems_git.Prelude.{
  ◌≤◌, ℕ, ◌+◌, ◌<◌, ◌^◌, ◌≡◌, ◌⊎◌, inl, inr, refl, sym, ◌∙◌, arith, none, some, Bool, false,
  Bool-cases, List, ◌==◌, update, ap, ℕ_discrete, ne→==, ==_iff, subst,
}
use operating_systems_git.Threads.Sum.{
  total, total-update, le-total, total_mono, total-classes, total-zero-part,
}
use operating_systems_git.Search.Pool.{
  Local, unborn, starting, preparing, waiting_start, unstarted, fetching, scanning, handing,
  before_sleep, asleep, woken, finished, failed, crashed, Pool, holds_initializer, move,
}
use operating_systems_git.Search.Pool.Thread.{not_started, prepare, thread_func}
use operating_systems_git.Search.Pool.Parts.{fresh, early, inited, not_born, late, started, moving}
use operating_systems_git.Search.Pool.Classes.{one_class, started-late}
use operating_systems_git.Search.Pool.Invariant.{Working, IsPhase, AreUnborn}
use operating_systems_git.Search.Pool.Keeps.{quiet, not_started-Working, prepare-Working}
use operating_systems_git.Search.Pool.Early.{still, differs}

module _ (term : List ℕ) (memory : ℕ → Bool) (n all : ℕ) (small : all < 2 ^ 32) where
  -- Where no thread can move, a step of a thread changes nothing.
  pub frozen :
      (s : Pool) (i : ℕ)
      → i < n
      → total moving n s.locals ≡ 0
      → IsPhase term n all s s.main
      → let s' = thread_func term memory n i (s.locals i) s in IsPhase term n all s' s'.main
  frozen s i lt nobody p =
      subst (λ x. IsPhase term n all x x.main)
        (sym (still term memory n i (s.locals i) s (total-zero-part moving n i s.locals nobody lt)))
        p

  -- Where as many threads as there are have been counted, none is left to be counted.
  pub counted :
      (s : Pool)
      → Working term n all s
      → total started n s.locals ≡ 0
      → (s.threads_initialized + s.threads_failed ≡ n) ⊎ (s.threads_failed ≡ n)
      → total fresh n s.locals ≡ 0
  counted s w nobody (inl full) = omega (
    arith,
    w.initialized,
    w.failures,
    full,
    nobody,
    total_mono late started started-late n s.locals,
    total-classes fresh inited early one_class n s.locals,
  )
  counted s w nobody (inr full) = omega (
    arith,
    w.initialized,
    w.failures,
    full,
    nobody,
    total_mono late started started-late n s.locals,
    total-classes fresh inited early one_class n s.locals,
  )

  still_coming :
      (s : Pool)
      → Working term n all s
      → total started n s.locals ≡ 0
      → (s.threads_initialized + s.threads_failed == n) ≡ false
      → 1 ≤ total fresh n s.locals
  still_coming s w nobody some_left = omega (
    arith,
    w.initialized,
    w.failures,
    nobody,
    differs (s.threads_initialized + s.threads_failed) n some_left,
    total_mono late started started-late n s.locals,
    total-classes fresh inited early one_class n s.locals,
  )

  module _ (s : Pool) (w : Working term n all s) (nobody : total started n s.locals ≡ 0) (i : ℕ)
      (lt : i < n) where
    nobody_yet :
        (l l' : Local) (s' : Pool)
        → s.locals i ≡ l
        → s'.locals ≡ update s.locals i l'
        → started l' ≡ 0
        → total started n s'.locals ≡ 0
    nobody_yet l l' s' e same waits =
        omega
          (arith, nobody, waits, total-update started n i s.locals l' lt, ap (total started n) same)

    unborn_still :
        (l l' : Local) (s' : Pool)
        → s.locals i ≡ l
        → moving l ≡ 1
        → s'.locals ≡ update s.locals i l'
        → (k : ℕ) → AreUnborn k s
        → AreUnborn k s'
    unborn_still l l' s' e born same k all_unborn j le = elim (ℕ_discrete j i) [
      | yes at ↦
          absurd (omega (arith, born, ap moving (sym e ∙ ap s.locals (sym at) ∙ all_unborn j le)))
      | no ne ↦ rw (same, ne→== j i ne) (all_unborn j le)
    ]

    no_step : EarlyStep term n all s s
    no_step = record {
      working = w;
      nobody = nobody;
      unborn_kept = λ k u. u;
      same_born = refl;
      early_kept = omega arith;
      fires = false;
      coming = λ none_early more. inl more;
      all_there = λ b. cc;
      main_now = refl;
    }

    prepare_step :
        s.locals i ≡ preparing
        → holds_initializer s.main ≡ false
        → EarlyStep term n all s (prepare n i s)
    unfolding prepare
    prepare_step e free =
        let after = prepare-Working term n all small s w i lt e in
        let waits = nobody_yet preparing waiting_start (prepare n i s) e refl refl in
        record {
          working = after;
          nobody = waits;
          unborn_kept = unborn_still preparing waiting_start (prepare n i s) e refl refl;
          same_born =
              omega (arith, total-update not_born n i s.locals waiting_start lt, ap not_born e);
          early_kept = omega (arith, total-update early n i s.locals waiting_start lt, ap early e);
          fires = s.threads_initialized + 1 + s.threads_failed == n;
          coming = λ none_early more.
              elim (Bool-cases (s.threads_initialized + 1 + s.threads_failed == n)) [
                | inl b ↦ inr (b, free)
                | inr b ↦ inl (still_coming (prepare n i s) after waits b)
              ];
          all_there = λ b.
              counted (prepare n i s) after waits
                (inl ((==_iff (s.threads_initialized + 1 + s.threads_failed) n).0 b));
          main_now = refl;
        }

    not_started_step : s.locals i ≡ starting → EarlyStep term n all s (not_started n i s)
    unfolding not_started
    not_started_step e =
        let after = not_started-Working term n all small s w i lt e in
        let waits = nobody_yet starting unstarted (not_started n i s) e refl refl in
        record {
          working = after;
          nobody = waits;
          unborn_kept = unborn_still starting unstarted (not_started n i s) e refl refl;
          same_born = omega (arith, total-update not_born n i s.locals unstarted lt, ap not_born e);
          early_kept = omega (arith, total-update early n i s.locals unstarted lt, ap early e);
          fires = s.threads_failed + 1 == n;
          coming = λ none_early more.
              absurd (
                omega
                  (arith, none_early, total-update early n i s.locals unstarted lt, ap early e));
          all_there = λ b.
              counted (not_started n i s) after waits (inr ((==_iff (s.threads_failed + 1) n).0 b));
          main_now = refl;
        }

    allocated_step : s.locals i ≡ starting → EarlyStep term n all s (move i preparing s)
    allocated_step e = record {
      working =
          quiet term n all small s w i lt starting preparing e refl refl (omega arith) refl
            (omega arith) (λ t. omega arith) (omega arith);
      nobody = nobody_yet starting preparing (move i preparing s) e refl refl;
      unborn_kept = unborn_still starting preparing (move i preparing s) e refl refl;
      same_born = omega (arith, total-update not_born n i s.locals preparing lt, ap not_born e);
      early_kept = omega (arith, total-update early n i s.locals preparing lt, ap early e);
      fires = false;
      coming = λ none_early more.
          inl (omega (arith, more, total-update fresh n i s.locals preparing lt, ap fresh e));
      all_there = λ b. cc;
      main_now = refl;
    }

    pub early_step :
        (l : Local) → s.locals i ≡ l → EarlyStep term n all s (thread_func term memory n i l s)
    unfolding thread_func
    early_step starting e = elim (Bool-cases (memory i)) [
      | inl served ↦ rw served (allocated_step e)
      | inr refused ↦ rw refused (not_started_step e)
    ]
    early_step preparing e = elim (Bool-cases (holds_initializer s.main)) [
      | inl busy_there ↦ rw busy_there no_step
      | inr free ↦ rw free (prepare_step e free)
    ]
    early_step unborn e = no_step
    early_step waiting_start e = no_step
    early_step unstarted e = no_step
    early_step asleep e = no_step
    early_step finished e = no_step
    early_step failed e = no_step
    early_step crashed e = no_step
    early_step fetching e =
        absurd (omega (arith, le-total started n i s.locals lt, ap started e, nobody))
    early_step (scanning d) e =
        absurd (omega (arith, le-total started n i s.locals lt, ap started e, nobody))
    early_step (handing to o r) e =
        absurd (omega (arith, le-total started n i s.locals lt, ap started e, nobody))
    early_step before_sleep e =
        absurd (omega (arith, le-total started n i s.locals lt, ap started e, nobody))
    early_step (woken none) e =
        absurd (omega (arith, le-total started n i s.locals lt, ap started e, nobody))
    early_step (woken (some d)) e =
        absurd (omega (arith, le-total started n i s.locals lt, ap started e, nobody))
