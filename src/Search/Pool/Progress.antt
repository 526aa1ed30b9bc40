-- ===== src/Search/Pool/Progress.antt =====
-- hw04/pfind.c: where no call fails, the search comes to its end.
use operating_systems_git.Search.Pool.Weight.{faults-ended}
use operating_systems_git.Search.Pool.Signals.{not_less}
use operating_systems_git.Prelude.{
  ℕ, ◌≤◌, ◌<◌, ◌≡◌, ◌⊎◌, inl, inr, refl, sym, ap, arith, true, false, Bool-cases,
}
use operating_systems_git.Threads.Sum.{total}
use operating_systems_git.Search.Pool.{Local, Main, Pool, holds_initializer}
use operating_systems_git.Search.Pool.Thread.{thread_func}
use operating_systems_git.Search.Pool.Parts.{moving, stray}
use operating_systems_git.Search.Pool.Weight.{faults, Healthy}
use operating_systems_git.Prelude.{subst, ltb, ltb→lt, lt→ltb, le→ltb, ℕ_discrete}
use operating_systems_git.Threads.Sum.{total_mono_two, total-zero}
use operating_systems_git.Search.Pool.{
  creating, locked, created, waiting_initialized, all_initialized, broadcasting, waiting_sleep,
  all_sleep, waking, joining, exits, faulted, prints,
}
use operating_systems_git.Search.Pool.Program.{has_ended, main_step}
use operating_systems_git.Search.Pool.Parts.{busy, early, sleeps}
use operating_systems_git.Search.Pool.Invariant.{IsPhase}
use operating_systems_git.Search.Pool.Better.{Better}
use operating_systems_git.Threads.Sum.{
  positive-total, total-classes, le_total_three, total-zero-part, total_mono,
}
use operating_systems_git.Search.Pool.Program.{Setting, turn, has_exited}
use operating_systems_git.Search.Pool.Parts.{fresh, inited, not_born, parked, hands}
use operating_systems_git.Search.Pool.Classes.{one_class, moving-hands}
use operating_systems_git.Search.Pool.Closer.{HasToWait, thread-Better}
use operating_systems_git.Search.Pool.Further.{Waits, main-Better}
use operating_systems_git.Search.Pool.Rest.{fresh-moving, one_of, ended_of, phase-Working, others}

module _ (c : Setting) (memory : (i : ℕ) → c.memory i ≡ true)
    (can_create : (i : ℕ) → c.can_create i ≡ true) (can_join : (i : ℕ) → c.can_join i ≡ true)
    (all : ℕ) (pos : 1 ≤ c.num_of_threads) where
  abbrev n : ℕ
  n = c.num_of_threads

  module _ (s : Pool) (h : Healthy n s) (p : IsPhase c.search_term n all s s.main)
      (going : has_exited s.main ≡ false) where
    turn-thread :
        (i : ℕ) → i < n → turn c i s ≡ thread_func c.search_term c.memory n i (s.locals i) s
    unfolding turn
    turn-thread i lt = rw (going, lt→ltb i n lt) refl

    turn-main : (i : ℕ) → n ≤ i → turn c i s ≡ main_step c.can_create c.can_join n s.main s
    unfolding turn
    turn-main i le = rw (going, le→ltb i n le) refl

    thread_at :
        (i : ℕ)
        → i < n
        → ((thread_func c.search_term c.memory n i (s.locals i) s ≡ s) × HasToWait s (s.locals i))
          ⊎ Better n s (thread_func c.search_term c.memory n i (s.locals i) s)
    thread_at i lt =
        thread-Better c.search_term c.memory memory n all s h
          (phase-Working c.search_term n all s s.main going p) i lt (s.locals i) refl

    main_at :
        ((main_step c.can_create c.can_join n s.main s ≡ s)
          × Waits c.search_term c.can_create can_create c.can_join can_join n all s h s.main)
        ⊎ Better n s (main_step c.can_create c.can_join n s.main s)
    main_at =
        main-Better c.search_term c.can_create can_create c.can_join can_join n all s h s.main refl
          pos p

    pub turn-Healthy : (i : ℕ) → Healthy n (turn c i s)
    turn-Healthy i = elim (Bool-cases (ltb i n)) [
      | inl b ↦
          let lt = ltb→lt i n b in
          subst (Healthy n) (sym (turn-thread i lt)) (elim (thread_at i lt) [
            | inl (same, waits) ↦ subst (Healthy n) (sym same) h
            | inr better_now ↦ better_now.healthy
          ])
      | inr b ↦ subst (Healthy n) (sym (turn-main i (not_less i n b))) (elim main_at [
        | inl (same, waits) ↦ subst (Healthy n) (sym same) h
        | inr better_now ↦ better_now.healthy
      ])
    ]

    -- A thread that can step.
    thread_next :
        (i : ℕ)
        → i < n
        → 1 ≤ moving (s.locals i)
        → holds_initializer s.main ≡ false
        → (j : ℕ) × Better n s (turn c j s)
    thread_next i lt moves free = elim (thread_at i lt) [
      | inl (same, inl none_moves) ↦ absurd (omega (arith, moves, none_moves))
      | inl (same, inr busy_there) ↦ cc
      | inr better_now ↦ (i, subst (Better n s) (sym (turn-thread i lt)) better_now)
    ]

    some_thread :
        1 ≤ total moving n s.locals
        → holds_initializer s.main ≡ false
        → (j : ℕ) × Better n s (turn c j s)
    some_thread more free =
        let (i, lt, moves) = positive-total moving n s.locals more in thread_next i lt moves free

    no_early : total early n s.locals ≡ 0
    no_early = omega (
      arith,
      h.faultless,
      total_mono early faults (λ l. omega (arith, faults-ended l)) n s.locals,
    )

    first_waits : IsPhase c.search_term n all s waiting_initialized → 1 ≤ total moving n s.locals
    first_waits (w, nobody, count, more) = omega (
      arith,
      more no_early,
      count,
      total_mono_two fresh (λ _. 0) moving not_born (λ l. omega (arith, fresh-moving l)) n s.locals,
    )

    sum_zero : (f : Local → ℕ) → total f n s.locals ≡ 0 → (i : ℕ) → i < n → f (s.locals i) ≡ 0
    sum_zero f none_of i lt = total-zero-part f n i s.locals none_of lt

    search_waits : IsPhase c.search_term n all s waiting_sleep → 1 ≤ total moving n s.locals
    search_waits (w, past, act, queue_less, none_parked) =
        elim (ℕ_discrete (total moving n s.locals) 0) [
          | yes still_all ↦
              let nothing : total others n s.locals ≡ 0 = total-zero others n s.locals (λ i lt.
                omega (
                  arith,
                  sum_zero fresh past i lt,
                  sum_zero parked none_parked i lt,
                  sum_zero faults (omega (arith, h.faultless)) i lt,
                  sum_zero stray w.directed i lt,
                )) in
              absurd (
                omega (
                  arith,
                  still_all,
                  nothing,
                  w.queue,
                  w.initialized,
                  queue_less,
                  le_total_three moving sleeps others one_of n s.locals,
                  total_mono hands moving moving-hands n s.locals,
                  total-classes fresh inited early one_class n s.locals,
                ))
          | no some_move ↦ omega (arith, some_move)
        ]

    join_waits :
        (i : ℕ)
        → IsPhase c.search_term n all s (joining i)
        → (i < n) × (has_ended (s.locals i) ≡ false)
        → 1 ≤ total moving n s.locals
    join_waits i (over, found, idle, awake_all) (lt, waits) =
        elim (ℕ_discrete (total moving n s.locals) 0) [
          | yes still_all ↦
              let has_ended_now =
                ended_of (s.locals i) (sum_zero busy idle i lt) (awake_all i lt)
                  (sum_zero moving still_all i lt) in
              cc
          | no some_move ↦ omega (arith, some_move)
        ]

    unblocked :
        (m : Main)
        → s.main ≡ m
        → IsPhase c.search_term n all s m
        → Waits c.search_term c.can_create can_create c.can_join can_join n all s h m
        → (j : ℕ) × Better n s (turn c j s)
    unblocked waiting_initialized at q waits = some_thread (first_waits q) (ap holds_initializer at)
    unblocked waiting_sleep at q waits = some_thread (search_waits q) (ap holds_initializer at)
    unblocked (joining i) at q waits = some_thread (join_waits i q waits) (ap holds_initializer at)
    unblocked (prints k st) at q waits = let over = ap has_exited at in cc
    unblocked (creating i) at q waits = absurd waits
    unblocked locked at q waits = absurd waits
    unblocked created at q waits = absurd waits
    unblocked all_initialized at q waits = absurd waits
    unblocked broadcasting at q waits = absurd waits
    unblocked all_sleep at q waits = absurd waits
    unblocked (waking ts) at q waits = absurd waits
    unblocked (exits st) at q waits = absurd waits
    unblocked faulted at q waits = absurd waits

    -- Until the program has ended, some step brings it closer to its end.
    pub next_step : (j : ℕ) × Better n s (turn c j s)
    next_step = elim main_at [
      | inl (same, waits) ↦ unblocked s.main refl p waits
      | inr better_now ↦ (n, subst (Better n s) (sym (turn-main n (omega arith))) better_now)
    ]
