-- ===== src/Search/Pool/Result.antt =====
-- hw04/pfind.c: what the search prints, in every order of the steps of its threads and of `main`.
use operating_systems_git.Prelude.{zero, Bool, Bool-cases, true, false}
use operating_systems_git.Search.Pool.Parts.{sleeps}
use operating_systems_git.Threads.Sum.{total-const}
use operating_systems_git.Search.Pool.Parts.{not_born}
use operating_systems_git.Prelude.{
  ◌&&◌, ℕ, ◌≤◌, ◌<◌, ◌^◌, ◌≡◌, ◌≢◌, ◌⊎◌, inl, inr, refl, sym, arith, Option, none, some, false,
  true, List, [], ◌∷◌, ◌==◌, ltb, ltb→lt, if◌then◌else◌, ap, subst,
}
use operating_systems_git.Threads.Sum.{total, total-zero, total-zero-part}
use operating_systems_git.Threads.Schedule.{if-elim}
use operating_systems_git.Search.Queues.{failure}
use operating_systems_git.Search.Pool.{
  Dir, Local, unborn, crashed, Main, creating, locked, created, waiting_initialized,
  all_initialized, broadcasting, waiting_sleep, all_sleep, waking, joining, exits, faulted, prints,
  Pool,
}
use operating_systems_git.Search.Pool.Thread.{thread_func}
use operating_systems_git.Search.Pool.Program.{
  main_step, boot, has_exited, Answers, ends_at, start_at, start, Setting, turn, run, happens,
  Event, steps, wakes, SignalsOnly, ZeroedMemory,
}
use operating_systems_git.Search.Pool.Parts.{
  matching, work, hands, aims, early, inited, late, started, stray, busy,
}
use operating_systems_git.Search.Pool.Invariant.{IsPhase}
use operating_systems_git.Search.Pool.Ending.{thread-IsPhase}
use operating_systems_git.Search.Pool.Steps.{main-IsPhase}
use operating_systems_git.Search.Pool.Early.{differs}

-- The files to be found, none where the root cannot be opened.
abbrev pub matching_root : (term : List ℕ) → Option Dir → ℕ
matching_root term none = 0
matching_root term (some root) = matching term root

module _ (c : Setting) (all : ℕ) (pos : 1 ≤ c.num_of_threads) (small : all < 2 ^ 32) where
  abbrev Inv : Pool → Type 0
  Inv s = IsPhase c.search_term c.num_of_threads all s s.main

  pub turn-Inv : (i : ℕ) (s : Pool) → Inv s → Inv (turn c i s)
  unfolding turn
  turn-Inv i s inv =
      let n = c.num_of_threads in
      let next =
        if ltb i n
        then thread_func c.search_term c.memory n i (s.locals i) s
        else main_step c.can_create c.can_join n s.main s in
      if-elim Inv (has_exited s.main) s next (λ b. inv)
        (λ b.
          if-elim Inv (ltb i n) (thread_func c.search_term c.memory n i (s.locals i) s)
            (main_step c.can_create c.can_join n s.main s)
            (λ less.
              thread-IsPhase c.search_term c.memory n all small s s.main i (ltb→lt i n less) refl b
                inv)
            (λ over.
              main-IsPhase c.search_term c.can_create c.can_join n all small s s.main pos refl inv))

  pub run-Inv : (order : List Event) (s : Pool) → SignalsOnly order → Inv s → Inv (run c order s)
  unfolding run happens
  run-Inv [] s signals inv = inv
  run-Inv (steps i ∷ order) s signals inv = run-Inv order (turn c i s) signals (turn-Inv i s inv)
  run-Inv (wakes i ∷ order) s signals inv = absurd signals

no_room : (b : Bool) → (if b then 0 else 0) ≡ zero
no_room true = refl
no_room false = refl

boot-IsPhase :
    (c : Setting) (a : Answers) (root : Dir)
    → ZeroedMemory a
    → 1 ≤ c.num_of_threads
    → IsPhase c.search_term c.num_of_threads
        (matching c.search_term root)
        (boot a root)
        (creating 0)
boot-IsPhase c a root zeroed pos =
    let none_of = λ (f : Local → ℕ) (e : f unborn ≡ 0).
      total-zero f c.num_of_threads (λ _. unborn) (λ i lt. e) in
    (
      record {
        initialized = sym (none_of inited refl);
        failures = omega (arith, none_of early refl, none_of late refl);
        found = λ whole. omega (arith, none_of (work c.search_term) refl);
        queue = omega (arith, none_of hands refl, none_of sleeps refl);
        targets = λ t. omega (arith, none_of (aims t) refl, no_room (ltb t c.num_of_threads));
        directed = none_of stray refl;
        intact = (refl, zeroed.1, zeroed.2);
      },
      none_of started refl,
      pos,
      λ j le. refl,
      omega (arith, total-const not_born c.num_of_threads 1 (unborn) refl),
    )

start_at-IsPhase :
    (c : Setting) (a : Answers) (root : Option Dir)
    → ZeroedMemory a
    → 1 ≤ c.num_of_threads
    → let s = start_at a root in
      IsPhase c.search_term c.num_of_threads (matching_root c.search_term root) s s.main
unfolding start_at
start_at-IsPhase c a none zeroed pos = refl
start_at-IsPhase c a (some root) zeroed pos =
    let P =
      λ (s : Pool). IsPhase c.search_term c.num_of_threads (matching c.search_term root) s s.main in
    let own_memory =
      if a.threads_id_memory && a.thread_q_memory then boot a root else ends_at a (exits failure) in
    let first_entry = if a.entry_memory then own_memory else ends_at a (exits 0) in
    if-elim P a.dir_q_memory (if a.dir_q_len == 0 then first_entry else ends_at a faulted)
      (ends_at a (exits failure))
      (λ b.
        if-elim P (a.dir_q_len == 0) first_entry (ends_at a faulted)
          (λ b1.
            if-elim P a.entry_memory own_memory (ends_at a (exits 0))
              (λ b2.
                if-elim P (a.threads_id_memory && a.thread_q_memory) (boot a root)
                  (ends_at a (exits failure)) (λ b3. boot-IsPhase c a root zeroed pos) (λ b3. tt))
              (λ b2. tt))
          (λ b1. absurd (differs a.dir_q_len 0 b1 zeroed.0)))
      (λ b. tt)

pub start-IsPhase :
    (c : Setting) (a : Answers)
    → ZeroedMemory a
    → 1 ≤ c.num_of_threads
    → let s = start a in
      IsPhase c.search_term c.num_of_threads (matching_root c.search_term a.root) s s.main
unfolding start
start-IsPhase c a zeroed pos =
    if-elim
      (λ (s : Pool).
        IsPhase c.search_term c.num_of_threads (matching_root c.search_term a.root) s s.main)
      (a.argc == 4) (start_at a a.root) (ends_at a (exits failure))
      (λ b. start_at-IsPhase c a a.root zeroed pos) (λ b. tt)

-- Every state that the program comes to.
pub reached-IsPhase :
    (c : Setting) (a : Answers) (order : List Event)
    → ZeroedMemory a
    → SignalsOnly order
    → 1 ≤ c.num_of_threads
    → matching_root c.search_term a.root < 2 ^ 32
    → let s = run c order (start a) in
      IsPhase c.search_term c.num_of_threads (matching_root c.search_term a.root) s s.main
reached-IsPhase c a order zeroed signals pos small =
    run-Inv c (matching_root c.search_term a.root) pos small order (start a) signals
      (start-IsPhase c a zeroed pos)

-- Whatever order the threads and `main` step in, and whichever of the calls that may fail in the model
-- fail: when the program prints how many files it found, this is the number of files below the root
-- whose name has the search term, in the directories that can be opened. It is supposed that malloc
-- serves zeroed memory, that no wait ends without a signal, that there is a thread, and that this
-- number is below 2^32.
pub prints-matching :
    (c : Setting) (a : Answers) (order : List Event) (found status : ℕ)
    → ZeroedMemory a
    → SignalsOnly order
    → 1 ≤ c.num_of_threads
    → matching_root c.search_term a.root < 2 ^ 32
    → (run c order (start a)).main ≡ prints found status
    → found ≡ matching_root c.search_term a.root
prints-matching c a order found status zeroed signals pos small e =
    subst
      (IsPhase c.search_term c.num_of_threads (matching_root c.search_term a.root)
        (run c order (start a)))
      e (reached-IsPhase c a order zeroed signals pos small)

-- Before the end of the program.
phase-cases :
    (term : List ℕ) (n all : ℕ) (s : Pool) (m : Main)
    → has_exited m ≡ false
    → IsPhase term n all s m
    → ((s.done ≡ false) × (total stray n s.locals ≡ 0))
      ⊎ ((s.done ≡ true) × (total busy n s.locals ≡ 0))
phase-cases term n all s (creating i) e p = inl (p.0.intact.0, p.0.directed)
phase-cases term n all s locked e p = inl (p.0.intact.0, p.0.directed)
phase-cases term n all s created e p = inl (p.0.intact.0, p.0.directed)
phase-cases term n all s waiting_initialized e p = inl (p.0.intact.0, p.0.directed)
phase-cases term n all s all_initialized e p = inl (p.0.intact.0, p.0.directed)
phase-cases term n all s broadcasting e p = inl (p.0.intact.0, p.0.directed)
phase-cases term n all s waiting_sleep e p = inl (p.0.intact.0, p.0.directed)
phase-cases term n all s all_sleep e p = inl (p.0.intact.0, p.0.directed)
phase-cases term n all s (waking th) e p = inr (p.0, p.2)
phase-cases term n all s (joining k) e p = inr (p.0, p.2)
phase-cases term n all s (exits st) e p = cc
phase-cases term n all s faulted e p = absurd p
phase-cases term n all s (prints k st) e p = cc

not_crashed : (l : Local) → (stray l ≡ 0) ⊎ (busy l ≡ 0) → l ≢ crashed
not_crashed l (inl e) same = absurd (omega (arith, e, ap stray same))
not_crashed l (inr e) same = absurd (omega (arith, e, ap busy same))

no_fault : (term : List ℕ) (n all : ℕ) (s : Pool) → IsPhase term n all s s.main → s.main ≢ faulted
no_fault term n all s p e = subst (IsPhase term n all s) e p

-- In every order of steps: the program does not read through memory that was not set. Until it ends, no
-- thread has read the directory NULL, and `main` has not set `done` unless the thread has no directory
-- to scan or to hand on and is not about to look for one. It is supposed that malloc serves zeroed
-- memory, that no wait ends without a signal, that there is a thread, and that the number of files to be
-- found is below 2^32.
pub no_null_dir :
    (c : Setting) (a : Answers) (order : List Event) (i : ℕ)
    → ZeroedMemory a
    → SignalsOnly order
    → 1 ≤ c.num_of_threads
    → matching_root c.search_term a.root < 2 ^ 32
    → i < c.num_of_threads
    → let s = run c order (start a) in
      (s.main ≢ faulted)
      × ((has_exited s.main ≡ true)
          ⊎ ((s.locals i ≢ crashed) × ((s.done ≡ false) ⊎ (busy (s.locals i) ≡ 0))))
no_null_dir c a order i zeroed signals pos small lt =
    let n = c.num_of_threads in
    let all = matching_root c.search_term a.root in
    let s = run c order (start a) in
    let p = reached-IsPhase c a order zeroed signals pos small in
    (
      no_fault c.search_term n all s p,
      elim (Bool-cases (has_exited s.main)) [
        | inl over ↦ inl over
        | inr going ↦ elim (phase-cases c.search_term n all s s.main going p) [
          | inl (open_still, none_stray) ↦ inr (
            not_crashed (s.locals i) (inl (total-zero-part stray n i s.locals none_stray lt)),
            inl open_still,
          )
          | inr (over, idle) ↦
              let own = total-zero-part busy n i s.locals idle lt in
              inr (not_crashed (s.locals i) (inr own), inr own)
        ]
      ],
    )
