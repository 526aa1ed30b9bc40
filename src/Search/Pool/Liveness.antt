-- ===== src/Search/Pool/Liveness.antt =====
-- hw04/pfind.c: where no call fails, the search prints what it found.
use operating_systems_git.Prelude.{
  ℕ, ◌≤◌, ◌<◌, ◌≡◌, inl, inr, refl, sym, ◌∙◌, ap, arith, true, false, Bool-cases, some, List, [],
  ◌∷◌, ◌++◌, ◌^◌,
}
use operating_systems_git.Search.Pool.{Dir, unborn, Main, Pool}
use operating_systems_git.Search.Pool.Weight.{faulty, faults, gives_up, Healthy, measure}
use operating_systems_git.Prelude.{subst, suc, zero}
use operating_systems_git.Threads.Sum.{total-zero}
use operating_systems_git.Search.Pool.{
  creating, locked, created, waiting_initialized, all_initialized, broadcasting, waiting_sleep,
  all_sleep, waking, joining, exits, faulted, prints,
}
use operating_systems_git.Search.Pool.Invariant.{IsPhase}
use operating_systems_git.Search.Pool.Program.{
  Answers, Setting, start, start_at, boot, run, turn, has_exited, happens, Event, steps, wakes,
  in_order, SignalsOnly,
}
use operating_systems_git.Search.Pool.Parts.{matching}
use operating_systems_git.Search.Pool.Result.{turn-Inv, run-Inv, start-IsPhase}
use operating_systems_git.Search.Pool.Progress.{turn-Healthy, next_step}

run-append :
    (c : Setting) (is js : List Event) (s : Pool) → run c (is ++ js) s ≡ run c js (run c is s)
unfolding run
run-append c [] js s = refl
run-append c (e ∷ is) js s = run-append c is js (happens c e s)

in_order-SignalsOnly : (is : List ℕ) → SignalsOnly (in_order is)
in_order-SignalsOnly [] = tt
in_order-SignalsOnly (i ∷ is) = in_order-SignalsOnly is

stays : (c : Setting) (i : ℕ) (s : Pool) → has_exited s.main ≡ true → turn c i s ≡ s
unfolding turn
stays c i s over = rw over refl

printed_of :
    (m : Main)
    → has_exited m ≡ true
    → gives_up m ≡ false
    → (found : ℕ) × (status : ℕ) × (m ≡ prints found status)
printed_of (prints found status) e g = (found, status, refl)
printed_of (creating i) e g = cc
printed_of locked e g = cc
printed_of created e g = cc
printed_of waiting_initialized e g = cc
printed_of all_initialized e g = cc
printed_of broadcasting e g = cc
printed_of waiting_sleep e g = cc
printed_of all_sleep e g = cc
printed_of (waking th) e g = cc
printed_of (joining k) e g = cc
printed_of (exits st) e g = cc
printed_of faulted e g = cc

module _ (c : Setting) (memory : (i : ℕ) → c.memory i ≡ true)
    (can_create : (i : ℕ) → c.can_create i ≡ true) (can_join : (i : ℕ) → c.can_join i ≡ true)
    (all : ℕ) (pos : 1 ≤ c.num_of_threads) (small : all < 2 ^ 32) where
  abbrev Inv : Pool → Type 0
  Inv s = IsPhase c.search_term c.num_of_threads all s s.main

  turn_keeps :
      (i : ℕ) (s : Pool)
      → Inv s
      → Healthy c.num_of_threads s
      → Healthy c.num_of_threads (turn c i s)
  turn_keeps i s p h = elim (Bool-cases (has_exited s.main)) [
    | inl over ↦ subst (Healthy c.num_of_threads) (sym (stays c i s over)) h
    | inr going ↦ turn-Healthy c memory can_create can_join all pos s h p going i
  ]

  run_keeps :
      (es : List Event) (s : Pool)
      → SignalsOnly es
      → Inv s
      → Healthy c.num_of_threads s
      → Healthy c.num_of_threads (run c es s)
  unfolding run happens
  run_keeps [] s signals p h = h
  run_keeps (steps i ∷ es) s signals p h =
      run_keeps es (turn c i s) signals (turn-Inv c all pos small i s p) (turn_keeps i s p h)
  run_keeps (wakes i ∷ es) s signals p h = absurd signals

  comes_to_end :
      (fuel : ℕ) (s : Pool)
      → Inv s
      → Healthy c.num_of_threads s
      → measure c.num_of_threads s < fuel
      → (more : List ℕ) × (has_exited (run c (in_order more) s).main ≡ true)
  unfolding run happens
  comes_to_end zero s p h enough = absurd (omega (arith, enough))
  comes_to_end (suc fuel) s p h enough = elim (Bool-cases (has_exited s.main)) [
    | inl over ↦ ([], over)
    | inr going ↦
        let (j, better_now) = next_step c memory can_create can_join all pos s h p going in
        let (more, over) =
          comes_to_end fuel (turn c j s) (turn-Inv c all pos small j s p) better_now.healthy
            (omega (arith, enough, better_now.less)) in
        (j ∷ more, over)
  ]

  prints_at_end :
      (s : Pool)
      → Inv s
      → Healthy c.num_of_threads s
      → (more : List ℕ) × (status : ℕ) × ((run c (in_order more) s).main ≡ prints all status)
  prints_at_end s p h =
      let (more, over) = comes_to_end (suc (measure c.num_of_threads s)) s p h (omega arith) in
      let last = run c (in_order more) s in
      let signals = in_order-SignalsOnly more in
      let (found, status, e) =
        printed_of last.main over (run_keeps (in_order more) s signals p h).going in
      let same : found ≡ all =
        subst (IsPhase c.search_term c.num_of_threads all last) e
          (run-Inv c all pos small (in_order more) s signals p) in
      (more, status, e ∙ ap (λ (k : ℕ). prints k status) same)

-- Every call of `main` before its first thread is served, with zeroed memory.
abbrev pub granted : (root : Dir) → Answers
granted root = record {
  argc = 4;
  root = some root;
  dir_q_memory = true;
  entry_memory = true;
  threads_id_memory = true;
  thread_q_memory = true;
  dir_q_len = 0;
  entry_next = 0;
  thread_q_first = 0;
}

boot-Healthy : (n : ℕ) (root : Dir) → faulty root ≡ 0 → Healthy n (boot (granted root) root)
boot-Healthy n root sound = record {
  faultless = omega (arith, sound, total-zero faults n (λ _. unborn) (λ i lt. refl));
  open_queues = (refl, refl, refl);
  going = refl;
}

-- The search does not come to a stop: where no call fails, also no opendir, whatever steps were made,
-- more of them bring the program to print the number of files below the root whose name has the search
-- term. It is supposed that malloc serves zeroed memory, that no wait ended without a signal, that
-- there is a thread, and that this number is below 2^32.
pub search_ends :
    (c : Setting) (root : Dir) (order : List Event)
    → SignalsOnly order
    → ((i : ℕ) → c.memory i ≡ true)
    → ((i : ℕ) → c.can_create i ≡ true)
    → ((i : ℕ) → c.can_join i ≡ true)
    → faulty root ≡ 0
    → 1 ≤ c.num_of_threads
    → matching c.search_term root < 2 ^ 32
    → (more : List ℕ) × (status : ℕ) × ((run c (order ++ in_order more) (start (granted root))).main
        ≡ prints (matching c.search_term root) status)
unfolding start start_at
search_ends c root order signals memory can_create can_join sound pos small =
    let all = matching c.search_term root in
    let from = boot (granted root) root in
    let first = start-IsPhase c (granted root) (refl, refl, refl) pos in
    let s = run c order from in
    let healthy =
      run_keeps c memory can_create can_join all pos small order from signals first
        (boot-Healthy c.num_of_threads root sound) in
    let (more, status, e) =
      prints_at_end c memory can_create can_join all pos small s
        (run-Inv c all pos small order from signals first) healthy in
    (more, status, ap (λ (x : Pool). x.main) (run-append c order (in_order more) from) ∙ e)
