-- ===== src/Search/Pool/Tests.antt =====
-- The theorems of the search at two threads and a small tree.
use operating_systems_git.Prelude.{
  ℕ, zero, suc, ◌≡◌, ◌≢◌, ◌⊎◌, refl, arith, true, false, some, List, [], ◌∷◌, ◌++◌,
}
use operating_systems_git.Search.Scan.{strstr, starts_with}
use operating_systems_git.Search.Pool.{Dir, ended, hidden, folder, plain, prints, faulted, crashed}
use operating_systems_git.Search.Pool.Thread.{
  give_up, not_started, prepare, take_from, take_dir, opened_for, opened_dir, hand_to, found_plain,
  sleep, scan_dir, thread_func,
}
use operating_systems_git.Search.Pool.Program.{
  create_thread, join_thread, main_step, start_at, start, Answers, Setting, turn, run, happens,
  in_order, has_exited,
}
use operating_systems_git.Search.Pool.Parts.{busy}
use operating_systems_git.Search.Pool.Liveness.{granted, search_ends}
use operating_systems_git.Search.Pool.Result.{matching_root, prints-matching, no_null_dir}

-- A root with a file that matches, a directory with another one, and a file that does not match.
abbrev inner : Dir
inner = plain (b'b' ∷ b'a' ∷ []) (ended false)

abbrev tree : Dir
tree = hidden (plain (b'a' ∷ []) (folder true inner (plain (b'c' ∷ []) (ended false))))

abbrev two_threads : Setting
two_threads = record {
  search_term = b'a' ∷ [];
  num_of_threads = 2;
  memory = λ _. true;
  can_create = λ _. true;
  can_join = λ _. true;
}

abbrev all_served : Answers
all_served = record {
  argc = 4;
  root = some tree;
  dir_q_memory = true;
  entry_memory = true;
  threads_id_memory = true;
  thread_q_memory = true;
  dir_q_len = 0;
  entry_next = 0;
  thread_q_first = 0;
}

-- `main` and the two threads in turn, often enough.
abbrev rounds : ℕ → List ℕ
rounds zero = []
rounds (suc k) = 2 ∷ 0 ∷ 1 ∷ rounds k

prints-matching_example : 2 ≡ matching_root (b'a' ∷ []) (some tree)
unfolding run happens turn start start_at main_step create_thread join_thread thread_func
    not_started prepare take_dir take_from hand_to sleep scan_dir give_up opened_dir opened_for
    found_plain strstr starts_with
prints-matching_example =
    prints-matching two_threads all_served (in_order (rounds 24)) 2 0 (refl, refl, refl) tt
      (omega arith) (omega arith) refl

no_null_dir_example :
    let s = run two_threads (in_order (rounds 8)) (start all_served) in
    (s.main ≢ faulted)
    × ((has_exited s.main ≡ true)
        ⊎ ((s.locals 1 ≢ crashed) × ((s.done ≡ false) ⊎ (busy (s.locals 1) ≡ 0))))
unfolding strstr starts_with
no_null_dir_example =
    no_null_dir two_threads all_served (in_order (rounds 8)) 1 (refl, refl, refl) tt (omega arith)
      (omega arith) (omega arith)

search_ends_example :
    (more : List ℕ) × (status : ℕ) × ((run two_threads
        (in_order (rounds 5) ++ in_order more)
        (start (granted tree))).main
      ≡ prints 2 status)
unfolding strstr starts_with
search_ends_example =
    search_ends two_threads tree (in_order (rounds 5)) tt (λ i. refl) (λ i. refl) (λ i. refl) refl
      (omega arith) (omega arith)
