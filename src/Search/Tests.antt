-- ===== src/Search/Tests.antt =====
-- The theorems at a queue that holds the thread 1, and at an empty queue of directories.
use operating_systems_git.Prelude.{ℕ, ◌≡◌, refl, arith, some, none, false, List, ◌∷◌, [], ◌++◌}
use operating_systems_git.Run.{ok}
use operating_systems_git.Search.State.{Ptr, DirEntry, ThreadEntry, Search}
use operating_systems_git.Search.Queues.{
  comes_back, enqueue_dir, dequeue_dir, enqueue_thread, dequeue_thread,
}
use operating_systems_git.Search.Line.{IsQueue}
use operating_systems_git.Search.Threads.{enqueue-IsQueue, dequeue-IsQueue, dequeue_empty}
use operating_systems_git.Search.Scan.{Dirent, other, found_dir, scan_dir}
use operating_systems_git.Search.Handover.{found_dir-handed}
use operating_systems_git.Search.Dirs.{enqueue-dequeue}

abbrev sleeper : ThreadEntry
sleeper = record { my_condition_variable = 9; dir = 0; path = []; next = 0 }

abbrev idle : Search
idle = record {
  dirs = λ _. none;
  threads = λ _. some sleeper;
  dir_q = record { first = 0; last = 0; len = 0 };
  thread_q = record { first = 0; last = 0; len = 0 };
  status = 0;
  num_of_threads = 2;
  threads_failed = 0;
  all_sleep_signalled = 0;
  num_of_files_found = 0;
  printed = [];
  woken = [];
}

abbrev one_asleep : Search
one_asleep = record idle { thread_q = record { first = 1; last = 1; len = 1 } }

abbrev line_of_one : List Ptr
line_of_one = 1 ∷ []

one_asleep-IsQueue : IsQueue one_asleep line_of_one
one_asleep-IsQueue = record {
  line = (refl, omega arith, sleeper, refl, refl);
  size = refl;
  ends = refl;
  distinct = (tt, tt);
  fits = omega arith;
}

idle-IsQueue : IsQueue idle []
idle-IsQueue = record { line = refl; size = refl; ends = tt; distinct = tt; fits = omega arith }

enqueue-IsQueue_example :
    (u : Search) × (enqueue_thread 2 one_asleep ≡ ok tt u) × IsQueue u (line_of_one ++ (2 ∷ []))
enqueue-IsQueue_example =
    enqueue-IsQueue line_of_one 2 one_asleep-IsQueue (omega arith) refl refl (omega arith, tt)
      (omega arith)

dequeue-IsQueue_example :
    (u : Search) × (dequeue_thread one_asleep ≡ ok 1 u)
    × IsQueue u []
    × (u ≡ record one_asleep { thread_q = u.thread_q })
dequeue-IsQueue_example = dequeue-IsQueue 1 [] one_asleep-IsQueue

dequeue_empty_runs : dequeue_thread idle ≡ ok 0 idle
dequeue_empty_runs = dequeue_empty idle-IsQueue

abbrev garbage : DirEntry
garbage = record { dir = 0; path = []; next = 77 }

enqueue-dequeue_example :
    (t : Search) × (u : Search) × (enqueue_dir (some (5, garbage)) 3 (b'/' ∷ []) idle
      ≡ ok comes_back t)
    × (dequeue_dir t ≡ ok 5 u)
    × (u.dirs 5 ≡ some (record garbage { dir = 3; path = b'/' ∷ [] }))
    × (u.dir_q.len ≡ 0)
    × (u.dir_q.first ≡ 77)
enqueue-dequeue_example = enqueue-dequeue idle 5 garbage 3 (b'/' ∷ []) refl (omega arith)

found_dir-handed_example :
    (n : ThreadEntry) × (u : Search) × (some sleeper ≡ some n)
    × (found_dir none 3 (b'/' ∷ []) one_asleep ≡ ok comes_back u)
    × IsQueue u []
    × (u.threads 1 ≡ some (record n { dir = 3; path = b'/' ∷ [] }))
    × (u.woken ≡ n.my_condition_variable ∷ [])
found_dir-handed_example = found_dir-handed none 3 (b'/' ∷ []) 1 [] one_asleep-IsQueue

-- A directory that holds `.`, `a` and `b.c`, searched for `b.` by thread 1: one file is found.
abbrev file : List ℕ → Dirent
file name = record { d_name = name; kind = other; malloc = none }

scan_dir_runs :
    scan_dir
      (b'b' ∷ b'.' ∷ [])
      1
      (file (b'.' ∷ []) ∷ file (b'a' ∷ []) ∷ file (b'b' ∷ b'.' ∷ b'c' ∷ []) ∷ [])
      false
      idle
    ≡ ok
        (comes_back, 0)
        (record idle { num_of_files_found = 1; printed = (b'b' ∷ b'.' ∷ b'c' ∷ []) ∷ [] })
unfolding scan_dir
scan_dir_runs = refl
