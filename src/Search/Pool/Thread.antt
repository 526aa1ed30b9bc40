-- ===== src/Search/Pool/Thread.antt =====
-- hw04/pfind.c: a step of a thread, in `thread_func` and in the calls of `scan_dir`.
use operating_systems_git.Prelude.{
  ℕ, ◌+◌, ◌%◌, ◌^◌, none, some, Bool, true, false, List, [], ◌∷◌, ◌++◌, ◌==◌, if◌then◌else◌, update,
  length,
}
use operating_systems_git.Search.Queues.{failure}
use operating_systems_git.Search.Scan.{strstr}
use operating_systems_git.Search.Pool.{
  Dir, ended, hidden, unknown, closed, folder, plain, Local, starting, preparing, waiting_start,
  unstarted, fetching, scanning, handing, before_sleep, asleep, woken, finished, failed, crashed,
  Pool, signal_initialized, signal_sleep, holds_initializer, crash, set_errno, move,
}

-- A thread ends with FAILURE inside `scan_dir`; the last one wakes `main`.
unfoldable pub give_up : (n i : ℕ) → Pool → Pool
give_up n i s =
    let count = s.threads_failed + 1 in
    record s {
      locals = update s.locals i failed;
      status = failure;
      threads_failed = count;
      main = if count == n then signal_sleep s.main else s.main;
    }

-- A failed `malloc` of the thread's entry.
unfoldable pub not_started : (n i : ℕ) → Pool → Pool
not_started n i s =
    let count = s.threads_failed + 1 in
    record s {
      locals = update s.locals i unstarted;
      status = failure;
      threads_failed = count;
      main = if count == n then signal_initialized s.main else s.main;
    }

-- The thread counts itself, wakes `main` if it is the last one, and waits for `start_work`.
unfoldable pub prepare : (n i : ℕ) → Pool → Pool
prepare n i s =
    let count = s.threads_initialized + 1 in
    record s {
      locals = update s.locals i waiting_start;
      threads_initialized = count;
      main = if count + s.threads_failed == n then signal_initialized s.main else s.main;
    }

-- `dequeue_dir` on the queue: the thread scans the first directory, or goes to sleep.
unfoldable pub take_from : (dir_q : List Dir) (i : ℕ) → Pool → Pool
take_from [] i s = if s.no_dir == 0 then move i before_sleep s else crash s
take_from (d ∷ ds) i s = record s { locals = update s.locals i (scanning d); dir_q = ds }

unfoldable pub take_dir : ℕ → Pool → Pool
unfolding take_from
take_dir i s = take_from s.dir_q i s

-- A directory that was opened, while the queues are locked: for the first sleeping thread, or for the
-- queue of directories.
unfoldable pub opened_for :
    (thread_q : List ℕ) (n i : ℕ) (memory : Bool) (opened rest : Dir) → Pool → Pool
unfolding give_up
opened_for (t ∷ ts) n i memory opened rest s = record s {
  locals = update s.locals i (handing t opened rest);
  thread_q = ts;
}
opened_for [] n i true opened rest s =
    if s.no_thread == 0
    then record s { locals = update s.locals i (scanning rest); dir_q = s.dir_q ++ (opened ∷ []) }
    else crash s
opened_for [] n i false opened rest s =
    if s.no_thread == 0 then record (give_up n i s) { stuck = true } else crash s

unfoldable pub opened_dir : (n i : ℕ) (memory : Bool) (opened rest : Dir) → Pool → Pool
unfolding opened_for
opened_dir n i memory opened rest s = opened_for s.thread_q n i memory opened rest s

-- The directory is written to the entry of a thread that waits, and the thread is woken.
abbrev pub wake_with : Dir → Local → Local
wake_with d asleep = woken (some d)
wake_with d (woken none) = woken (some d)
wake_with d l = l

unfoldable pub hand_to : (i to : ℕ) (opened rest : Dir) → Pool → Pool
hand_to i to opened rest s = record s {
  locals = update (update s.locals to (wake_with opened (s.locals to))) i (scanning rest);
}

unfoldable pub found_plain : (term : List ℕ) (i : ℕ) (name : List ℕ) (rest : Dir) → Pool → Pool
found_plain term i name rest s = record s {
  locals = update s.locals i (scanning rest);
  num_of_files_found =
      if strstr name term then (s.num_of_files_found + 1) % 2 ^ 32 else s.num_of_files_found;
}

-- The thread enters the queue of sleeping threads, wakes `main` if all threads are in it, and waits.
unfoldable pub sleep : ℕ → Pool → Pool
sleep i s =
    let q = s.thread_q ++ (i ∷ []) in
    record s {
      locals = update s.locals i asleep;
      thread_q = q;
      no_thread = 0;
      main = if length q == s.threads_initialized then signal_sleep s.main else s.main;
    }

-- A step of `scan_dir`. A directory that cannot be opened leaves `errno` set.
unfoldable pub scan_dir : (term : List ℕ) (n i : ℕ) → Dir → Pool → Pool
unfolding give_up take_dir opened_dir found_plain
scan_dir term n i (ended true) s = give_up n i s
scan_dir term n i (ended false) s = if s.stuck then s else take_dir i s
scan_dir term n i (hidden rest) s = move i (scanning rest) s
scan_dir term n i (unknown rest) s = give_up n i s
scan_dir term n i (closed rest) s = move i (scanning (set_errno rest)) s
scan_dir term n i (folder memory opened rest) s =
    if s.stuck then s else opened_dir n i memory opened rest s
scan_dir term n i (plain name rest) s = found_plain term i name rest s

-- A step of thread `i` of `n`; `memory` tells whose `malloc` of an entry succeeds.
unfoldable pub thread_func : (term : List ℕ) (memory : ℕ → Bool) (n i : ℕ) → Local → Pool → Pool
unfolding not_started prepare take_dir hand_to sleep scan_dir
thread_func term memory n i starting s = if memory i then move i preparing s else not_started n i s
thread_func term memory n i preparing s = if holds_initializer s.main then s else prepare n i s
thread_func term memory n i fetching s = if s.stuck then s else take_dir i s
thread_func term memory n i (scanning d) s = scan_dir term n i d s
thread_func term memory n i (handing to opened rest) s = hand_to i to opened rest s
thread_func term memory n i before_sleep s = if s.stuck then s else sleep i s
thread_func term memory n i (woken none) s =
    if s.stuck then s else if s.done then move i finished s else move i crashed s
thread_func term memory n i (woken (some d)) s =
    if s.stuck then s else if s.done then move i finished s else move i (scanning d) s
thread_func term memory n i l s = s
