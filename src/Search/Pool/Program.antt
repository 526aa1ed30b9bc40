-- ===== src/Search/Pool/Program.antt =====
-- hw04/pfind.c: the steps of `main`, and the program as `main` and its threads in some order.
use operating_systems_git.Prelude.{
  ℕ, ◌+◌, ◌-◌, ◌≡◌, Option, none, some, Bool, true, false, ◌&&◌, List, [], ◌∷◌, ◌==◌, ltb,
  if◌then◌else◌, update,
}
use operating_systems_git.Search.Queues.{failure}
use operating_systems_git.Search.Pool.{
  Dir, ended, Local, unborn, starting, waiting_start, unstarted, fetching, asleep, woken, finished,
  failed, Main, creating, locked, created, waiting_initialized, all_initialized, broadcasting,
  waiting_sleep, all_sleep, waking, joining, exits, faulted, prints, Pool, move,
}
use operating_systems_git.Search.Pool.Thread.{thread_func}

-- The broadcast of `start_work`, and `main`'s signal to a thread.
abbrev pub start_work : Local → Local
start_work waiting_start = fetching
start_work l = l

abbrev pub wake_up : Local → Local
wake_up asleep = woken none
wake_up l = l

-- `pthread_create` of thread `i`.
unfoldable pub create_thread : (can_create : ℕ → Bool) (i : ℕ) (next : Main) → Pool → Pool
create_thread can_create i next s =
    if can_create i
    then record s { locals = update s.locals i starting; main = next }
    else record s { status = failure; main = exits failure }

abbrev pub has_ended : Local → Bool
has_ended unstarted = true
has_ended finished = true
has_ended failed = true
has_ended _ = false

-- `pthread_join` of thread `i` returns when the thread has ended, or fails.
unfoldable pub join_thread : (can_join : ℕ → Bool) (i : ℕ) → Pool → Pool
join_thread can_join i s =
    if can_join i
    then if has_ended (s.locals i) then record s { main = joining (i + 1) } else s
    else record s { status = failure; main = exits failure }

unfoldable pub main_step : (can_create can_join : ℕ → Bool) (n : ℕ) → Main → Pool → Pool
unfolding create_thread join_thread
main_step can_create can_join n (creating i) s =
    if ltb (i + 1) n
    then create_thread can_create i (creating (i + 1)) s
    else record s { main = locked }
main_step can_create can_join n locked s = create_thread can_create (n - 1) created s
main_step can_create can_join n created s = record s { main = waiting_initialized }
main_step can_create can_join n all_initialized s = record s {
  main = if s.threads_failed == n then exits s.status else broadcasting;
}
main_step can_create can_join n broadcasting s =
    if s.stuck then s else record s { locals = λ i. start_work (s.locals i); main = waiting_sleep }
main_step can_create can_join n all_sleep s =
    if s.stuck
    then s
    else if s.threads_failed == n
    then record s { main = exits s.status }
    else record s { done = true; main = waking s.thread_q }
main_step can_create can_join n (waking (t ∷ ts)) s = record s {
  locals = update s.locals t (wake_up (s.locals t));
  main = waking ts;
}
main_step can_create can_join n (waking []) s = record s { main = joining 0 }
main_step can_create can_join n (joining i) s =
    if ltb i n
    then join_thread can_join i s
    else record s { main = prints s.num_of_files_found s.status }
main_step can_create can_join n m s = s

-- What the first calls of `main` answer: whether there are three arguments, the root directory where it
-- can be opened, and whether `malloc` serves the queue of directories, its first entry, the array of
-- threads and the queue of threads; and what the memory that it serves holds in `dir_q->len`, in the
-- `next` of an entry and in `thread_q->first`, which the program does not set.
pub record Answers : Type 0 where
  pub argc : ℕ
  pub root : Option Dir
  pub dir_q_memory : Bool
  pub entry_memory : Bool
  pub threads_id_memory : Bool
  pub thread_q_memory : Bool
  pub dir_q_len : ℕ
  pub entry_next : ℕ
  pub thread_q_first : ℕ

-- The state in which `main` creates its threads: `root` is in the queue of directories.
abbrev pub boot : Answers → Dir → Pool
boot a root = record {
  locals = λ _. unborn;
  main = creating 0;
  status = 0;
  done = false;
  threads_initialized = 0;
  threads_failed = 0;
  num_of_files_found = 0;
  dir_q = root ∷ [];
  thread_q = [];
  stuck = false;
  no_dir = a.entry_next;
  no_thread = a.thread_q_first;
}

-- The program has ended before it has a queue of directories.
abbrev pub ends_at : Answers → Main → Pool
ends_at a m = record (boot a (ended false)) { main = m; dir_q = [] }

-- `main` from the test of `root` to the loop that creates threads. A failed `malloc` of the first
-- entry ends the thread of `main`, and with it the program. A queue whose length is not 0 is taken to
-- have a last entry.
unfoldable pub start_at : Answers → (root : Option Dir) → Pool
start_at a none = ends_at a (prints 0 failure)
start_at a (some root) =
    if a.dir_q_memory
    then if a.dir_q_len == 0
      then if a.entry_memory
        then if a.threads_id_memory && a.thread_q_memory
          then boot a root
          else ends_at a (exits failure)
        else ends_at a (exits 0)
      else ends_at a faulted
    else ends_at a (exits failure)

unfoldable pub start : Answers → Pool
unfolding start_at
start a = if a.argc == 4 then start_at a a.root else ends_at a (exits failure)

-- The program has ended.
abbrev pub has_exited : Main → Bool
has_exited (exits status) = true
has_exited faulted = true
has_exited (prints num_of_files_found status) = true
has_exited _ = false

-- What the program is run with: the search term, the number of threads, and what the calls of
-- `malloc` in the threads, of `pthread_create` and of `pthread_join` answer.
pub record Setting : Type 0 where
  pub search_term : List ℕ
  pub num_of_threads : ℕ
  pub memory : ℕ → Bool
  pub can_create : ℕ → Bool
  pub can_join : ℕ → Bool

-- One step: of thread `i`, or of `main` for a number that no thread has.
unfoldable pub turn : Setting → ℕ → Pool → Pool
turn c i s =
    let n = c.num_of_threads in
    if has_exited s.main
    then s
    else if ltb i n
    then thread_func c.search_term c.memory n i (s.locals i) s
    else main_step c.can_create c.can_join n s.main s

-- A step, or the end of a wait without a signal, in thread `i` or, for a number that no thread has, in
-- `main`.
pub data Event : Type 0 where
  steps wakes : (i : ℕ) → Event

abbrev pub wakes_up : Local → Local
wakes_up waiting_start = fetching
wakes_up asleep = woken none
wakes_up l = l

abbrev pub main_wakes : Main → Main
main_wakes waiting_initialized = all_initialized
main_wakes waiting_sleep = all_sleep
main_wakes m = m

unfoldable pub wake : (n i : ℕ) → Pool → Pool
wake n i s =
    if has_exited s.main
    then s
    else if ltb i n
    then move i (wakes_up (s.locals i)) s
    else record s { main = main_wakes s.main }

unfoldable pub happens : Setting → Event → Pool → Pool
unfolding turn wake
happens c (steps i) s = turn c i s
happens c (wakes i) s = wake c.num_of_threads i s

unfoldable pub run : Setting → List Event → Pool → Pool
unfolding happens
run c [] s = s
run c (e ∷ es) s = run c es (happens c e s)

-- The steps of the threads and of `main` with these numbers.
abbrev pub in_order : List ℕ → List Event
in_order [] = []
in_order (i ∷ is) = steps i ∷ in_order is

-- No wait ends without a signal.
abbrev pub SignalsOnly : List Event → Type 0
SignalsOnly [] = Unit
SignalsOnly (steps i ∷ es) = SignalsOnly es
SignalsOnly (wakes i ∷ es) = ⊥

-- The memory that `malloc` serves is zero where the program does not set it.
abbrev pub ZeroedMemory : Answers → Type 0
ZeroedMemory a = (a.dir_q_len ≡ 0) × (a.entry_next ≡ 0) × (a.thread_q_first ≡ 0)
