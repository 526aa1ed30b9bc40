-- ===== src/Search/Pool.antt =====
-- hw04/pfind.c: the threads of the search, one step at a time. What a thread does between a lock and
-- an unlock of a mutex, or its wait there, is one step. A queue is the list of its entries.
pub mod Thread
pub mod Program
pub mod Parts
pub mod Classes
pub mod Invariant
pub mod Moves
pub mod Keeps
pub mod Handing
pub mod Early
pub mod Waiting
pub mod Quiet
pub mod Searching
pub mod Ending
pub mod Signals
pub mod Steps
pub mod Result
pub mod Weight
pub mod Better
pub mod Closer
pub mod Lighter
pub mod Further
pub mod Rest
pub mod Progress
pub mod Liveness
mod Tests
use operating_systems_git.Prelude.{
  ℕ, ◌+◌, ◌%◌, ◌^◌, Option, none, some, Bool, true, false, List, [], ◌∷◌, ◌++◌, ◌==◌, ltb,
  if◌then◌else◌, update, length,
}
use operating_systems_git.Search.Queues.{failure}

-- The stream of a directory: what is left of its entries, up to the end or a failure of `readdir`.
-- An entry is `.` or `..`, one whose `stat` fails, a directory that cannot be opened, one that is
-- opened (with whether `malloc` serves `enqueue_dir`), or a file.
pub data Dir : Type 0 where
  ended : (read_error : Bool) → Dir
  hidden unknown closed : (rest : Dir) → Dir
  folder : (memory : Bool) (opened rest : Dir) → Dir
  plain : (name : List ℕ) (rest : Dir) → Dir

-- A thread: not created; in `thread_func` before its `malloc`, before the lock of
-- `thread_initializer`, in the wait for `start_work`, ended by a failed `malloc`, and before its
-- first `dequeue_dir`; in `scan_dir` with the rest of its directory, and there with a directory for the
-- thread `to`; before `enqueue_thread`, in the wait on its own condition variable, and woken with
-- the directory of its entry; ended with SUCCESS, with FAILURE, or by a read of a directory NULL.
pub data Local : Type 0 where
  unborn starting preparing waiting_start unstarted fetching : Local
  scanning : (dir : Dir) → Local
  handing : (to : ℕ) (opened rest : Dir) → Local
  before_sleep asleep : Local
  woken : (dir : Option Dir) → Local
  finished failed crashed : Local

-- `main`: its loop that creates threads, with `thread_initializer` before and after the last
-- `pthread_create`, in the wait for `all_initialized` and woken from it, before the broadcast, in the
-- wait for `all_sleep` and woken from it, at the loop that wakes the threads, at the one that joins
-- them, and the end of the program: by `exit` without a result, by an access through memory that was
-- not set, or with the number of files printed.
pub data Main : Type 0 where
  creating : (i : ℕ) → Main
  locked created waiting_initialized all_initialized broadcasting waiting_sleep all_sleep : Main
  waking : (th : List ℕ) → Main
  joining : (i : ℕ) → Main
  exits : (status : ℕ) → Main
  faulted : Main
  prints : (num_of_files_found status : ℕ) → Main

-- The global variables. `stuck` is that `queues_access` is held by a thread that has ended; `no_dir` is
-- what `dir_q->first` holds while no directory is queued, the `next` of the last entry, which is what
-- the memory from `malloc` held, taken to be the same for each entry; `no_thread` is what
-- `thread_q->first` holds while no thread is queued, before the first one what the memory held.
pub record Pool : Type 0 where
  pub locals : ℕ → Local
  pub main : Main
  pub status : ℕ
  pub done : Bool
  pub threads_initialized : ℕ
  pub threads_failed : ℕ
  pub num_of_files_found : ℕ
  pub dir_q : List Dir
  pub thread_q : List ℕ
  pub stuck : Bool
  pub no_dir : ℕ
  pub no_thread : ℕ

-- `pthread_cond_signal` of `all_initialized` and of `all_sleep`.
abbrev pub signal_initialized : Main → Main
signal_initialized waiting_initialized = all_initialized
signal_initialized m = m

abbrev pub signal_sleep : Main → Main
signal_sleep waiting_sleep = all_sleep
signal_sleep m = m

-- `main` has locked `thread_initializer`.
abbrev pub holds_initializer : Main → Bool
holds_initializer locked = true
holds_initializer created = true
holds_initializer _ = false

-- `errno`, once it is set, is read at the end of the stream as a failure of `readdir`.
abbrev pub set_errno : Dir → Dir
set_errno (ended read_error) = ended true
set_errno (hidden rest) = hidden (set_errno rest)
set_errno (unknown rest) = unknown (set_errno rest)
set_errno (closed rest) = closed (set_errno rest)
set_errno (folder memory opened rest) = folder memory opened (set_errno rest)
set_errno (plain name rest) = plain name (set_errno rest)

-- The process reads through memory that was not set.
abbrev pub crash : Pool → Pool
crash s = record s { main = faulted }

abbrev pub move : ℕ → Local → Pool → Pool
move i l s = record s { locals = update s.locals i l }
