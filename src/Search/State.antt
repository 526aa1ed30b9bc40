-- ===== src/Search/State.antt =====
-- hw04/pfind.c: the shared state of the threads.
use operating_systems_git.Prelude.{
  ℕ, ◌+◌, ◌-◌, ◌%◌, ◌^◌, Option, none, some, List, ◌==◌, if◌then◌else◌, update,
}
use operating_systems_git.Run.{Cmd, ok, fault, modify}

abbrev pub Ptr : Type 0
Ptr = ℕ

abbrev pub null : Ptr
null = 0

-- `DIR_ENTRY`; a path is its bytes.
pub record DirEntry : Type 0 where
  pub dir : Ptr
  pub path : List ℕ
  pub next : Ptr

-- `THREAD_ENTRY`
pub record ThreadEntry : Type 0 where
  pub my_condition_variable : Ptr
  pub dir : Ptr
  pub path : List ℕ
  pub next : Ptr

-- `DIR_FIFO_Q` and `THREAD_FIFO_Q`
pub record Queue : Type 0 where
  pub first : Ptr
  pub last : Ptr
  pub len : ℕ

-- The entries by address, the queues, the counters, the paths printed and the condition variables
-- signalled so far, the last one first.
pub record Search : Type 0 where
  pub dirs : Ptr → Option DirEntry
  pub threads : Ptr → Option ThreadEntry
  pub dir_q : Queue
  pub thread_q : Queue
  pub status : ℕ
  pub num_of_threads : ℕ
  pub threads_failed : ℕ
  pub all_sleep_signalled : ℕ
  pub num_of_files_found : ℕ
  pub printed : List (List ℕ)
  pub woken : List Ptr

-- `len++` and `len--` on an `int`, kept modulo 2^32.
abbrev pub increment : ℕ → ℕ
increment n = (n + 1) % 2 ^ 32

abbrev pub decrement : ℕ → ℕ
decrement n = (n + (2 ^ 32 - 1)) % 2 ^ 32

-- Reads and writes of an entry, a fault at NULL and at an address with no entry.
unfoldable pub load_dir : Ptr → Cmd Search DirEntry
load_dir p s = if p == null then fault else elim (s.dirs p) [ none ↦ fault | some n ↦ ok n s ]

unfoldable pub store_dir : Ptr → DirEntry → Cmd Search (Unit {0})
store_dir p n = modify (λ s. record s { dirs = update s.dirs p (some n) })

unfoldable pub load_thread : Ptr → Cmd Search ThreadEntry
load_thread p s = if p == null then fault else elim (s.threads p) [ none ↦ fault | some n ↦ ok n s ]

unfoldable pub store_thread : Ptr → ThreadEntry → Cmd Search (Unit {0})
store_thread p n = modify (λ s. record s { threads = update s.threads p (some n) })
