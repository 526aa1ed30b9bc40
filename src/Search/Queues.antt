-- ===== src/Search/Queues.antt =====
-- hw04/pfind.c: the operations on the queues of directories and of sleeping threads. Each runs under
-- the mutex `queues_access`.
use operating_systems_git.Prelude.{ℕ, ◌+◌, Option, none, some, List, ◌==◌, if◌then◌else◌}
use operating_systems_git.Run.{Cmd, pure, gets, modify, ◌>>=◌, ◌>>◌}
use operating_systems_git.Search.State.{
  Ptr, null, DirEntry, Queue, Search, increment, decrement, load_dir, store_dir, load_thread,
  store_thread,
}

-- A call comes back, or has ended its thread by `pthread_exit`.
pub data Ended : Type 0 where
  comes_back : Ended
  thread_exits : ℕ → Ended

abbrev pub failure : ℕ
failure = 1

-- A failed `malloc`: the thread counts itself as failed, and wakes `main` if it is the last one.
unfoldable pub give_up : Cmd Search Ended
give_up = do
  modify (λ s. record s { status = failure; threads_failed = s.threads_failed + 1 })
  modify (λ s.
      if s.threads_failed == s.num_of_threads
      then record s { all_sleep_signalled = s.all_sleep_signalled + 1 }
      else s)
  pure (thread_exits failure)

-- The end of `enqueue_dir`, on the new last entry.
unfoldable pub fill_last : (dir : Ptr) (path : List ℕ) → Cmd Search Ended
unfolding load_dir store_dir
fill_last dir path = do
  q ← gets (λ s. s.dir_q)
  n ← load_dir q.last
  store_dir q.last (record n { dir = dir; path = path })
  modify (λ s. record s { dir_q = record s.dir_q { len = increment s.dir_q.len } })
  pure comes_back

-- `malloc` gives an address and what the memory there holds, or fails.
unfoldable pub enqueue_dir :
    (malloc : Option (Ptr × DirEntry)) (dir : Ptr) (path : List ℕ) → Cmd Search Ended
unfolding give_up fill_last load_dir store_dir
enqueue_dir malloc dir path = do
  q ← gets (λ s. s.dir_q)
  if q.len == 0
      then elim malloc [
        | none ↦ (do modify (λ s. record s { dir_q = record q { first = null } }); give_up)
        | some (p, junk) ↦ (do
          store_dir p junk
          modify (λ s. record s { dir_q = record q { first = p; last = p } })
          fill_last dir path)
      ]
      else (do
        n ← load_dir q.last
        elim malloc [
          | none ↦ (do store_dir q.last (record n { next = null }); give_up)
          | some (p, junk) ↦ (do
            store_dir q.last (record n { next = p })
            store_dir p junk
            modify (λ s. record s { dir_q = record q { last = p } })
            fill_last dir path)
        ])

unfoldable pub dequeue_dir : Cmd Search Ptr
unfolding load_dir
dequeue_dir = do
  q ← gets (λ s. s.dir_q)
  if q.first == null then pure null else do
    n ← load_dir q.first
    modify (λ s. record s { dir_q = record q { first = n.next; len = decrement q.len } })
    pure q.first

unfoldable pub enqueue_thread : (my_thread_entry : Ptr) → Cmd Search (Unit {0})
unfolding load_thread store_thread
enqueue_thread my_thread_entry = do
  q ← gets (λ s. s.thread_q)
  if q.len == 0
      then modify (λ s. record s {
        thread_q = record {
          first = my_thread_entry;
          last = my_thread_entry;
          len = increment q.len;
        };
      })
      else (do
        n ← load_thread q.last
        store_thread q.last (record n { next = my_thread_entry })
        modify (λ s. record s {
          thread_q = record q { last = my_thread_entry; len = increment q.len };
        }))

unfoldable pub dequeue_thread : Cmd Search Ptr
unfolding load_thread
dequeue_thread = do
  q ← gets (λ s. s.thread_q)
  if q.first == null then pure null else do
    n ← load_thread q.first
    let len = decrement q.len
    modify (λ s. record s {
      thread_q = record { first = n.next; last = if len == 1 then n.next else q.last; len = len };
    })
    pure q.first

-- `malloc` gives a queue that holds `junk`.
unfoldable pub initialize_directories_queue :
    (malloc : Option Queue) → Search → Option Queue × Search
initialize_directories_queue none s = (none, record s { status = failure })
initialize_directories_queue (some junk) s = (some (record junk { last = junk.first }), s)

unfoldable pub initialize_threads_queue : (malloc : Option Queue) → Search → Option Queue × Search
initialize_threads_queue none s = (none, record s { status = failure })
initialize_threads_queue (some junk) s = (some (record junk { len = 0 }), s)
