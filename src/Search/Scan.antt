-- ===== src/Search/Scan.antt =====
-- hw04/pfind.c: `scan_dir` as one thread runs it, with the answers of the file system.
use operating_systems_git.Prelude.{
  ℕ, ◌+◌, ◌%◌, ◌^◌, Option, none, some, Bool, true, false, ◌&&◌, ◌||◌, List, [], ◌∷◌, ◌++◌, ◌==◌,
  if◌then◌else◌,
}
use operating_systems_git.Run.{Cmd, pure, modify, ◌>>=◌, ◌>>◌}
use operating_systems_git.Search.State.{
  Ptr, null, DirEntry, Search, load_dir, load_thread, store_thread,
}
use operating_systems_git.Search.Queues.{
  Ended, comes_back, thread_exits, give_up, enqueue_dir, dequeue_dir, dequeue_thread,
}

-- What `stat` says of an entry, and `opendir` of a directory.
pub data Kind : Type 0 where
  unknown : Kind
  directory : (opened : Option Ptr) → Kind
  other : Kind

-- An entry that `readdir` gives, with the result of the `malloc` that a directory may need.
pub record Dirent : Type 0 where
  pub d_name : List ℕ
  pub kind : Kind
  pub malloc : Option (Ptr × DirEntry)

-- `strcmp` for equality, and `strstr` as a test.
unfoldable pub same_name : List ℕ → List ℕ → Bool
same_name [] [] = true
same_name [] (b ∷ l) = false
same_name (a ∷ k) [] = false
same_name (a ∷ k) (b ∷ l) = (a == b) && same_name k l

unfoldable pub starts_with : (name term : List ℕ) → Bool
starts_with name [] = true
starts_with [] (b ∷ term) = false
starts_with (a ∷ name) (b ∷ term) = (a == b) && starts_with name term

unfoldable pub strstr : (name term : List ℕ) → Bool
unfolding starts_with
strstr [] term = starts_with [] term
strstr (a ∷ name) term = starts_with (a ∷ name) term || strstr name term

-- A directory is handed to the sleeping thread `next`, which is woken.
unfoldable pub hand_over : (next new_dir : Ptr) (path : List ℕ) → Cmd Search Ended
unfolding load_thread store_thread
hand_over next new_dir path = do
  n ← load_thread next
  store_thread next (record n { dir = new_dir; path = path })
  modify (λ s. record s { woken = n.my_condition_variable ∷ s.woken })
  pure comes_back

-- A directory that was opened: it goes to a sleeping thread or into the queue.
unfoldable pub found_dir :
    (malloc : Option (Ptr × DirEntry)) (new_dir : Ptr) (path : List ℕ) → Cmd Search Ended
unfolding enqueue_dir dequeue_thread hand_over
found_dir malloc new_dir path = do
  next ← dequeue_thread
  if next == null then enqueue_dir malloc new_dir path else hand_over next new_dir path

unfoldable pub found_file : (search_term name path : List ℕ) → Cmd Search Ended
unfolding strstr
found_file search_term name path = do
  modify (λ s.
      if strstr name search_term
      then record s {
        num_of_files_found = (s.num_of_files_found + 1) % 2 ^ 32;
        printed = path ∷ s.printed;
      }
      else s)
  pure comes_back

-- The body of the loop; that a directory cannot be opened is printed, which is left out, and leaves
-- `errno` set.
unfoldable pub scan_entry : (search_term path : List ℕ) → Dirent → Cmd Search Ended
unfolding same_name give_up found_dir found_file
scan_entry search_term path e =
    let curr_path = path ++ e.d_name in
    if same_name e.d_name (b'.' ∷ []) || same_name e.d_name (b'.' ∷ b'.' ∷ [])
    then pure comes_back
    else elim e.kind [
      | unknown ↦ give_up
      | directory none ↦ pure comes_back
      | directory (some new_dir) ↦ found_dir e.malloc new_dir (curr_path ++ (b'/' ∷ []))
      | other ↦ found_file search_term e.d_name curr_path
    ]

abbrev pub unless_exited : Ended → Cmd Search Ended → Cmd Search Ended
unless_exited comes_back k = k
unless_exited (thread_exits code) k = pure (thread_exits code)

-- The loop over the entries.
unfoldable pub scan_entries : (search_term path : List ℕ) → List Dirent → Cmd Search Ended
unfolding scan_entry
scan_entries search_term path [] = pure comes_back
scan_entries search_term path (e ∷ es) =
    let rest = scan_entries search_term path es in
    do ended ← scan_entry search_term path e; unless_exited ended rest

-- After the loop: `readdir` failed, or the next directory of the queue becomes the thread's own. The
-- value is that directory, whose scan the call at the end of `scan_dir` starts, or NULL.
unfoldable pub next_dir : (my_thread_entry : Ptr) → Cmd Search Ptr
unfolding dequeue_dir load_dir load_thread store_thread
next_dir my_thread_entry = do
  next ← dequeue_dir
  if next == null then pure null else do
    d ← load_dir next
    n ← load_thread my_thread_entry
    store_thread my_thread_entry (record n { dir = d.dir; path = d.path })
    pure next

-- `errno` after the loop: `opendir` has failed, or `readdir` does at the end.
unfoldable pub errno_set : (contents : List Dirent) (read_error : Bool) → Bool
errno_set [] read_error = read_error
errno_set (e ∷ es) read_error = elim e.kind [
  | unknown ↦ errno_set es read_error
  | directory none ↦ true
  | directory (some new_dir) ↦ errno_set es read_error
  | other ↦ errno_set es read_error
]

-- One directory; `contents` is what `readdir` gives, `read_error` that it fails at the end.
unfoldable pub scan_dir :
    (search_term : List ℕ) (my_thread_entry : Ptr) (contents : List Dirent) (read_error : Bool)
    → Cmd Search (Ended × Ptr)
unfolding scan_entries errno_set give_up next_dir
scan_dir search_term my_thread_entry contents read_error = do
  n ← load_thread my_thread_entry
  ended ← scan_entries search_term n.path contents
  elim ended [
    | thread_exits code ↦ pure (thread_exits code, null)
    | comes_back ↦
        if errno_set contents read_error
        then (do gone ← give_up; pure (gone, null))
        else (do next ← next_dir my_thread_entry; pure (comes_back, next))
  ]
