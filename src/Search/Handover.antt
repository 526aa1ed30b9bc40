-- ===== src/Search/Handover.antt =====
-- hw04/pfind.c: a directory found while threads sleep.
use operating_systems_git.Prelude.{
  ℕ, ◌≡◌, ◌≢◌, refl, ap, ◌∙◌, Option, some, List, [], ◌∷◌, update, ne→==, ==_refl,
}
use operating_systems_git.Run.{ok}
use operating_systems_git.Search.State.{Ptr, null, DirEntry, ThreadEntry, Search, store_thread}
use operating_systems_git.Search.Queues.{comes_back, enqueue_dir}
use operating_systems_git.Search.Line.{Line, NotIn, IsQueue}
use operating_systems_git.Search.Threads.{load_thread_lem, dequeue-IsQueue, dequeue_empty}
use operating_systems_git.Search.Scan.{hand_over, found_dir}

-- A line is not changed by a write to an entry outside of it.
Line-update :
    (h : Ptr → Option ThreadEntry) (p a : Ptr) (l : List Ptr) (x : Option ThreadEntry)
    → Line h p l
    → NotIn a l
    → Line (update h a x) p l
Line-update h p a [] x line free = line
Line-update h p a (q ∷ l) x (start, ne, n, at, rest) (apart, free) =
    (start, ne, n, rw (ne→== q a apart) at, Line-update h n.next a l x rest free)

-- The state after the thread `q` with entry `n` has been given a directory.
abbrev handed : Search → (q : Ptr) → ThreadEntry → (new_dir : Ptr) → List ℕ → Search
handed t q n new_dir path = record t {
  threads = update t.threads q (some (record n { dir = new_dir; path = path }));
  woken = n.my_condition_variable ∷ t.woken;
}

hand_over_lem :
    (t : Search) (q : Ptr) (n : ThreadEntry) (new_dir : Ptr) (path : List ℕ)
    → q ≢ null
    → t.threads q ≡ some n
    → hand_over q new_dir path t ≡ ok comes_back (handed t q n new_dir path)
unfolding hand_over store_thread
hand_over_lem t q n new_dir path ne at = rw (load_thread_lem t q n ne at) refl

-- Without a sleeping thread the directory goes into the queue of directories.
pub found_dir-queued :
    {s : Search} (malloc : Option (Ptr × DirEntry)) (new_dir : Ptr) (path : List ℕ)
    → IsQueue s []
    → found_dir malloc new_dir path s ≡ enqueue_dir malloc new_dir path s
unfolding found_dir
found_dir-queued malloc new_dir path r = rw (dequeue_empty r) refl

-- A directory found while the queue of threads is not empty goes to the first thread of it: that
-- thread leaves the queue, its entry holds the directory and the path, and its condition variable
-- is signalled.
pub found_dir-handed :
    {s : Search} (malloc : Option (Ptr × DirEntry)) (new_dir : Ptr) (path : List ℕ) (q : Ptr)
    (l : List Ptr)
    → IsQueue s (q ∷ l)
    → (n : ThreadEntry) × (u : Search) × (s.threads q ≡ some n)
      × (found_dir malloc new_dir path s ≡ ok comes_back u)
      × IsQueue u l
      × (u.threads q ≡ some (record n { dir = new_dir; path = path }))
      × (u.woken ≡ n.my_condition_variable ∷ s.woken)
unfolding found_dir
found_dir-handed {s} malloc new_dir path q l r =
    let (_, ne, n, at, _) = r.line in
    let (t, left, held, same) = dequeue-IsQueue q l r in
    let at' : t.threads q ≡ some n = ap (λ (x : Search). x.threads q) same ∙ at in
    let m : ThreadEntry = record n { dir = new_dir; path = path } in
    (
      n,
      handed t q n new_dir path,
      at,
      rw (left, ne→== q null ne, hand_over_lem t q n new_dir path ne at') refl,
      record {
        line = Line-update t.threads t.thread_q.first q l (some m) held.line r.distinct.0;
        size = held.size;
        ends = held.ends;
        distinct = held.distinct;
        fits = held.fits;
      },
      rw (==_refl q) refl,
      ap (λ (x : Search). n.my_condition_variable ∷ x.woken) same,
    )
