-- ===== src/Search/Dirs.antt =====
-- hw04/pfind.c: the queue of directories, whose new entries keep the `next` that the memory held.
use operating_systems_git.Prelude.{ℕ, ◌≡◌, ◌≢◌, refl, some, List, update, ne→==, ==_refl}
use operating_systems_git.Run.{ok}
use operating_systems_git.Search.State.{Ptr, null, DirEntry, Search, load_dir, store_dir}
use operating_systems_git.Search.Queues.{comes_back, enqueue_dir, dequeue_dir, fill_last}

load_dir_lem :
    (s : Search) (p : Ptr) (n : DirEntry) → p ≢ null → s.dirs p ≡ some n → load_dir p s ≡ ok n s
unfolding load_dir
load_dir_lem s p n ne e = rw (ne→== p null ne, e) refl

-- Where `malloc` succeeds, a directory that is put into an empty queue and taken out again is the
-- one returned, with its path, and leaves the queue with length 0 and with a first entry wherever
-- the memory of `malloc` pointed.
pub enqueue-dequeue :
    (s : Search) (p : Ptr) (junk : DirEntry) (dir : Ptr) (path : List ℕ)
    → s.dir_q.len ≡ 0
    → p ≢ null
    → (t : Search) × (u : Search) × (enqueue_dir (some (p, junk)) dir path s ≡ ok comes_back t)
      × (dequeue_dir t ≡ ok p u)
      × (u.dirs p ≡ some (record junk { dir = dir; path = path }))
      × (u.dir_q.len ≡ 0)
      × (u.dir_q.first ≡ junk.next)
unfolding enqueue_dir dequeue_dir fill_last store_dir
enqueue-dequeue s p junk dir path empty ne =
    let entry : DirEntry = record junk { dir = dir; path = path } in
    let placed : Search = record s {
      dirs = update s.dirs p (some junk);
      dir_q = record { first = p; last = p; len = 0 };
    } in
    let t : Search = record placed {
      dirs = update placed.dirs p (some entry);
      dir_q = record { first = p; last = p; len = 1 };
    } in
    let u : Search = record t { dir_q = record { first = junk.next; last = p; len = 0 } } in
    (
      t,
      u,
      rw (empty, load_dir_lem placed p junk ne (rw (==_refl p) refl)) refl,
      rw (ne→== p null ne, load_dir_lem t p entry ne (rw (==_refl p) refl)) refl,
      rw (==_refl p) refl,
      refl,
      refl,
    )
