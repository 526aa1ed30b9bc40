-- ===== src/Search/Threads.antt =====
-- hw04/pfind.c: the queue of sleeping threads against a list of threads.
use operating_systems_git.Prelude.{
  ℕ, suc, ◌+◌, ◌^◌, ◌<◌, ◌≡◌, ◌≢◌, refl, sym, ap, ◌∙◌, arith, some, List, [], ◌∷◌, ◌++◌, ◌==◌,
  length, update, ne→==, length-append, if◌then◌else◌,
}
use operating_systems_git.Run.{ok}
use operating_systems_git.Search.State.{
  Ptr, null, ThreadEntry, Search, increment, decrement, load_thread, store_thread,
}
use operating_systems_git.Search.Queues.{enqueue_thread, dequeue_thread}
use operating_systems_git.Search.Line.{
  NotIn, IsQueue, Line-last, Line-append, Distinct-append, Ends-append, NotIn-Ends, Ends-rest,
}

increment_small : (n : ℕ) → suc n < 2 ^ 32 → increment n ≡ n + 1
increment_small n fits = omega arith

decrement-suc : (n : ℕ) → suc n < 2 ^ 32 → decrement (suc n) ≡ n
decrement-suc n fits = omega arith

pub load_thread_lem :
    (s : Search) (p : Ptr) (n : ThreadEntry)
    → p ≢ null
    → s.threads p ≡ some n
    → load_thread p s ≡ ok n s
unfolding load_thread
load_thread_lem s p n ne e = rw (ne→== p null ne, e) refl

-- A thread that is not in the queue, and whose entry points nowhere, becomes its last one, while
-- the queue stays shorter than 2^32.
pub enqueue-IsQueue :
    {s : Search} (l : List Ptr) (t : Ptr) {m : ThreadEntry}
    → IsQueue s l
    → t ≢ null
    → s.threads t ≡ some m
    → m.next ≡ null
    → NotIn t l
    → suc (length l) < 2 ^ 32
    → (u : Search) × (enqueue_thread t s ≡ ok tt u) × IsQueue u (l ++ (t ∷ []))
unfolding enqueue_thread store_thread
enqueue-IsQueue {s} [] t {m} r real new end free fits = (
  record s { thread_q = record { first = t; last = t; len = 1 } },
  rw (r.size) refl,
  record {
    line = (refl, real, m, new, end);
    size = refl;
    ends = refl;
    distinct = (tt, tt);
    fits = omega arith;
  },
)
enqueue-IsQueue {s} (q ∷ l) t {m} r real new end free fits =
    let a = s.thread_q.last in
    let (ne, n, at) = Line-last s.threads s.thread_q.first q l a r.line r.ends in
    let apart = NotIn-Ends t q l a free r.ends in
    (
      record s {
        threads = update s.threads a (some (record n { next = t }));
        thread_q = record s.thread_q { last = t; len = increment s.thread_q.len };
      },
      rw (ne→== s.thread_q.len 0 (omega (arith, r.size)), load_thread_lem s a n ne at) refl,
      record {
        line =
            Line-append s.threads s.thread_q.first q l a t n m r.line r.ends r.distinct at new end
              real apart;
        size =
            ap increment r.size
            ∙ increment_small (suc (length l)) fits
            ∙ sym (length-append (q ∷ l) (t ∷ []));
        ends = Ends-append t (q ∷ l);
        distinct = Distinct-append t (q ∷ l) r.distinct free;
        fits = omega (arith, fits, length-append (q ∷ l) (t ∷ []));
      },
    )

-- An empty queue gives NULL and stays as it is.
pub dequeue_empty : {s : Search} → IsQueue s [] → dequeue_thread s ≡ ok null s
unfolding dequeue_thread
dequeue_empty r = rw (r.line) refl

-- The first thread of the queue leaves it, and is what the dequeue returns; only the queue changes.
pub dequeue-IsQueue :
    {s : Search} (q : Ptr) (l : List Ptr)
    → IsQueue s (q ∷ l)
    → (u : Search) × (dequeue_thread s ≡ ok q u)
      × IsQueue u l
      × (u ≡ record s { thread_q = u.thread_q })
unfolding dequeue_thread
dequeue-IsQueue {s} q l r =
    let (start, ne, n, at, rest) = r.line in
    let first = s.thread_q.first in
    let len = decrement s.thread_q.len in
    let u : Search = record s {
      thread_q = record {
        first = n.next;
        last = if len == 1 then n.next else s.thread_q.last;
        len = len;
      };
    } in
    let loaded = load_thread_lem s first n (λ e. ne (sym start ∙ e)) (ap s.threads start ∙ at) in
    let size : len ≡ length l = ap decrement r.size ∙ decrement-suc (length l) r.fits in
    let run : dequeue_thread s ≡ ok first u =
      rw (ne→== first null (λ e. ne (sym start ∙ e)), loaded) refl in
    (
      u,
      run ∙ ap (λ x. ok x u) start,
      record {
        line = rest;
        size = size;
        ends = Ends-rest s.threads n.next q l s.thread_q.last len r.ends rest size;
        distinct = r.distinct.1;
        fits = omega (arith, r.fits);
      },
      refl,
    )
