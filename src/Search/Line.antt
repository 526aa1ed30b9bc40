-- ===== src/Search/Line.antt =====
-- hw04/pfind.c: the list of addresses that a queue of threads stands for.
use operating_systems_git.Prelude.{
  ℕ, ◌^◌, ◌<◌, ◌≡◌, ◌≢◌, refl, sym, ◌∙◌, arith, Option, some, List, [], ◌∷◌, ◌++◌, ◌==◌, length,
  update, ne→==, if◌then◌else◌, ==_refl, subst,
}
use operating_systems_git.Search.State.{Ptr, null, ThreadEntry, Search}

-- From `p` on, `next` leads through the addresses of the list to NULL.
abbrev pub Line : (Ptr → Option ThreadEntry) → Ptr → List Ptr → Type 0
Line h p [] = p ≡ null
Line h p (q ∷ l) = (p ≡ q) × (q ≢ null) × (n : ThreadEntry) × (h q ≡ some n) × Line h n.next l

-- The list ends with this address, if it is not empty.
abbrev pub Ends : List Ptr → Ptr → Type 0
Ends [] a = Unit
Ends (q ∷ []) a = q ≡ a
Ends (q ∷ r ∷ l) a = Ends (r ∷ l) a

abbrev pub NotIn : Ptr → List Ptr → Type 0
NotIn a [] = Unit
NotIn a (q ∷ l) = (q ≢ a) × NotIn a l

abbrev pub Distinct : List Ptr → Type 0
Distinct [] = Unit
Distinct (q ∷ l) = NotIn q l × Distinct l

-- The queue of threads holds the threads of the list, the first one to be woken first.
pub record IsQueue (s : Search) (l : List Ptr) : Type 0 where
  pub line : Line s.threads s.thread_q.first l
  pub size : s.thread_q.len ≡ length l
  pub ends : Ends l s.thread_q.last
  pub distinct : Distinct l
  pub fits : length l < 2 ^ 32

Ends-NotIn : (q r : Ptr) (l : List Ptr) (a : Ptr) → NotIn q (r ∷ l) → Ends (r ∷ l) a → q ≢ a
Ends-NotIn q r [] a (ne, _) e same = ne (e ∙ sym same)
Ends-NotIn q r (u ∷ l) a (_, apart) e same = Ends-NotIn q u l a apart e same

-- The entry at the end of a line.
pub Line-last :
    (h : Ptr → Option ThreadEntry) (p q : Ptr) (l : List Ptr) (a : Ptr)
    → Line h p (q ∷ l)
    → Ends (q ∷ l) a
    → (a ≢ null) × (n : ThreadEntry) × (h a ≡ some n)
Line-last h p q [] a (_, ne, n, e, _) same =
    subst (λ x. (x ≢ null) × (n : ThreadEntry) × (h x ≡ some n)) same (ne, n, e)
Line-last h p q (r ∷ l) a (_, _, n, _, rest) ends = Line-last h n.next r l a rest ends

-- The last entry is made to point to `t`.
pub Line-append :
    (h : Ptr → Option ThreadEntry) (p q : Ptr) (l : List Ptr) (a t : Ptr) (n m : ThreadEntry)
    → Line h p (q ∷ l)
    → Ends (q ∷ l) a
    → Distinct (q ∷ l)
    → h a ≡ some n
    → h t ≡ some m
    → m.next ≡ null
    → t ≢ null
    → t ≢ a
    → Line (update h a (some (record n { next = t }))) p ((q ∷ l) ++ (t ∷ []))
Line-append h p q [] a t n m (start, ne, _, _, _) same _ at new end real apart = (
  start,
  ne,
  record n { next = t },
  rw (same, ==_refl a) refl,
  (refl, real, m, rw (ne→== t a apart) new, end),
)
Line-append h p q (r ∷ l) a t n m (start, ne, k, here, rest) ends (free, distinct) at new end real
      apart =
    (
      start,
      ne,
      k,
      rw (ne→== q a (Ends-NotIn q r l a free ends)) here,
      Line-append h k.next r l a t n m rest ends distinct at new end real apart,
    )

NotIn-append : (a t : Ptr) (l : List Ptr) → NotIn a l → t ≢ a → NotIn a (l ++ (t ∷ []))
NotIn-append a t [] free ne = (ne, tt)
NotIn-append a t (q ∷ l) (first, free) ne = (first, NotIn-append a t l free ne)

pub Distinct-append : (t : Ptr) (l : List Ptr) → Distinct l → NotIn t l → Distinct (l ++ (t ∷ []))
Distinct-append t [] d free = (tt, tt)
Distinct-append t (q ∷ l) (apart, d) (ne, free) =
    (NotIn-append q t l apart (λ e. ne (sym e)), Distinct-append t l d free)

pub Ends-append : (t : Ptr) (l : List Ptr) → Ends (l ++ (t ∷ [])) t
Ends-append t [] = refl
Ends-append t (q ∷ []) = refl
Ends-append t (q ∷ r ∷ l) = Ends-append t (r ∷ l)

-- A thread that is not in the line is not its end.
pub NotIn-Ends : (t q : Ptr) (l : List Ptr) (a : Ptr) → NotIn t (q ∷ l) → Ends (q ∷ l) a → t ≢ a
NotIn-Ends t q l a free ends = Ends-NotIn t q l a free ends

-- What a dequeue makes of the end: with one thread left it is the new first one.
pub Ends-rest :
    (h : Ptr → Option ThreadEntry) (p q : Ptr) (l : List Ptr) (a : Ptr) (len : ℕ)
    → Ends (q ∷ l) a
    → Line h p l
    → len ≡ length l
    → Ends l (if len == 1 then p else a)
Ends-rest h p q [] a len e line size = tt
Ends-rest h p q (r ∷ []) a len e (start, _, _, _, _) size = rw (size) (sym start)
Ends-rest h p q (r ∷ t ∷ l) a len e line size = rw (ne→== len 1 (omega (arith, size))) e
