-- ===== src/Search/Pool/Moves.antt =====
-- hw04/pfind.c: every step of a thread keeps the counts.
use operating_systems_git.Prelude.{
  ℕ, ◌+◌, ◌≤◌, ◌<◌, ◌≡◌, inl, inr, refl, sym, arith, false, Bool-cases, List, [], ◌∷◌, ◌++◌, ◌==◌,
  ltb, lt→ltb, ltb→lt, if◌then◌else◌, length, update, ap, ℕ_discrete, ==_refl, ne→==, subst,
}
use operating_systems_git.Threads.Sum.{total, total-update, le-total}
use operating_systems_git.Search.Pool.{Dir, Local, unborn, Pool}
use operating_systems_git.Search.Pool.Parts.{
  matching, queued, work, sleeps, hands, aims, early, inited, late, stray, occurs, room,
}
use operating_systems_git.Search.Pool.Invariant.{Working, Moved-Working}

pub queued-append :
    (term : List ℕ) (ds : List Dir) (d : Dir)
    → queued term (ds ++ (d ∷ [])) ≡ queued term ds + matching term d
queued-append term [] d = omega arith
queued-append term (e ∷ ds) d = omega (arith, queued-append term ds d)

pub occurs-append :
    (t : ℕ) (q : List ℕ) (i : ℕ) → occurs t (q ++ (i ∷ [])) ≡ occurs t q + (if i == t then 1 else 0)
occurs-append t [] i = omega arith
occurs-append t (u ∷ q) i = omega (arith, occurs-append t q i)

-- What thread `i` adds to the room of thread `t`.
abbrev pub own : (i t : ℕ) → Local → ℕ
own i t l = if i == t then sleeps l else 0

pub room-update :
    (n i t : ℕ) (g : ℕ → Local) (l : Local)
    → i < n
    → room n t (update g i l) + own i t (g i) ≡ room n t g + own i t l
room-update n i t g l lt = elim (ℕ_discrete i t) [
  | yes e ↦ rw (← e, ==_refl i, lt→ltb i n lt) (omega arith)
  | no ne ↦ rw (ne→== i t ne, ne→== t i (λ e. ne (sym e))) (omega arith)
]

-- A thread for which there is room is one of the threads and sleeps.
pub room-sleeps : (n t : ℕ) (g : ℕ → Local) → 1 ≤ room n t g → (t < n) × (1 ≤ sleeps (g t))
room-sleeps n t g h = elim (Bool-cases (ltb t n)) [
  | inl less ↦ (ltb→lt t n less, subst (λ b. 1 ≤ (if b then sleeps (g t) else 0)) less h)
  | inr over ↦ absurd (omega (arith, subst (λ b. 1 ≤ (if b then sleeps (g t) else 0)) over h))
]

pub awake : (j t : ℕ) (l : Local) → sleeps l ≡ 0 → own j t l ≡ 0
awake j t l e = elim (Bool-cases (j == t)) [ inl same ↦ rw same e | inr ne ↦ rw ne refl ]

module _ (term : List ℕ) (n all : ℕ) (s : Pool) (w : Working term n all s) (i : ℕ)
    (lt : i < n) where
  sum_update :
      (f : Local → ℕ) (l l' : Local) (after : ℕ → Local)
      → s.locals i ≡ l
      → after ≡ update s.locals i l'
      → total f n after + f l ≡ total f n s.locals + f l'
  sum_update f l l' after e same =
      omega (arith, total-update f n i s.locals l' lt, ap f e, ap (total f n) same)

  moved : (l' : Local) (after : ℕ → Local) → after ≡ update s.locals i l' → late (after i) ≡ late l'
  moved l' after same = rw (same, ==_refl i) refl

  -- A step that changes the state of thread `i` only.
  pub single :
      (l l' : Local) (s' : Pool)
      → s.locals i ≡ l
      → s'.locals ≡ update s.locals i l'
      → s'.threads_initialized + inited l ≡ s.threads_initialized + inited l'
      → s'.threads_failed + (early l + late l) ≡ s.threads_failed + (early l' + late l')
      → late l ≤ late l'
      → (late l' ≡ 0
          → total late n s.locals ≡ 0
          → s'.num_of_files_found + queued term s'.dir_q + work term l'
            ≡ s.num_of_files_found + queued term s.dir_q + work term l)
      → length s'.thread_q + hands l' + sleeps l ≡ length s.thread_q + hands l + sleeps l'
      → ((t : ℕ)
          → occurs t s'.thread_q + aims t l' + own i t l
            ≡ occurs t s.thread_q + aims t l + own i t l')
      → stray l' ≤ stray l
      → (s'.done ≡ false) × (s'.no_dir ≡ 0) × (s'.no_thread ≡ 0)
      → Working term n all s'
  single l l' s' e same initialized failures lost found queue targets directed intact =
      Moved-Working term n all s s' l unborn l' unborn w (record {
        sums = λ f. omega (arith, sum_update f l l' s'.locals e same);
        initialized = omega (arith, initialized);
        failures = omega (arith, failures);
        lost = omega (arith, lost);
        found = λ none.
            let eq = sum_update late l l' s'.locals e same in
            let gone : late l' ≡ 0 =
              omega (arith, none, le-total late n i s'.locals lt, moved l' s'.locals same) in
            omega (arith, found gone (omega (arith, eq, none, gone, lost)));
        queue = omega (arith, queue);
        targets = λ t. omega (
          arith,
          targets t,
          w.targets t,
          room-update n i t s.locals l' lt,
          ap (own i t) e,
          sum_update (aims t) l l' s'.locals e same,
          ap (room n t) same,
        );
        directed = omega (arith, directed);
        intact = intact;
      })
