-- ===== src/Threads/Locked/Invariant.antt =====
-- rec09-mutex/mutex_ex2.c: what every order of steps keeps.
use operating_systems_git.Prelude.{
  ℕ, zero, suc, ◌+◌, ◌*◌, ◌%◌, ◌^◌, ◌≤◌, ◌<◌, ◌≡◌, ◌≢◌, refl, sym, ap, ◌∙◌, arith, Bool, true,
  false, List, if◌then◌else◌, update, ==_refl, ne→==, ℕ_discrete, subst,
}
use operating_systems_git.Threads.Joining.{joined, launched, prints, joined-finished, outcome_lem}
use operating_systems_git.Threads.Schedule.{World, place, run, run-keeps}
use operating_systems_git.Threads.Sum.{
  total, total-update, total-const, le-total, two-le-total, total-zero,
}
use operating_systems_git.Threads.Locked.{
  Shared, Local, before, locked, loaded, stored, finished, next_counter, boot, is_finished, main,
  holds,
}

-- The additions that a thread has yet to make.
abbrev pending : Local → ℕ
pending (before left) = left
pending (locked left) = left
pending (loaded left value) = left
pending (stored zero) = 0
pending (stored (suc left)) = left
pending finished = 0

-- A thread with the mutex is in a round, and has read the counter as it is.
abbrev pub IsFresh : Shared → Local → Type 0
IsFresh s (locked left) = 0 < left
IsFresh s (loaded left value) = (0 < left) × (value ≡ s.counter)
IsFresh s (stored left) = 0 < left
IsFresh s _ = Unit

abbrev pub flag : Bool → ℕ
flag true = 1
flag false = 0

pub record Inv (n all : ℕ) (w : World Shared Local) : Type 0 where
  pub added : w.mem.counter + total pending n w.locals ≡ all
  pub owned : flag w.mem.held ≡ total holds n w.locals
  pub fresh : (i : ℕ) → i < n → IsFresh w.mem (w.locals i)

IsFresh-same : (s t : Shared) (l : Local) → s.counter ≡ t.counter → IsFresh s l → IsFresh t l
IsFresh-same s t (before left) e f = tt
IsFresh-same s t (locked left) e f = f
IsFresh-same s t (stored left) e f = f
IsFresh-same s t (loaded left value) e (pos, now) = (pos, now ∙ e)
IsFresh-same s t finished e f = tt

IsFresh-free : (t : Shared) (l : Local) → holds l ≡ 0 → IsFresh t l
IsFresh-free t (before left) e = tt
IsFresh-free t finished e = tt
IsFresh-free t (locked left) e = absurd (omega (arith, e))
IsFresh-free t (loaded left value) e = absurd (omega (arith, e))
IsFresh-free t (stored left) e = absurd (omega (arith, e))

flag-le : (b : Bool) → flag b ≤ 1
flag-le true = omega arith
flag-le false = omega arith

module _ (n all : ℕ) (small : all < 2 ^ 32) (m : Shared) (locals : ℕ → Local)
    (inv : Inv n all (record { mem = m; locals = locals })) (i : ℕ) (lt : i < n) where
  -- A thread that changes the counter has it alone.
  others :
      (l : Local) (t : Shared)
      → locals i ≡ l
      → holds l ≡ 1
      → (j : ℕ) → j < n
      → j ≢ i
      → IsFresh t (locals j)
  others l t e own j lt' ne = IsFresh-free t (locals j) (
      omega (
        arith,
        two-le-total holds n i j locals finished refl lt lt' ne,
        ap holds e,
        own,
        inv.owned,
        flag-le m.held,
      ))

  unchanged : (t : Shared) → m.counter ≡ t.counter → (j : ℕ) → j < n → j ≢ i → IsFresh t (locals j)
  unchanged t same j lt' ne = IsFresh-same m t (locals j) same (inv.fresh j lt')

  build :
      (l l' : Local) (m' : Shared)
      → locals i ≡ l
      → m'.counter + pending l' ≡ m.counter + pending l
      → flag m'.held + holds l ≡ flag m.held + holds l'
      → IsFresh m' l'
      → ((j : ℕ) → j < n → j ≢ i → IsFresh m' (locals j))
      → Inv n all (record { mem = m'; locals = update locals i l' })
  build l l' m' e added owned own rest = record {
    added = omega (arith, inv.added, total-update pending n i locals l' lt, ap pending e, added);
    owned = omega (arith, inv.owned, total-update holds n i locals l' lt, ap holds e, owned);
    fresh = λ j lt'. elim (ℕ_discrete j i) [
      | yes same ↦ rw (same, ==_refl i) own
      | no ne ↦ rw (ne→== j i ne) (rest j lt' ne)
    ];
  }

  keeps_lock :
      (left : ℕ)
      → locals i ≡ before (suc left)
      → (held : Bool) → m.held ≡ held
      → Inv n all (
          place
            (record { mem = m; locals = locals })
            i
            (if held
              then (m, before (suc left))
              else (record m { held = true }, locked (suc left))))
  keeps_lock left e true busy =
      build (before (suc left)) (before (suc left)) m e refl refl tt (unchanged m refl)
  keeps_lock left e false free =
      let t : Shared = record m { held = true } in
      build (before (suc left)) (locked (suc left)) t e refl (omega (arith, ap flag free))
        (omega arith) (unchanged t refl)

  pub keeps :
      (l : Local)
      → locals i ≡ l
      → Inv n all (place (record { mem = m; locals = locals }) i (next_counter m l))
  unfolding next_counter
  keeps (before zero) e = build (before zero) finished m e refl refl tt (unchanged m refl)
  keeps (before (suc left)) e = keeps_lock left e m.held refl
  keeps (locked left) e =
      let pos : 0 < left = subst (IsFresh m) e (inv.fresh i lt) in
      build (locked left) (loaded left m.counter) m e refl refl (pos, refl) (unchanged m refl)
  keeps (loaded zero value) e = absurd (omega (arith, (subst (IsFresh m) e (inv.fresh i lt)).0))
  keeps (loaded (suc left) value) e =
      let t : Shared = record m { counter = (value + 1) % 2 ^ 32 } in
      let (_, now) = subst (IsFresh m) e (inv.fresh i lt) in
      build (loaded (suc left) value) (stored (suc left)) t e
        (omega (arith, now, small, inv.added, le-total pending n i locals lt, ap pending e)) refl
        (omega arith) (others (loaded (suc left) value) t e refl)
  keeps (stored zero) e = absurd (omega (arith, subst (IsFresh m) e (inv.fresh i lt)))
  keeps (stored (suc left)) e =
      let t : Shared = record m { held = false } in
      build (stored (suc left)) (before left) t e refl
        (omega (arith, inv.owned, le-total holds n i locals lt, ap holds e, flag-le m.held)) tt
        (unchanged t refl)
  keeps finished e = build finished finished m e refl refl tt (unchanged m refl)

boot-Inv : (n rounds : ℕ) → Inv n (n * rounds) (boot rounds)
boot-Inv n rounds = record {
  added = omega (arith, total-const pending n rounds (before rounds) refl);
  owned = grind (arith, total-const holds n 0 (before rounds) refl);
  fresh = λ i lt. tt;
}

pub run-Inv :
    (n rounds : ℕ) (order : List ℕ)
    → n * rounds < 2 ^ 32
    → Inv n (n * rounds) (run next_counter n (boot rounds) order)
run-Inv n rounds order small =
    run-keeps next_counter n (Inv n (n * rounds))
      (λ w i lt inv. keeps n (n * rounds) small w.mem w.locals inv i lt (w.locals i) refl)
      (boot rounds) order (boot-Inv n rounds)

-- In every order of steps at most one thread is in the critical section.
pub mutual_exclusion :
    (n rounds : ℕ) (order : List ℕ) (i j : ℕ)
    → n * rounds < 2 ^ 32
    → i < n
    → j < n
    → let w = run next_counter n (boot rounds) order in
      holds (w.locals i) ≡ 1 → holds (w.locals j) ≡ 1 → i ≡ j
mutual_exclusion n rounds order i j small lt lt' own own' = elim (ℕ_discrete j i) [
  | yes e ↦ sym e
  | no ne ↦
      let w = run next_counter n (boot rounds) order in
      let inv = run-Inv n rounds order small in
      absurd (
        omega (
          arith,
          two-le-total holds n i j w.locals finished refl lt lt' ne,
          inv.owned,
          flag-le w.mem.held,
          own,
          own',
        ))
]

finished_of : (l : Local) → is_finished l ≡ true → l ≡ finished
finished_of finished e = refl
finished_of (before left) e = cc
finished_of (locked left) e = cc
finished_of (loaded left value) e = cc
finished_of (stored left) e = cc

-- In every order of steps, what `main` prints is the number of all rounds: no addition is lost.
pub main-prints :
    (n rounds : ℕ) (created : ℕ → Bool) (order : List ℕ) (k : ℕ)
    → n * rounds < 2 ^ 32
    → main n created (run next_counter n (boot rounds) order) ≡ prints k
    → k ≡ n * rounds
unfolding main
main-prints n rounds created order k small e =
    let w = run next_counter n (boot rounds) order in
    let inv = run-Inv n rounds order small in
    let (all, same) =
      outcome_lem (launched n created) (joined is_finished n w.locals) w.mem.counter k e in
    let none : total pending n w.locals ≡ 0 = total-zero pending n w.locals (λ i lt.
      ap pending (finished_of (w.locals i) (joined-finished is_finished n w.locals all i lt))) in
    omega (arith, inv.added, none, same)
