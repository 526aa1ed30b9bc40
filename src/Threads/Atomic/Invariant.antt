-- ===== src/Threads/Atomic/Invariant.antt =====
-- rec09-mutex/mutex_ex1.c: what every order of steps keeps.
use operating_systems_git.Prelude.{
  ℕ, zero, suc, ◌+◌, ◌*◌, ◌%◌, ◌^◌, ◌≤◌, ◌<◌, ◌≡◌, refl, ap, arith, Bool, true, List, update,
  ==_refl, ne→==, ℕ_discrete, subst,
}
use operating_systems_git.Threads.Joining.{prints, joined, launched, joined-finished, outcome_lem}
use operating_systems_git.Threads.Schedule.{World, place, run, run-keeps}
use operating_systems_git.Threads.Sum.{total, total-update, total-const, le-total, total-zero}
use operating_systems_git.Threads.Atomic.{
  Local, looping, finished, next_counter, boot, is_finished, main,
}

-- The additions that a thread has yet to make.
abbrev pending : Local → ℕ
pending (looping left) = left
pending (finished result) = 0

abbrev HasAdded : (rounds all counter : ℕ) → Local → Type 0
HasAdded rounds all counter (looping left) = rounds ≤ counter + left
HasAdded rounds all counter (finished result) = (rounds ≤ result) × (result ≤ all)

HasAdded-le :
    (rounds all c d : ℕ) (l : Local) → c ≤ d → HasAdded rounds all c l → HasAdded rounds all d l
HasAdded-le rounds all c d (looping left) le h = omega (arith, le, h)
HasAdded-le rounds all c d (finished result) le h = h

record Inv (rounds n all : ℕ) (w : World ℕ Local) : Type 0 where
  added : w.mem + total pending n w.locals ≡ all
  own : (i : ℕ) → i < n → HasAdded rounds all w.mem (w.locals i)

module _ (rounds n all : ℕ) (small : all < 2 ^ 32) (m : ℕ) (locals : ℕ → Local)
    (inv : Inv rounds n all (record { mem = m; locals = locals })) (i : ℕ) (lt : i < n) where
  build :
      (l l' : Local) (m' : ℕ)
      → locals i ≡ l
      → m ≤ m'
      → m' + pending l' ≡ m + pending l
      → HasAdded rounds all m' l'
      → Inv rounds n all (record { mem = m'; locals = update locals i l' })
  build l l' m' e more added has = record {
    added = omega (arith, inv.added, total-update pending n i locals l' lt, ap pending e, added);
    own = λ j lt'. elim (ℕ_discrete j i) [
      | yes same ↦ rw (same, ==_refl i) has
      | no ne ↦ rw (ne→== j i ne) (HasAdded-le rounds all m m' (locals j) more (inv.own j lt'))
    ];
  }

  keeps :
      (l : Local)
      → locals i ≡ l
      → Inv rounds n all (place (record { mem = m; locals = locals }) i (next_counter m l))
  unfolding next_counter
  keeps (looping zero) e =
      let has : rounds ≤ m + 0 = subst (HasAdded rounds all m) e (inv.own i lt) in
      build (looping zero) (finished m) m e (omega arith) refl
        (omega (arith, has), omega (arith, inv.added))
  keeps (looping (suc left)) e =
      let has : rounds ≤ m + suc left = subst (HasAdded rounds all m) e (inv.own i lt) in
      let next : (m + 1) % 2 ^ 32 ≡ m + 1 =
        omega (arith, small, inv.added, le-total pending n i locals lt, ap pending e) in
      build (looping (suc left)) (looping left) ((m + 1) % 2 ^ 32) e (omega (arith, next))
        (omega (arith, next)) (omega (arith, has, next))
  keeps (finished result) e =
      build (finished result) (finished result) m e (omega arith) refl
        (subst (HasAdded rounds all m) e (inv.own i lt))

run-Inv :
    (n rounds : ℕ) (order : List ℕ)
    → n * rounds < 2 ^ 32
    → Inv rounds n (n * rounds) (run next_counter n (boot rounds) order)
run-Inv n rounds order small =
    run-keeps next_counter n (Inv rounds n (n * rounds))
      (λ w i lt inv. keeps rounds n (n * rounds) small w.mem w.locals inv i lt (w.locals i) refl)
      (boot rounds) order
      (record {
        added = omega (arith, total-const pending n rounds (looping rounds) refl);
        own = λ i lt. omega arith;
      })

finished-pending : (l : Local) → is_finished l ≡ true → pending l ≡ 0
finished-pending (looping left) e = cc
finished-pending (finished result) e = refl

-- In every order of steps, what `main` prints is the number of all rounds, where this number is below
-- 2^32, and each thread has printed a result that is at least its own rounds and at most all rounds.
pub main-results :
    (n rounds : ℕ) (created : ℕ → Bool) (order : List ℕ) (k : ℕ)
    → n * rounds < 2 ^ 32
    → let w = run next_counter n (boot rounds) order in
      main n created w ≡ prints k
      → (k ≡ n * rounds)
        × ((i result : ℕ)
            → i < n
            → w.locals i ≡ finished result
            → (rounds ≤ result) × (result ≤ n * rounds))
unfolding main
main-results n rounds created order k small e =
    let w = run next_counter n (boot rounds) order in
    let inv = run-Inv n rounds order small in
    let (all, same) = outcome_lem (launched n created) (joined is_finished n w.locals) w.mem k e in
    let none : total pending n w.locals ≡ 0 =
      total-zero pending n w.locals
        (λ i lt. finished-pending (w.locals i) (joined-finished is_finished n w.locals all i lt)) in
    (
      omega (arith, inv.added, none, same),
      λ i result lt e'. subst (HasAdded rounds (n * rounds) w.mem) e' (inv.own i lt),
    )
