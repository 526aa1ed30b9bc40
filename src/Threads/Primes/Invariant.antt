-- ===== src/Threads/Primes/Invariant.antt =====
-- rec09-mutex/mutex_ex3.c: what every order of steps keeps.
use operating_systems_git.Prelude.{
  ℕ, ◌+◌, ◌%◌, ◌^◌, ◌≤◌, ◌<◌, ◌≡◌, ◌⊎◌, refl, ap, arith, Bool, true, false, ◌&&◌, List, [], ◌∷◌,
  ◌==◌, if◌then◌else◌, update, ==_refl, ne→==, ℕ_discrete, ltb, leb, inl, inr, Bool-cases, subst,
  ltb→lt,
}
use operating_systems_git.Threads.Joining.{prints, joined, launched, joined-finished, outcome_lem}
use operating_systems_git.Threads.Schedule.{World, place, run, run-keeps}
use operating_systems_git.Threads.Sum.{
  total, total-update, total-le, total-const, le-total, total-zero,
}
use operating_systems_git.Threads.Primes.{
  is_prime, Shared, Local, looping, claimed, finished, prime_print, boot, is_finished, main,
}

-- How often a number stands in a list.
abbrev pub count : ℕ → List ℕ → ℕ
count v [] = 0
count v (x ∷ xs) = (if x == v then 1 else 0) + count v xs

-- What is to be printed of `v` once the counter has this value.
abbrev pub expected : (v counter : ℕ) → ℕ
expected v counter = if (leb 2 v && leb v counter) && is_prime v then 1 else 0

-- A thread that has yet to test and print `v`.
abbrev claims : ℕ → Local → ℕ
claims v (looping i j) = 0
claims v (claimed i j) = if (j == v) && is_prime v then 1 else 0
claims v (finished i j) = 0

-- A thread that may take another number.
abbrev eager : (limit : ℕ) → Local → ℕ
eager limit (looping i j) = if ltb j limit then 1 else 0
eager limit (claimed i j) = if ltb j limit then 1 else 0
eager limit (finished i j) = 0

abbrev Reached : (limit : ℕ) → Shared → Local → Type 0
Reached limit s (looping i j) = j ≤ s.counter
Reached limit s (claimed i j) = j ≤ s.counter
Reached limit s (finished i j) = limit ≤ s.counter

record Inv (n limit : ℕ) (w : World Shared Local) : Type 0 where
  started : 1 ≤ w.mem.counter
  bound : w.mem.counter + total (eager limit) n w.locals ≤ limit + n
  reached : (i : ℕ) → i < n → Reached limit w.mem (w.locals i)
  found : (v : ℕ) → count v w.mem.printed + total (claims v) n w.locals ≡ expected v w.mem.counter

eager-le : (limit : ℕ) (l : Local) → eager limit l ≤ 1
eager-le limit (looping i j) = ground arith
eager-le limit (claimed i j) = ground arith
eager-le limit (finished i j) = omega arith

eager_lem : (limit k j : ℕ) → (eager limit (claimed k j) ≡ 0) ⊎ (j < limit)
eager_lem limit k j = elim (Bool-cases (ltb j limit)) [
  | inl less ↦ inr (ltb→lt j limit less)
  | inr over ↦ inl (rw over refl)
]

Reached-le :
    (limit : ℕ) (s t : Shared) (l : Local)
    → s.counter ≤ t.counter
    → Reached limit s l
    → Reached limit t l
Reached-le limit s t (looping i j) le r = omega (arith, le, r)
Reached-le limit s t (claimed i j) le r = omega (arith, le, r)
Reached-le limit s t (finished i j) le r = omega (arith, le, r)

-- The next value of the counter is a number that nobody has been given.
expected_next :
    (v c c' : ℕ)
    → c' ≡ c + 1
    → 1 ≤ c
    → (if (c' == v) && is_prime v then 1 else 0) + expected v c ≡ expected v c'
expected_next v c c' e pos = ground (arith, e)

limit_reached : (j limit c : ℕ) → ltb j limit ≡ false → j ≤ c → limit ≤ c
limit_reached j limit c over le = ground (arith, over, le)

count_if :
    (v j : ℕ) (b : Bool) (printed : List ℕ)
    → count v (if b then j ∷ printed else printed)
      ≡ (if b && (j == v) then 1 else 0) + count v printed
count_if v j true printed = refl
count_if v j false printed = omega arith

same_claim :
    (v j : ℕ)
    → 0 + (if is_prime j && (j == v) then 1 else 0) ≡ (if (j == v) && is_prime v then 1 else 0)
same_claim v j = elim (ℕ_discrete j v) [
  | yes same ↦ rw (same, ==_refl v) (ground arith)
  | no ne ↦ rw (ne→== j v ne) (ground arith)
]

count_print :
    (v j : ℕ) (printed : List ℕ)
    → count v (if is_prime j then j ∷ printed else printed)
      ≡ (if (j == v) && is_prime v then 1 else 0) + count v printed
count_print v j printed = omega (arith, count_if v j (is_prime j) printed, same_claim v j)

module _ (n limit : ℕ) (small : limit + n < 2 ^ 32) (m : Shared) (locals : ℕ → Local)
    (inv : Inv n limit (record { mem = m; locals = locals })) (i : ℕ) (lt : i < n) where
  build :
      (l l' : Local) (m' : Shared)
      → locals i ≡ l
      → m.counter ≤ m'.counter
      → m'.counter + total (eager limit) n (update locals i l') ≤ limit + n
      → Reached limit m' l'
      → ((v : ℕ)
          → count v m'.printed + claims v l' + expected v m.counter
            ≡ count v m.printed + claims v l + expected v m'.counter)
      → Inv n limit (record { mem = m'; locals = update locals i l' })
  build l l' m' e more bound own change = record {
    started = omega (arith, inv.started, more);
    bound = bound;
    reached = λ j lt'. elim (ℕ_discrete j i) [
      | yes same ↦ rw (same, ==_refl i) own
      | no ne ↦ rw (ne→== j i ne) (Reached-le limit m m' (locals j) more (inv.reached j lt'))
    ];
    found = λ v.
        omega
          (arith, inv.found v, total-update (claims v) n i locals l' lt, ap (claims v) e, change v);
  }

  keeps :
      (l : Local)
      → locals i ≡ l
      → Inv n limit (place (record { mem = m; locals = locals }) i (prime_print limit m l))
  unfolding prime_print
  keeps (looping k j) e = elim (Bool-cases (ltb j limit)) [
    | inl going ↦
        let c = (m.counter + 1) % 2 ^ 32 in
        let old : eager limit (locals i) ≡ 1 = rw (e, going) refl in
        let more : c ≡ m.counter + 1 =
          omega (arith, small, inv.bound, le-total (eager limit) n i locals lt, old) in
        rw going (
          build (looping k j) (claimed (k + 1) c) (record m { counter = c }) e (omega (arith, more))
            (elim (eager_lem limit (k + 1) c) [
              | inl none ↦ omega (
                arith,
                inv.bound,
                more,
                old,
                none,
                total-update (eager limit) n i locals (claimed (k + 1) c) lt,
              )
              | inr less ↦ omega (
                arith,
                less,
                total-le (eager limit) (eager-le limit) n (update locals i (claimed (k + 1) c)),
              )
            ])
            (omega arith) (λ v. omega (arith, expected_next v m.counter c more inv.started)))
    | inr over ↦ rw over (
        build (looping k j) (finished k j) m e (omega arith)
          (omega (
            arith,
            inv.bound,
            total-update (eager limit) n i locals (finished k j) lt,
            ap (eager limit) e,
          ))
          (limit_reached j limit m.counter over (subst (Reached limit m) e (inv.reached i lt)))
          (λ v. refl))
  ]
  keeps (claimed k j) e =
      build (claimed k j) (looping k j)
        (record m { printed = if is_prime j then j ∷ m.printed else m.printed }) e (omega arith)
        (omega (
          arith,
          inv.bound,
          total-update (eager limit) n i locals (looping k j) lt,
          ap (eager limit) e,
        ))
        (subst (Reached limit m) e (inv.reached i lt))
        (λ v. omega (arith, count_print v j m.printed))
  keeps (finished k j) e =
      build (finished k j) (finished k j) m e (omega arith)
        (omega (
          arith,
          inv.bound,
          total-update (eager limit) n i locals (finished k j) lt,
          ap (eager limit) e,
        ))
        (subst (Reached limit m) e (inv.reached i lt)) (λ v. refl)

nothing_yet : (v : ℕ) → expected v 1 ≡ 0
nothing_yet v = ground arith

finished-claims : (v : ℕ) (l : Local) → is_finished l ≡ true → claims v l ≡ 0
finished-claims v (looping i j) e = cc
finished-claims v (claimed i j) e = cc
finished-claims v (finished i j) e = refl

finished-Reached :
    (limit : ℕ) (s : Shared) (k : ℕ) (l : Local)
    → s.counter ≡ k
    → is_finished l ≡ true
    → Reached limit s l
    → limit ≤ k
finished-Reached limit s k (looping i j) same e r = cc
finished-Reached limit s k (claimed i j) same e r = cc
finished-Reached limit s k (finished i j) same e r = omega (arith, same, r)

boot-Inv : (n limit : ℕ) → 1 ≤ limit → Inv n limit boot
boot-Inv n limit pos = record {
  started = omega arith;
  bound = omega (arith, total-le (eager limit) (eager-le limit) n (λ _. looping 0 0));
  reached = λ i lt. omega arith;
  found = λ v. omega (arith, total-const (claims v) n 0 (looping 0 0) refl, nothing_yet v);
}

run-Inv :
    (n limit : ℕ) (order : List ℕ)
    → limit + n < 2 ^ 32
    → 1 ≤ limit
    → Inv n limit (run (prime_print limit) n boot order)
run-Inv n limit order small pos =
    run-keeps (prime_print limit) n (Inv n limit)
      (λ w i lt inv. keeps n limit small w.mem w.locals inv i lt (w.locals i) refl) boot order
      (boot-Inv n limit pos)

-- In every order of steps the counter stays at most the limit and the number of threads, where this
-- sum is below 2^32 and the limit is positive.
pub counter-bound :
    (n limit : ℕ) (order : List ℕ)
    → limit + n < 2 ^ 32
    → 1 ≤ limit
    → (run (prime_print limit) n boot order).mem.counter ≤ limit + n
counter-bound n limit order small pos = omega (arith, (run-Inv n limit order small pos).bound)

-- In every order of steps, once `main` prints the counter, it is at least the limit, and each number
-- from 2 up to the counter that `is_prime` accepts has been printed once, and no other number. The
-- conditions are those of the bound, and there is a thread.
pub prints_each_once :
    (n limit : ℕ) (created : ℕ → Bool) (order : List ℕ) (k : ℕ)
    → limit + n < 2 ^ 32
    → 1 ≤ limit
    → 1 ≤ n
    → let w = run (prime_print limit) n boot order in
      main n created w ≡ prints k → (limit ≤ k) × ((v : ℕ) → count v w.mem.printed ≡ expected v k)
unfolding main
prints_each_once n limit created order k small pos some_thread e =
    let w = run (prime_print limit) n boot order in
    let inv = run-Inv n limit order small pos in
    let (all, same) =
      outcome_lem (launched n created) (joined is_finished n w.locals) w.mem.counter k e in
    let ended = joined-finished is_finished n w.locals all in
    (
      finished-Reached limit w.mem k (w.locals 0) same (ended 0 some_thread)
          (inv.reached 0 some_thread),
      λ v.
          let none =
            total-zero (claims v) n w.locals
              (λ i lt. finished-claims v (w.locals i) (ended i lt)) in
          omega (arith, inv.found v, none, ap (expected v) same),
    )
