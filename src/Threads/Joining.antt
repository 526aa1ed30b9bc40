-- ===== src/Threads/Joining.antt =====
-- rec09-mutex: the loops by which each `main` creates its threads and waits for them.
use operating_systems_git.Prelude.{
  ℕ, zero, suc, ◌<◌, ◌≡◌, refl, arith, Bool, true, ◌&&◌, ℕ_discrete, if◌then◌else◌,
}

-- The loop of `pthread_join`: all of the first `n` threads have finished.
abbrev pub joined : {L : Type 0} → (is_finished : L → Bool) → ℕ → (ℕ → L) → Bool
joined is_finished zero locals = true
joined is_finished (suc n) locals = joined is_finished n locals && is_finished (locals n)

-- What `main` has come to: it waits for its threads, has ended by `exit(-1)`, or has printed.
pub data Outcome : Type 0 where
  waits exits_early : Outcome
  prints : (counter : ℕ) → Outcome

-- The loop of `pthread_create`, which ends the program at the first call that fails.
abbrev pub launched : ℕ → (created : ℕ → Bool) → Bool
launched zero created = true
launched (suc n) created = launched n created && created n

both : (a b : Bool) → (a && b) ≡ true → (a ≡ true) × (b ≡ true)
both a b e = ground arith

pub joined-finished :
    {L : Type 0} (t : L → Bool) (n : ℕ) (g : ℕ → L)
    → joined t n g ≡ true
    → (i : ℕ) → i < n
    → t (g i) ≡ true
joined-finished t zero g e i lt = absurd (omega arith)
joined-finished t (suc n) g e i lt =
    let (before_it, last) = both (joined t n g) (t (g n)) e in
    elim (ℕ_discrete i n) [
      | yes same ↦ rw same last
      | no ne ↦ joined-finished t n g before_it i (omega (arith, ne))
    ]

pub finished-joined :
    {L : Type 0} (t : L → Bool) (n : ℕ) (g : ℕ → L)
    → ((i : ℕ) → i < n → t (g i) ≡ true)
    → joined t n g ≡ true
finished-joined t zero g all = refl
finished-joined t (suc n) g all =
    rw (finished-joined t n g (λ i lt. all i (omega arith)), all n (omega arith)) refl

pub all_launched :
    (n : ℕ) (created : ℕ → Bool) → ((i : ℕ) → created i ≡ true) → launched n created ≡ true
all_launched zero created all = refl
all_launched (suc n) created all = rw (all_launched n created all, all n) refl

-- A program that prints has seen all of its threads finish.
pub outcome_lem :
    (a b : Bool) (c k : ℕ)
    → (if a then if b then prints c else waits else exits_early) ≡ prints k
    → (b ≡ true) × (c ≡ k)
outcome_lem a b c k e = ground arith
