-- ===== src/Threads/Primes/Test.antt =====
-- rec09-mutex/mutex_ex3.c: `is_prime` against the definition of a prime.
use operating_systems_git.Prelude.{
  ℕ, zero, suc, ◌+◌, ◌*◌, ◌/◌, ◌%◌, ◌≤◌, ◌<◌, ◌≡◌, ◌≢◌, ◌↔◌, refl, arith, true, ltb, Bool-cases,
  inl, inr, ltb→lt, ne→==, ℕ_discrete, dec_lt,
}
use native.Mathlib.Nat.{mod-add-div}
use operating_systems_git.Threads.Primes.{no_divisor, is_prime}

-- No number from `i` to below half of `x` divides it.
abbrev NoDivisor : (i x : ℕ) → Type 0
NoDivisor i x = (d : ℕ) → i ≤ d → d < x / 2 → x % d ≢ 0

no_divisor_step :
    (fuel i x : ℕ)
    → no_divisor (suc fuel) i x ≡ true
    → i < x / 2
    → (x % i ≢ 0) × (no_divisor fuel (i + 1) x ≡ true)
unfolding no_divisor
no_divisor_step fuel i x e lt = ground arith

no_divisor-NoDivisor :
    (fuel i x : ℕ) → x / 2 ≤ i + fuel → no_divisor fuel i x ≡ true → NoDivisor i x
no_divisor-NoDivisor zero i x enough e d le lt = absurd (omega (arith, enough))
no_divisor-NoDivisor (suc fuel) i x enough e d le lt =
    let (here, rest) = no_divisor_step fuel i x e (omega arith) in
    elim (ℕ_discrete d i) [
      | yes same ↦ rw same here
      | no ne ↦ no_divisor-NoDivisor fuel (i + 1) x (omega arith) rest d (omega (arith, le, ne)) lt
    ]

NoDivisor-no_divisor : (fuel i x : ℕ) → NoDivisor i x → no_divisor fuel i x ≡ true
unfolding no_divisor
NoDivisor-no_divisor zero i x none = refl
NoDivisor-no_divisor (suc fuel) i x none =
    let rest = NoDivisor-no_divisor fuel (i + 1) x (λ d le lt. none d (omega arith) lt) in
    elim (Bool-cases (ltb i (x / 2))) [
      | inl e ↦ rw (e, ne→== (x % i) 0 (none i (omega arith) (ltb→lt i (x / 2) e)), rest)
      | inr e ↦ rw e
    ]

-- A divisor that is not below half of the number leaves 2 as a divisor below it.
large_factor :
    (x d q : ℕ) → 5 ≤ x → d < x → x / 2 ≤ d → 1 < d → d * q ≡ x → (2 < x / 2) × (x % 2 ≡ 0)
large_factor x d zero five lt half pos whole = absurd (grind arith)
large_factor x d (suc zero) five lt half pos whole = absurd (grind arith)
large_factor x d (suc (suc zero)) five lt half pos whole =
    let twice : d + d ≡ x = grind arith in (omega arith, omega arith)
large_factor x d (suc (suc (suc k))) five lt half pos whole =
    let more : d + d + d ≤ x = grind arith in absurd (omega arith)

large_divisor :
    (x d : ℕ) → 5 ≤ x → d < x → x / 2 ≤ d → 1 < d → x % d ≡ 0 → (2 < x / 2) × (x % 2 ≡ 0)
large_divisor x d five lt half pos divides =
    large_factor x d (x / d) five lt half pos (omega (arith, mod-add-div x d, divides))

abbrev pub IsPrime : ℕ → Type 0
IsPrime x = (d : ℕ) → 1 < d → d < x → x % d ≢ 0

-- From 5 on `is_prime` is right.
pub is_prime-IsPrime : (x : ℕ) → 5 ≤ x → (is_prime x ≡ true) ↔ IsPrime x
unfolding is_prime
is_prime-IsPrime x five = (sound, complete)
  where
    complete : IsPrime x → no_divisor x 2 x ≡ true
    complete none = NoDivisor-no_divisor x 2 x (λ d le lt. none d (omega arith) (omega arith))

    sound : no_divisor x 2 x ≡ true → IsPrime x
    sound e d pos lt divides =
        let below = no_divisor-NoDivisor x 2 x (omega arith) e in
        elim (dec_lt d (x / 2)) [
          | yes small ↦ below d (omega arith) small divides
          | no large ↦
              let (room, even) = large_divisor x d five lt (omega (arith, large)) pos divides in
              below 2 (omega arith) room even
        ]
