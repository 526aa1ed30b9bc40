-- ===== src/Threads/Primes.antt =====
-- rec09-mutex/mutex_ex3.c: threads that take numbers from a shared counter and print the primes.
pub mod Test
pub mod Invariant
use operating_systems_git.Prelude.{
  ℕ, zero, suc, ◌+◌, ◌/◌, ◌%◌, ◌^◌, Bool, true, false, List, [], ◌∷◌, ◌==◌, ltb, if◌then◌else◌,
}
use operating_systems_git.Threads.Schedule.{World}
use operating_systems_git.Threads.Joining.{Outcome, waits, exits_early, prints, joined, launched}

-- The loop of `is_prime` from `i`, on fuel; it tests a number, the C function returns 1 or 0.
unfoldable pub no_divisor : ℕ → (i x : ℕ) → Bool
no_divisor zero i x = true
no_divisor (suc fuel) i x =
    let rest = no_divisor fuel (i + 1) x in
    if ltb i (x / 2) then (if x % i == 0 then false else rest) else true

unfoldable pub is_prime : ℕ → Bool
is_prime x = no_divisor x 2 x

-- `counter`, an atomic `int` kept modulo 2^32, and the numbers printed, the last one first.
pub record Shared : Type 0 where
  pub counter : ℕ
  pub printed : List ℕ

-- A thread of `prime_print` with the values of its `i` and `j`: at the test of its loop, or with a
-- new `j` that is not tested yet.
pub data Local : Type 0 where
  looping claimed : (i j : ℕ) → Local
  finished : (i j : ℕ) → Local

-- The next step of `prime_print` with `TOTAL` = `limit`; `next_counter` is its atomic `++counter`.
-- The test takes the `int` for unsigned, which is the same below 2^31; `TOTAL` is 10^5.
unfoldable pub prime_print : (limit : ℕ) → Shared → Local → Shared × Local
prime_print limit s (looping i j) =
    let c = (s.counter + 1) % 2 ^ 32 in
    if ltb j limit then (record s { counter = c }, claimed (i + 1) c) else (s, finished i j)
prime_print limit s (claimed i j) =
    (record s { printed = if is_prime j then j ∷ s.printed else s.printed }, looping i j)
prime_print limit s (finished i j) = (s, finished i j)

abbrev pub boot : World Shared Local
boot = record { mem = record { counter = 1; printed = [] }; locals = λ _. looping 0 0 }

abbrev pub is_finished : Local → Bool
is_finished (finished i j) = true
is_finished _ = false

-- What `main` has come to in this world.
unfoldable pub main : ℕ → (created : ℕ → Bool) → World Shared Local → Outcome
main n created w =
    if launched n created
    then if joined is_finished n w.locals then prints w.mem.counter else waits
    else exits_early
