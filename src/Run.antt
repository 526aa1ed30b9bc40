-- ===== src/Run.antt =====
-- Runs of stateful C code: a command takes the state and ends in one of four ways.
use operating_systems_git.Prelude.{ℕ, ◌≡◌, ap}

-- `ok` is a normal return. `exited` is a call of `exit`, with its code. `fault` is a read or a write
-- through a null or dangling pointer. `out_of_fuel` says that a loop was given too few rounds.
pub data Run (S A : Type 0) : Type 0 where
  ok : A → S → Run S A
  exited : ℕ → Run S A
  fault : Run S A
  out_of_fuel : Run S A

abbrev pub Cmd : Type 0 → Type 0 → Type 0
Cmd S A = S → Run S A

module _ {S A : Type 0} where
  abbrev pub pure : A → Cmd S A
  pure a = λ s. ok a s

  -- Reads a part of the state.
  abbrev pub gets : (S → A) → Cmd S A
  gets f = λ s. ok (f s) s

abbrev pub modify : {S : Type 0} → (S → S) → Cmd S (Unit {0})
modify f = λ s. ok tt (f s)

abbrev pub exit : {S A : Type 0} → ℕ → Cmd S A
exit n = λ s. exited n

module _ {S A B : Type 0} where
  abbrev pub and_then : Run S A → (A → Cmd S B) → Run S B
  and_then (ok a s) k = k a s
  and_then (exited n) k = exited n
  and_then fault k = fault
  and_then out_of_fuel k = out_of_fuel

  infixl 5 ◌>>=◌ ◌>>◌
  abbrev pub ◌>>=◌ : Cmd S A → (A → Cmd S B) → Cmd S B
  m >>= k = λ s. and_then (m s) k

  abbrev pub ◌>>◌ : Cmd S A → Cmd S B → Cmd S B
  m >> n = m >>= λ _. n

  -- A first part that returns hands its value on.
  pub and_then_ok :
      (k : A → Cmd S B) {r : Run S A} {a : A} {s : S} → r ≡ ok a s → and_then r k ≡ k a s
  and_then_ok k e = ap (λ x. and_then x k) e
