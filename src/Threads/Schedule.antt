-- ===== src/Threads/Schedule.antt =====
-- Threads that run one step at a time, in an order that a list of thread numbers gives.
use operating_systems_git.Prelude.{
  ℕ, ◌<◌, ◌≡◌, Bool, true, false, List, [], ◌∷◌, ltb, if◌then◌else◌, update, Bool-cases, inl, inr,
  ltb→lt, lt→ltb, refl, ◌++◌,
}

-- What holds of both results of a test holds of its result.
pub if-elim :
    {A : Type 0} (P : A → Type 0) (b : Bool) (x y : A)
    → (b ≡ true → P x)
    → (b ≡ false → P y)
    → P (if b then x else y)
if-elim P true x y yes_case no_case = yes_case refl
if-elim P false x y yes_case no_case = no_case refl

-- The shared memory, and the local state of each thread.
pub record World (M L : Type 0) : Type 0 where
  pub mem : M
  pub locals : ℕ → L

module _ {M L : Type 0} where
  abbrev pub place : World M L → ℕ → M × L → World M L
  place w i (m, l) = record { mem = m; locals = update w.locals i l }

  -- One step of thread `i`, if it is one of the first `n`. A thread that has to wait steps to its own
  -- state.
  unfoldable pub turn : (step : M → L → M × L) (n : ℕ) → World M L → ℕ → World M L
  turn step n w i = if ltb i n then place w i (step w.mem (w.locals i)) else w

  unfoldable pub run : (step : M → L → M × L) (n : ℕ) → World M L → List ℕ → World M L
  unfolding turn
  run step n w [] = w
  run step n w (i ∷ is) = run step n (turn step n w i) is

  -- What every step of every thread keeps, every schedule keeps.
  pub run-keeps :
      (step : M → L → M × L) (n : ℕ) (P : World M L → Type 0)
      → ((w : World M L) (i : ℕ) → i < n → P w → P (place w i (step w.mem (w.locals i))))
      → (w : World M L) (is : List ℕ) → P w
      → P (run step n w is)
  unfolding run
  run-keeps step n P keeps w [] p = p
  run-keeps step n P keeps w (i ∷ is) p = elim (Bool-cases (ltb i n)) [
    | inl e ↦ rw e (
        run-keeps step n P keeps (place w i (step w.mem (w.locals i))) is
          (keeps w i (ltb→lt i n e) p))
    | inr e ↦ rw e (run-keeps step n P keeps w is p)
  ]

  -- A schedule that steps a thread of the first `n` first.
  pub run-next :
      (step : M → L → M × L) (n : ℕ) (w : World M L) (i : ℕ) (is : List ℕ)
      → i < n
      → run step n w (i ∷ is) ≡ run step n (place w i (step w.mem (w.locals i))) is
  unfolding run
  run-next step n w i is lt = rw (lt→ltb i n lt) refl

  -- One schedule after another.
  pub run-append :
      (step : M → L → M × L) (n : ℕ) (w : World M L) (is js : List ℕ)
      → run step n w (is ++ js) ≡ run step n (run step n w is) js
  unfolding run
  run-append step n w [] js = refl
  run-append step n w (i ∷ is) js = run-append step n (turn step n w i) is js
