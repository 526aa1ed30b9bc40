-- ===== src/Threads/Sum.antt =====
-- Sums over the first threads.
use operating_systems_git.Prelude.{
  ℕ, zero, suc, ◌+◌, ◌*◌, ◌≤◌, ◌<◌, ◌≡◌, ◌≢◌, refl, arith, ℕ_discrete, ne→==, ==_refl, update,
}

module _ {L : Type 0} (f : L → ℕ) where
  abbrev pub total : ℕ → (ℕ → L) → ℕ
  total zero g = 0
  total (suc n) g = total n g + f (g n)

  pub total_beyond : (n i : ℕ) (g : ℕ → L) (l : L) → n ≤ i → total n (update g i l) ≡ total n g
  total_beyond zero i g l le = refl
  total_beyond (suc n) i g l le =
      rw (ne→== n i (omega arith)) (omega (arith, total_beyond n i g l (omega arith)))

  -- A step of thread `i` changes its own part of the sum.
  pub total-update :
      (n i : ℕ) (g : ℕ → L) (l : L) → i < n → total n (update g i l) + f (g i) ≡ total n g + f l
  total-update zero i g l lt = absurd (omega arith)
  total-update (suc n) i g l lt = elim (ℕ_discrete n i) [
    | yes e ↦ rw (e, ==_refl i) (omega (arith, total_beyond i i g l (omega arith)))
    | no ne ↦ rw (ne→== n i ne) (omega (arith, total-update n i g l (omega (arith, ne))))
  ]

  pub total-const : (n k : ℕ) (l : L) → f l ≡ k → total n (λ _. l) ≡ n * k
  total-const zero k l e = omega arith
  total-const (suc n) k l e = grind (arith, total-const n k l e)

  pub le-total : (n i : ℕ) (g : ℕ → L) → i < n → f (g i) ≤ total n g
  le-total zero i g lt = absurd (omega arith)
  le-total (suc n) i g lt = elim (ℕ_discrete n i) [
    | yes e ↦ rw e (omega arith)
    | no ne ↦ omega (arith, le-total n i g (omega (arith, ne)), ne)
  ]

  pub total-zero : (n : ℕ) (g : ℕ → L) → ((i : ℕ) → i < n → f (g i) ≡ 0) → total n g ≡ 0
  total-zero zero g all = refl
  total-zero (suc n) g all =
      omega (arith, all n (omega arith), total-zero n g (λ i lt. all i (omega arith)))

  -- The parts of two threads.
  pub two-le-total :
      (n i j : ℕ) (g : ℕ → L) (l : L)
      → f l ≡ 0
      → i < n
      → j < n
      → j ≢ i
      → f (g i) + f (g j) ≤ total n g
  two-le-total n i j g l none lt lt' ne =
      let other : f (update g i l j) ≡ f (g j) = rw (ne→== j i ne) refl in
      omega (arith, total-update n i g l lt, le-total n j (update g i l) lt', other, none)

  -- A sum that is not zero has a part that is not.
  pub positive-total : (n : ℕ) (g : ℕ → L) → 0 < total n g → (i : ℕ) × (i < n) × (0 < f (g i))
  positive-total zero g pos = absurd (omega arith)
  positive-total (suc n) g pos = elim (ℕ_discrete (f (g n)) 0) [
    | yes none ↦
        let (i, lt, some_part) = positive-total n g (omega (arith, pos, none)) in
        (i, omega arith, some_part)
    | no part ↦ (n, omega arith, omega (arith, part))
  ]

  pub total-zero-part : (n i : ℕ) (g : ℕ → L) → total n g ≡ 0 → i < n → f (g i) ≡ 0
  total-zero-part n i g none lt = omega (arith, none, le-total n i g lt)

  pub total-le : ((l : L) → f l ≤ 1) → (n : ℕ) (g : ℕ → L) → total n g ≤ n
  total-le small zero g = omega arith
  total-le small (suc n) g = omega (arith, total-le small n g, small (g n))

-- A sum of smaller parts.
pub total_mono :
    {L : Type 0} (f g : L → ℕ)
    → ((l : L) → f l ≤ g l)
    → (n : ℕ) (locals : ℕ → L) → total f n locals ≤ total g n locals
total_mono f g le zero locals = omega arith
total_mono f g le (suc n) locals = omega (arith, total_mono f g le n locals, le (locals n))

-- A part of a thread that has the only part of a larger sum.
pub alone :
    {L : Type 0} (f g : L → ℕ)
    → ((l : L) → f l ≤ g l)
    → (none : L) → g none ≡ 0
    → (n i : ℕ) (locals : ℕ → L) → i < n
    → total g n locals ≤ g (locals i)
    → total f n locals ≡ f (locals i)
alone f g le none zero_part n i locals lt only =
    let rest = total_mono f g le n (update locals i none) in
    omega (
      arith,
      rest,
      only,
      le none,
      zero_part,
      total-update g n i locals none lt,
      total-update f n i locals none lt,
    )

-- Sums of parts that add up.
pub total_mono_two :
    {L : Type 0} (f g h k : L → ℕ)
    → ((l : L) → f l + g l ≤ h l + k l)
    → (n : ℕ) (locals : ℕ → L)
    → total f n locals + total g n locals ≤ total h n locals + total k n locals
total_mono_two f g h k le zero locals = omega arith
total_mono_two f g h k le (suc n) locals =
    omega (arith, total_mono_two f g h k le n locals, le (locals n))

pub total-classes :
    {L : Type 0} (f g h : L → ℕ)
    → ((l : L) → f l + g l + h l ≡ 1)
    → (n : ℕ) (locals : ℕ → L) → total f n locals + total g n locals + total h n locals ≡ n
total-classes f g h one zero locals = refl
total-classes f g h one (suc n) locals =
    omega (arith, total-classes f g h one n locals, one (locals n))

pub total_le_three :
    {L : Type 0} (f g h : L → ℕ)
    → ((l : L) → f l + (g l + h l) ≤ 1)
    → (n : ℕ) (locals : ℕ → L) → total f n locals + (total g n locals + total h n locals) ≤ n
total_le_three f g h one zero locals = omega arith
total_le_three f g h one (suc n) locals =
    omega (arith, total_le_three f g h one n locals, one (locals n))

pub le_total_three :
    {L : Type 0} (f g h : L → ℕ)
    → ((l : L) → 1 ≤ f l + g l + h l)
    → (n : ℕ) (locals : ℕ → L) → n ≤ total f n locals + total g n locals + total h n locals
le_total_three f g h one zero locals = omega arith
le_total_three f g h one (suc n) locals =
    omega (arith, le_total_three f g h one n locals, one (locals n))

pub total-map :
    {L : Type 0} (f : L → ℕ) (h : L → L)
    → ((l : L) → f (h l) ≡ f l)
    → (n : ℕ) (locals : ℕ → L) → total f n (λ i. h (locals i)) ≡ total f n locals
total-map f h same zero locals = refl
total-map f h same (suc n) locals = omega (arith, total-map f h same n locals, same (locals n))

pub total_map_le :
    {L : Type 0} (f : L → ℕ) (h : L → L)
    → ((l : L) → f (h l) ≤ f l)
    → (n : ℕ) (locals : ℕ → L) → total f n (λ i. h (locals i)) ≤ total f n locals
total_map_le f h less zero locals = omega arith
total_map_le f h less (suc n) locals =
    omega (arith, total_map_le f h less n locals, less (locals n))
