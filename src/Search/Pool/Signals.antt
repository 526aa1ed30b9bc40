-- ===== src/Search/Pool/Signals.antt =====
-- hw04/pfind.c: what the signals of `main` change in a thread.
use operating_systems_git.Search.Pool.Parts.{room}
use operating_systems_git.Prelude.{lt→ltb}
use operating_systems_git.Search.Pool.Parts.{parked}
use operating_systems_git.Prelude.{
  ℕ, ◌≤◌, ◌<◌, ◌≡◌, refl, arith, none, some, Bool, false, ltb, if◌then◌else◌,
}
use operating_systems_git.Search.Pool.{
  Local, unborn, starting, preparing, waiting_start, unstarted, fetching, scanning, handing,
  before_sleep, asleep, woken, finished, failed, crashed,
}
use operating_systems_git.Search.Pool.Program.{start_work, wake_up}
use operating_systems_git.Search.Pool.Parts.{sleeps, busy}

pub start_work-same :
    (f : Local → ℕ) → f fetching ≡ f waiting_start → (l : Local) → f (start_work l) ≡ f l
start_work-same f e unborn = refl
start_work-same f e starting = refl
start_work-same f e preparing = refl
start_work-same f e waiting_start = e
start_work-same f e unstarted = refl
start_work-same f e fetching = refl
start_work-same f e (scanning d) = refl
start_work-same f e (handing to o r) = refl
start_work-same f e before_sleep = refl
start_work-same f e asleep = refl
start_work-same f e (woken none) = refl
start_work-same f e (woken (some d)) = refl
start_work-same f e finished = refl
start_work-same f e failed = refl
start_work-same f e crashed = refl

pub busy-wake_up : (l : Local) → busy (wake_up l) ≤ busy l
busy-wake_up unborn = omega arith
busy-wake_up starting = omega arith
busy-wake_up preparing = omega arith
busy-wake_up waiting_start = omega arith
busy-wake_up unstarted = omega arith
busy-wake_up fetching = omega arith
busy-wake_up (scanning d) = omega arith
busy-wake_up (handing to o r) = omega arith
busy-wake_up before_sleep = omega arith
busy-wake_up asleep = omega arith
busy-wake_up (woken none) = omega arith
busy-wake_up (woken (some d)) = omega arith
busy-wake_up finished = omega arith
busy-wake_up failed = omega arith
busy-wake_up crashed = omega arith

pub not_less : (a b : ℕ) → ltb a b ≡ false → b ≤ a
not_less a b e = ground (arith, e)

pub parked-start_work : (l : Local) → parked (start_work l) ≡ 0
parked-start_work unborn = refl
parked-start_work starting = refl
parked-start_work preparing = refl
parked-start_work waiting_start = refl
parked-start_work unstarted = refl
parked-start_work fetching = refl
parked-start_work (scanning d) = refl
parked-start_work (handing to o r) = refl
parked-start_work before_sleep = refl
parked-start_work asleep = refl
parked-start_work (woken none) = refl
parked-start_work (woken (some d)) = refl
parked-start_work finished = refl
parked-start_work failed = refl
parked-start_work crashed = refl

pub sleeps-wake_up : (l : Local) → sleeps (wake_up l) ≡ 0
sleeps-wake_up unborn = refl
sleeps-wake_up starting = refl
sleeps-wake_up preparing = refl
sleeps-wake_up waiting_start = refl
sleeps-wake_up unstarted = refl
sleeps-wake_up fetching = refl
sleeps-wake_up (scanning d) = refl
sleeps-wake_up (handing to o r) = refl
sleeps-wake_up before_sleep = refl
sleeps-wake_up asleep = refl
sleeps-wake_up (woken none) = refl
sleeps-wake_up (woken (some d)) = refl
sleeps-wake_up finished = refl
sleeps-wake_up failed = refl
sleeps-wake_up crashed = refl

abbrev pub count_of : Bool → ℕ
count_of b = if b then 1 else 0

pub room-lt : (n t : ℕ) (g : ℕ → Local) → t < n → room n t g ≡ sleeps (g t)
room-lt n t g lt = rw (lt→ltb t n lt) refl
