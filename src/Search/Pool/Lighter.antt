-- ===== src/Search/Pool/Lighter.antt =====
-- hw04/pfind.c: what the signals of `main` change of the steps still to be made.
use operating_systems_git.Prelude.{ℕ, ◌+◌, ◌≤◌, ◌≡◌, ap, arith, false, none, some}
use operating_systems_git.Search.Pool.{
  Local, unborn, starting, preparing, waiting_start, unstarted, fetching, scanning, handing,
  before_sleep, asleep, woken, finished, failed, crashed, Main,
}
use operating_systems_git.Search.Pool.Weight.{faults, weight, gives_up}
use operating_systems_git.Search.Pool.{exits}
use operating_systems_git.Search.Pool.Program.{start_work, wake_up}
use operating_systems_git.Search.Pool.Parts.{sleeps}

pub weight-start_work : (l : Local) → weight (start_work l) ≤ weight l
weight-start_work unborn = omega arith
weight-start_work starting = omega arith
weight-start_work preparing = omega arith
weight-start_work waiting_start = omega arith
weight-start_work unstarted = omega arith
weight-start_work fetching = omega arith
weight-start_work (scanning d) = omega arith
weight-start_work (handing to o r) = omega arith
weight-start_work before_sleep = omega arith
weight-start_work asleep = omega arith
weight-start_work (woken none) = omega arith
weight-start_work (woken (some d)) = omega arith
weight-start_work finished = omega arith
weight-start_work failed = omega arith
weight-start_work crashed = omega arith

pub faults-start_work : (l : Local) → faults (start_work l) ≤ faults l
faults-start_work unborn = omega arith
faults-start_work starting = omega arith
faults-start_work preparing = omega arith
faults-start_work waiting_start = omega arith
faults-start_work unstarted = omega arith
faults-start_work fetching = omega arith
faults-start_work (scanning d) = omega arith
faults-start_work (handing to o r) = omega arith
faults-start_work before_sleep = omega arith
faults-start_work asleep = omega arith
faults-start_work (woken none) = omega arith
faults-start_work (woken (some d)) = omega arith
faults-start_work finished = omega arith
faults-start_work failed = omega arith
faults-start_work crashed = omega arith

pub weight-wake_up : (l : Local) → weight (wake_up l) ≤ weight l + 1
weight-wake_up unborn = omega arith
weight-wake_up starting = omega arith
weight-wake_up preparing = omega arith
weight-wake_up waiting_start = omega arith
weight-wake_up unstarted = omega arith
weight-wake_up fetching = omega arith
weight-wake_up (scanning d) = omega arith
weight-wake_up (handing to o r) = omega arith
weight-wake_up before_sleep = omega arith
weight-wake_up asleep = omega arith
weight-wake_up (woken none) = omega arith
weight-wake_up (woken (some d)) = omega arith
weight-wake_up finished = omega arith
weight-wake_up failed = omega arith
weight-wake_up crashed = omega arith

pub faults-wake_up : (l : Local) → faults (wake_up l) ≤ faults l
faults-wake_up unborn = omega arith
faults-wake_up starting = omega arith
faults-wake_up preparing = omega arith
faults-wake_up waiting_start = omega arith
faults-wake_up unstarted = omega arith
faults-wake_up fetching = omega arith
faults-wake_up (scanning d) = omega arith
faults-wake_up (handing to o r) = omega arith
faults-wake_up before_sleep = omega arith
faults-wake_up asleep = omega arith
faults-wake_up (woken none) = omega arith
faults-wake_up (woken (some d)) = omega arith
faults-wake_up finished = omega arith
faults-wake_up failed = omega arith
faults-wake_up crashed = omega arith

pub sleeps_le : (l : Local) → sleeps l ≤ 1
sleeps_le unborn = omega arith
sleeps_le starting = omega arith
sleeps_le preparing = omega arith
sleeps_le waiting_start = omega arith
sleeps_le unstarted = omega arith
sleeps_le fetching = omega arith
sleeps_le (scanning d) = omega arith
sleeps_le (handing to o r) = omega arith
sleeps_le before_sleep = omega arith
sleeps_le asleep = omega arith
sleeps_le (woken none) = omega arith
sleeps_le (woken (some d)) = omega arith
sleeps_le finished = omega arith
sleeps_le failed = omega arith
sleeps_le crashed = omega arith

pub conflict : (m : Main) (status : ℕ) → m ≡ exits status → gives_up m ≡ false → ◌≡◌ {A = ℕ} 1 0
conflict m status at e = let gone = ap gives_up at in cc
