-- ===== src/Search/Pool/Classes.antt =====
-- hw04/pfind.c: how the parts of one thread are related.
use operating_systems_git.Prelude.{ℕ, ◌+◌, ◌≤◌, ◌≡◌, refl, arith, none, some, List}
use operating_systems_git.Search.Pool.{
  Local, unborn, starting, preparing, waiting_start, unstarted, fetching, scanning, handing,
  before_sleep, asleep, woken, finished, failed, crashed,
}
use operating_systems_git.Search.Pool.Parts.{
  hands, aims, work, sleeps, fresh, early, inited, late, started, stray, active, busy, moving,
}

pub one_class : (l : Local) → fresh l + inited l + early l ≡ 1
one_class unborn = omega arith
one_class starting = omega arith
one_class preparing = omega arith
one_class waiting_start = omega arith
one_class unstarted = omega arith
one_class fetching = omega arith
one_class (scanning d) = omega arith
one_class (handing to o r) = omega arith
one_class before_sleep = omega arith
one_class asleep = omega arith
one_class (woken none) = omega arith
one_class (woken (some d)) = omega arith
one_class finished = omega arith
one_class failed = omega arith
one_class crashed = omega arith

pub busy-sleeps : (l : Local) → busy l + sleeps l ≤ inited l + fresh l
busy-sleeps unborn = omega arith
busy-sleeps starting = omega arith
busy-sleeps preparing = omega arith
busy-sleeps waiting_start = omega arith
busy-sleeps unstarted = omega arith
busy-sleeps fetching = omega arith
busy-sleeps (scanning d) = omega arith
busy-sleeps (handing to o r) = omega arith
busy-sleeps before_sleep = omega arith
busy-sleeps asleep = omega arith
busy-sleeps (woken none) = omega arith
busy-sleeps (woken (some d)) = omega arith
busy-sleeps finished = omega arith
busy-sleeps failed = omega arith
busy-sleeps crashed = omega arith

pub busy-late : (l : Local) → late l ≤ busy l
busy-late unborn = omega arith
busy-late starting = omega arith
busy-late preparing = omega arith
busy-late waiting_start = omega arith
busy-late unstarted = omega arith
busy-late fetching = omega arith
busy-late (scanning d) = omega arith
busy-late (handing to o r) = omega arith
busy-late before_sleep = omega arith
busy-late asleep = omega arith
busy-late (woken none) = omega arith
busy-late (woken (some d)) = omega arith
busy-late finished = omega arith
busy-late failed = omega arith
busy-late crashed = omega arith

pub busy-active : (l : Local) → active l ≤ busy l
busy-active unborn = omega arith
busy-active starting = omega arith
busy-active preparing = omega arith
busy-active waiting_start = omega arith
busy-active unstarted = omega arith
busy-active fetching = omega arith
busy-active (scanning d) = omega arith
busy-active (handing to o r) = omega arith
busy-active before_sleep = omega arith
busy-active asleep = omega arith
busy-active (woken none) = omega arith
busy-active (woken (some d)) = omega arith
busy-active finished = omega arith
busy-active failed = omega arith
busy-active crashed = omega arith

pub busy-moving : (l : Local) → moving l ≤ busy l + stray l
busy-moving unborn = omega arith
busy-moving starting = omega arith
busy-moving preparing = omega arith
busy-moving waiting_start = omega arith
busy-moving unstarted = omega arith
busy-moving fetching = omega arith
busy-moving (scanning d) = omega arith
busy-moving (handing to o r) = omega arith
busy-moving before_sleep = omega arith
busy-moving asleep = omega arith
busy-moving (woken none) = omega arith
busy-moving (woken (some d)) = omega arith
busy-moving finished = omega arith
busy-moving failed = omega arith
busy-moving crashed = omega arith

pub moving-ended : (l : Local) → moving l + (early l + late l) ≤ 1
moving-ended unborn = omega arith
moving-ended starting = omega arith
moving-ended preparing = omega arith
moving-ended waiting_start = omega arith
moving-ended unstarted = omega arith
moving-ended fetching = omega arith
moving-ended (scanning d) = omega arith
moving-ended (handing to o r) = omega arith
moving-ended before_sleep = omega arith
moving-ended asleep = omega arith
moving-ended (woken none) = omega arith
moving-ended (woken (some d)) = omega arith
moving-ended finished = omega arith
moving-ended failed = omega arith
moving-ended crashed = omega arith

pub active-early : (l : Local) → 1 ≤ active l + early l + started l
active-early unborn = omega arith
active-early starting = omega arith
active-early preparing = omega arith
active-early waiting_start = omega arith
active-early unstarted = omega arith
active-early fetching = omega arith
active-early (scanning d) = omega arith
active-early (handing to o r) = omega arith
active-early before_sleep = omega arith
active-early asleep = omega arith
active-early (woken none) = omega arith
active-early (woken (some d)) = omega arith
active-early finished = omega arith
active-early failed = omega arith
active-early crashed = omega arith

pub started-late : (l : Local) → late l ≤ started l
started-late unborn = omega arith
started-late starting = omega arith
started-late preparing = omega arith
started-late waiting_start = omega arith
started-late unstarted = omega arith
started-late fetching = omega arith
started-late (scanning d) = omega arith
started-late (handing to o r) = omega arith
started-late before_sleep = omega arith
started-late asleep = omega arith
started-late (woken none) = omega arith
started-late (woken (some d)) = omega arith
started-late finished = omega arith
started-late failed = omega arith
started-late crashed = omega arith

pub started-moving : (l : Local) → moving l ≤ started l + fresh l
started-moving unborn = omega arith
started-moving starting = omega arith
started-moving preparing = omega arith
started-moving waiting_start = omega arith
started-moving unstarted = omega arith
started-moving fetching = omega arith
started-moving (scanning d) = omega arith
started-moving (handing to o r) = omega arith
started-moving before_sleep = omega arith
started-moving asleep = omega arith
started-moving (woken none) = omega arith
started-moving (woken (some d)) = omega arith
started-moving finished = omega arith
started-moving failed = omega arith
started-moving crashed = omega arith

pub busy-work : (term : List ℕ) (l : Local) → busy l ≡ 0 → work term l ≡ 0
busy-work term unborn e = absurd (omega (arith, e))
busy-work term starting e = absurd (omega (arith, e))
busy-work term preparing e = absurd (omega (arith, e))
busy-work term waiting_start e = absurd (omega (arith, e))
busy-work term unstarted e = refl
busy-work term fetching e = absurd (omega (arith, e))
busy-work term (scanning d) e = absurd (omega (arith, e))
busy-work term (handing to o r) e = absurd (omega (arith, e))
busy-work term before_sleep e = absurd (omega (arith, e))
busy-work term asleep e = refl
busy-work term (woken none) e = refl
busy-work term (woken (some d)) e = absurd (omega (arith, e))
busy-work term finished e = refl
busy-work term failed e = absurd (omega (arith, e))
busy-work term crashed e = absurd (omega (arith, e))

pub asleep_of : (l : Local) → 1 ≤ sleeps l → l ≡ asleep
asleep_of unborn e = absurd (omega (arith, e))
asleep_of starting e = absurd (omega (arith, e))
asleep_of preparing e = absurd (omega (arith, e))
asleep_of waiting_start e = absurd (omega (arith, e))
asleep_of unstarted e = absurd (omega (arith, e))
asleep_of fetching e = absurd (omega (arith, e))
asleep_of (scanning d) e = absurd (omega (arith, e))
asleep_of (handing to o r) e = absurd (omega (arith, e))
asleep_of before_sleep e = absurd (omega (arith, e))
asleep_of asleep e = refl
asleep_of (woken none) e = absurd (omega (arith, e))
asleep_of (woken (some d)) e = absurd (omega (arith, e))
asleep_of finished e = absurd (omega (arith, e))
asleep_of failed e = absurd (omega (arith, e))
asleep_of crashed e = absurd (omega (arith, e))

pub started-sleeps : (l : Local) → sleeps l ≤ started l
started-sleeps unborn = omega arith
started-sleeps starting = omega arith
started-sleeps preparing = omega arith
started-sleeps waiting_start = omega arith
started-sleeps unstarted = omega arith
started-sleeps fetching = omega arith
started-sleeps (scanning d) = omega arith
started-sleeps (handing to o r) = omega arith
started-sleeps before_sleep = omega arith
started-sleeps asleep = omega arith
started-sleeps (woken none) = omega arith
started-sleeps (woken (some d)) = omega arith
started-sleeps finished = omega arith
started-sleeps failed = omega arith
started-sleeps crashed = omega arith

pub moving-hands : (l : Local) → hands l ≤ moving l
moving-hands unborn = omega arith
moving-hands starting = omega arith
moving-hands preparing = omega arith
moving-hands waiting_start = omega arith
moving-hands unstarted = omega arith
moving-hands fetching = omega arith
moving-hands (scanning d) = omega arith
moving-hands (handing to o r) = omega arith
moving-hands before_sleep = omega arith
moving-hands asleep = omega arith
moving-hands (woken none) = omega arith
moving-hands (woken (some d)) = omega arith
moving-hands finished = omega arith
moving-hands failed = omega arith
moving-hands crashed = omega arith

pub aims-hands : (t : ℕ) (l : Local) → aims t l ≤ hands l
aims-hands t unborn = omega arith
aims-hands t starting = omega arith
aims-hands t preparing = omega arith
aims-hands t waiting_start = omega arith
aims-hands t unstarted = omega arith
aims-hands t fetching = omega arith
aims-hands t (scanning d) = omega arith
aims-hands t (handing to o r) = ground arith
aims-hands t before_sleep = omega arith
aims-hands t asleep = omega arith
aims-hands t (woken none) = omega arith
aims-hands t (woken (some d)) = omega arith
aims-hands t finished = omega arith
aims-hands t failed = omega arith
aims-hands t crashed = omega arith
