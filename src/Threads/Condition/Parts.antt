-- ===== src/Threads/Condition/Parts.antt =====
-- rec09-mutex/cond_var_ex1.c: what each thread has in a state of the program.
use operating_systems_git.Prelude.{
  ℕ, ◌+◌, ◌≤◌, ◌<◌, ◌≡◌, refl, arith, Bool, true, false, ◌==◌, if◌then◌else◌,
}
use operating_systems_git.Threads.Condition.{
  count_limit, Local, increments, watches, system, inc_lock, counting, checking, inc_unlock,
  inc_loaded, watch_loaded, inc_finished, watch_lock, testing, waiting, adding, watch_unlock,
  watch_finished, is_finished,
}

-- What a thread has yet to add.
abbrev pub pending : Local → ℕ
pending (increments (inc_lock left)) = left
pending (increments (counting left)) = left + 1
pending (increments (inc_loaded left value)) = left + 1
pending (increments (checking left)) = left
pending (increments (inc_unlock left)) = left
pending (increments inc_finished) = 0
pending (watches watch_lock) = 125
pending (watches testing) = 125
pending (watches waiting) = 125
pending (watches adding) = 125
pending (watches (watch_loaded value)) = 125
pending (watches watch_unlock) = 0
pending (watches watch_finished) = 0
pending system = 0

-- A thread that holds `count_mutex`.
abbrev pub holds : Local → ℕ
holds (increments (counting left)) = 1
holds (increments (inc_loaded left value)) = 1
holds (increments (checking left)) = 1
holds (increments (inc_unlock left)) = 1
holds (watches testing) = 1
holds (watches adding) = 1
holds (watches (watch_loaded value)) = 1
holds (watches watch_unlock) = 1
holds _ = 0

-- A thread that is about to test the counter for a signal, and one that is about to add to it.
abbrev pub tests : Local → ℕ
tests (increments (checking left)) = 1
tests _ = 0

-- A thread that has read another value of `count` than this one.
abbrev pub stale : (count : ℕ) → Local → ℕ
stale c (increments (inc_loaded left value)) = if value == c then 0 else 1
stale c (watches (watch_loaded value)) = if value == c then 0 else 1
stale _ _ = 0

abbrev pub watcher : Local → ℕ
watcher (watches l) = 1
watcher _ = 0

-- A watcher in the wait.
abbrev pub waits_there : Local → ℕ
waits_there (watches waiting) = 1
waits_there _ = 0

abbrev pub flag : Bool → ℕ
flag true = 1
flag false = 0

pub flag-le : (b : Bool) → flag b ≤ 1
flag-le true = omega arith
flag-le false = omega arith

pub tests-holds : (l : Local) → tests l ≤ holds l
tests-holds (increments (inc_lock left)) = omega arith
tests-holds (increments (counting left)) = omega arith
tests-holds (increments (inc_loaded left value)) = omega arith
tests-holds (increments (checking left)) = omega arith
tests-holds (increments (inc_unlock left)) = omega arith
tests-holds (increments inc_finished) = omega arith
tests-holds (watches watch_lock) = omega arith
tests-holds (watches testing) = omega arith
tests-holds (watches waiting) = omega arith
tests-holds (watches adding) = omega arith
tests-holds (watches (watch_loaded value)) = omega arith
tests-holds (watches watch_unlock) = omega arith
tests-holds (watches watch_finished) = omega arith
tests-holds system = omega arith

pub waits_there-watcher : (l : Local) → waits_there l ≤ watcher l
waits_there-watcher (increments l) = omega arith
waits_there-watcher (watches watch_lock) = omega arith
waits_there-watcher (watches testing) = omega arith
waits_there-watcher (watches waiting) = omega arith
waits_there-watcher (watches adding) = omega arith
waits_there-watcher (watches (watch_loaded value)) = omega arith
waits_there-watcher (watches watch_unlock) = omega arith
waits_there-watcher (watches watch_finished) = omega arith
waits_there-watcher system = omega arith

pub stale-holds : (c : ℕ) (l : Local) → stale c l ≤ holds l
stale-holds c (increments (inc_lock left)) = omega arith
stale-holds c (increments (counting left)) = omega arith
stale-holds c (increments (inc_loaded left value)) = ground arith
stale-holds c (increments (checking left)) = omega arith
stale-holds c (increments (inc_unlock left)) = omega arith
stale-holds c (increments inc_finished) = omega arith
stale-holds c (watches watch_lock) = omega arith
stale-holds c (watches testing) = omega arith
stale-holds c (watches waiting) = omega arith
stale-holds c (watches adding) = omega arith
stale-holds c (watches (watch_loaded value)) = ground arith
stale-holds c (watches watch_unlock) = omega arith
stale-holds c (watches watch_finished) = omega arith
stale-holds c system = omega arith

-- A test that finds another value than the limit leaves the counter below it.
pub passed :
    (c t : ℕ)
    → (c == count_limit) ≡ false
    → t ≡ 1
    → c < count_limit + t
    → c + 1 < count_limit + t + 0
passed c t other one less = ground (arith, other, one, less)

pub finished-parts : (l : Local) → is_finished l ≡ true → (pending l ≡ 0) × (tests l ≡ 0)
finished-parts (increments inc_finished) e = (refl, refl)
finished-parts (watches watch_finished) e = (refl, refl)
finished-parts (increments (inc_lock left)) e = cc
finished-parts (increments (counting left)) e = cc
finished-parts (increments (inc_loaded left value)) e = cc
finished-parts (increments (checking left)) e = cc
finished-parts (increments (inc_unlock left)) e = cc
finished-parts (watches watch_lock) e = cc
finished-parts (watches testing) e = cc
finished-parts (watches waiting) e = cc
finished-parts (watches adding) e = cc
finished-parts (watches (watch_loaded value)) e = cc
finished-parts (watches watch_unlock) e = cc
finished-parts system e = cc
