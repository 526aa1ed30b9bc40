-- ===== src/Threads/Condition/Invariant.antt =====
-- rec09-mutex/cond_var_ex1.c: what every order of steps keeps.
use operating_systems_git.Prelude.{
  ℕ, zero, suc, ◌+◌, ◌%◌, ◌^◌, ◌≤◌, ◌<◌, ◌≡◌, inl, inr, refl, ap, arith, true, false, List, ◌==◌,
  ltb, ltb→lt, update, Bool-cases, Bool, if◌then◌else◌, subst, ==_iff, ==_refl,
}
use operating_systems_git.Threads.Schedule.{World, place, run, run-keeps, if-elim}
use operating_systems_git.Threads.Sum.{total, total-update, le-total, alone}
use operating_systems_git.Threads.Condition.{
  count_limit, Shared, Local, Inc, Watch, increments, watches, system, inc_lock, counting, checking,
  inc_loaded, watch_loaded, inc_unlock, inc_finished, watch_lock, testing, waiting, adding,
  watch_unlock, watch_finished, inc_count, watch_count, step, boot,
}
use operating_systems_git.Threads.Condition.Parts.{
  pending, holds, tests, watcher, waits_there, flag, flag-le, tests-holds, waits_there-watcher,
  passed, stale, stale-holds,
}

pub record Inv (n all : ℕ) (w : World Shared Local) : Type 0 where
  pub added : w.mem.count + total pending n w.locals ≡ all
  pub owned : flag w.mem.held ≡ total holds n w.locals
  pub one_watcher : total watcher n w.locals ≡ 1
  pub in_wait : flag w.mem.blocked ≤ total waits_there n w.locals
  pub current : total (stale w.mem.count) n w.locals ≡ 0
  pub to_wake : w.mem.blocked ≡ true → w.mem.count < count_limit + total tests n w.locals

module _ (n all : ℕ) (small : all < 2 ^ 32) (m : Shared) (locals : ℕ → Local)
    (inv : Inv n all (record { mem = m; locals = locals })) (i : ℕ) (lt : i < n) where
  only_test : (l : Local) → locals i ≡ l → holds l ≡ 1 → total tests n locals ≡ tests l
  only_test l e own = omega (
    arith,
    alone tests holds tests-holds system refl n i locals lt
        (omega (arith, inv.owned, flag-le m.held, ap holds e, own)),
    ap tests e,
  )

  only_reads :
      (c : ℕ) (l : Local) → locals i ≡ l → holds l ≡ 1 → total (stale c) n locals ≡ stale c l
  only_reads c l e own = omega (
    arith,
    alone (stale c) holds (stale-holds c) system refl n i locals lt
        (omega (arith, inv.owned, flag-le m.held, ap holds e, own)),
    ap (stale c) e,
  )

  -- What a thread has read is the value of `count`.
  reads_count :
      (value : ℕ) (l : Local)
      → locals i ≡ l
      → stale m.count l ≡ (if value == m.count then 0 else 1)
      → value ≡ m.count
  reads_count value l e is_read =
      let none : (if value == m.count then 0 else 1) ≡ zero = omega (
        arith,
        is_read,
        inv.current,
        le-total (stale m.count) n i locals lt,
        ap (stale m.count) e,
      ) in
      elim (Bool-cases (value == m.count)) [
        | inl b ↦ (==_iff value m.count).0 b
        | inr b ↦
            absurd (omega (arith, subst (λ (c : Bool). (if c then zero else 1) ≡ zero) b none))
      ]

  only_wait :
      (l : Local) → locals i ≡ l → watcher l ≡ 1 → total waits_there n locals ≡ waits_there l
  only_wait l e own = omega (
    arith,
    alone waits_there watcher waits_there-watcher system refl n i locals lt
        (omega (arith, inv.one_watcher, ap watcher e, own)),
    ap waits_there e,
  )

  build :
      (l l' : Local) (m' : Shared)
      → locals i ≡ l
      → m'.count + pending l' ≡ m.count + pending l
      → flag m'.held + holds l ≡ flag m.held + holds l'
      → watcher l' ≡ watcher l
      → total (stale m'.count) n locals + stale m'.count l' ≡ stale m'.count l
      → flag m'.blocked + waits_there l ≤ total waits_there n locals + waits_there l'
      → (m'.blocked ≡ true → m'.count + tests l < count_limit + total tests n locals + tests l')
      → Inv n all (record { mem = m'; locals = update locals i l' })
  build l l' m' e added owned same reads in_wait to_wake = record {
    added = omega (arith, inv.added, total-update pending n i locals l' lt, ap pending e, added);
    owned = omega (arith, inv.owned, total-update holds n i locals l' lt, ap holds e, owned);
    one_watcher =
        omega (arith, inv.one_watcher, total-update watcher n i locals l' lt, ap watcher e, same);
    current =
        omega (arith, reads, total-update (stale m'.count) n i locals l' lt, ap (stale m'.count) e);
    in_wait = omega (arith, total-update waits_there n i locals l' lt, ap waits_there e, in_wait);
    to_wake = λ b. omega (arith, total-update tests n i locals l' lt, ap tests e, to_wake b);
  }

  -- A step that leaves the counter, the lock and the wait as they are.
  quiet :
      (l l' : Local)
      → locals i ≡ l
      → pending l' ≡ pending l
      → holds l' ≡ holds l
      → watcher l' ≡ watcher l
      → waits_there l' ≡ waits_there l
      → tests l' ≡ tests l
      → stale m.count l' ≡ 0
      → Inv n all (record { mem = m; locals = update locals i l' })
  quiet l l' e p h w a t r =
      build l l' m e (omega (arith, p)) (omega (arith, h)) w
        (omega
          (arith, r, inv.current, le-total (stale m.count) n i locals lt, ap (stale m.count) e))
        (omega (arith, a, inv.in_wait)) (λ b. omega (arith, t, inv.to_wake b))

  -- A blocked watcher has its turn later, whatever another of its own states says.
  not_blocked : (l : Watch) → locals i ≡ watches l → waits_there (watches l) ≡ 0 → m.blocked ≡ false
  not_blocked l e none = elim (Bool-cases m.blocked) [
    | inl b ↦ absurd (omega (arith, only_wait (watches l) e refl, none, inv.in_wait, ap flag b))
    | inr b ↦ b
  ]

  small_step :
      (l : Local) (k : ℕ) → locals i ≡ l → k ≤ pending l → (m.count + k) % 2 ^ 32 ≡ m.count + k
  small_step l k e le =
      omega (arith, small, inv.added, le-total pending n i locals lt, ap pending e, le)

  keeps_inc :
      (l : Inc)
      → locals i ≡ increments l
      → let r = inc_count m l in
        Inv n all (record { mem = r.0; locals = update locals i (increments r.1) })
  unfolding inc_count
  keeps_inc (inc_lock zero) e =
      quiet (increments (inc_lock 0)) (increments inc_finished) e refl refl refl refl refl refl
  keeps_inc (inc_lock (suc left)) e =
      if-elim
        (λ (r : Shared × Inc).
          Inv n all (record { mem = r.0; locals = update locals i (increments r.1) }))
        m.held (m, inc_lock (suc left)) (record m { held = true }, counting left)
        (λ busy.
          quiet (increments (inc_lock (suc left))) (increments (inc_lock (suc left))) e refl refl
            refl refl refl refl)
        (λ free.
          build (increments (inc_lock (suc left))) (increments (counting left))
            (record m { held = true }) e (omega arith) (omega (arith, ap flag free)) refl
            (omega (arith, inv.current)) (omega (arith, inv.in_wait))
            (λ b. omega (arith, inv.to_wake b)))
  keeps_inc (counting left) e =
      quiet (increments (counting left)) (increments (inc_loaded left m.count)) e refl refl refl
        refl refl (rw (==_refl m.count) refl)
  keeps_inc (inc_loaded left value) e =
      let l = increments (inc_loaded left value) in
      let same = reads_count value l e refl in
      let more = small_step l 1 e (omega arith) in
      let m' = record m { count = (value + 1) % 2 ^ 32 } in
      build l (increments (checking left)) m' e (omega (arith, more, same)) refl refl
        (omega (arith, only_reads m'.count l e refl)) (omega (arith, inv.in_wait))
        (λ b. omega (arith, more, same, inv.to_wake b, only_test l e refl))
  keeps_inc (checking left) e = elim (Bool-cases (m.count == count_limit)) [
    | inl reached ↦ rw reached (
        build (increments (checking left)) (increments (inc_unlock left))
          (record m { blocked = false }) e refl refl refl (omega (arith, inv.current)) (omega arith)
          (λ b. cc))
    | inr other ↦ rw other (
        build (increments (checking left)) (increments (inc_unlock left)) m e refl refl refl
          (omega (arith, inv.current)) (omega (arith, inv.in_wait))
          (λ b.
            passed m.count (total tests n locals) other
              (only_test (increments (checking left)) e refl) (inv.to_wake b)))
  ]
  keeps_inc (inc_unlock left) e =
      build (increments (inc_unlock left)) (increments (inc_lock left)) (record m { held = false })
        e refl (omega (arith, inv.owned, le-total holds n i locals lt, ap holds e, flag-le m.held))
        refl (omega (arith, inv.current)) (omega (arith, inv.in_wait))
        (λ b. omega (arith, inv.to_wake b))
  keeps_inc inc_finished e =
      quiet (increments inc_finished) (increments inc_finished) e refl refl refl refl refl refl

  keeps_watch :
      (l : Watch)
      → locals i ≡ watches l
      → let r = watch_count m l in
        Inv n all (record { mem = r.0; locals = update locals i (watches r.1) })
  unfolding watch_count
  keeps_watch watch_lock e =
      if-elim
        (λ (r : Shared × Watch).
          Inv n all (record { mem = r.0; locals = update locals i (watches r.1) }))
        m.held (m, watch_lock) (record m { held = true }, testing)
        (λ busy. quiet (watches watch_lock) (watches watch_lock) e refl refl refl refl refl refl)
        (λ free.
          build (watches watch_lock) (watches testing) (record m { held = true }) e refl
            (omega (arith, ap flag free)) refl (omega (arith, inv.current))
            (omega (arith, inv.in_wait)) (λ b. omega (arith, inv.to_wake b)))
  keeps_watch testing e = elim (Bool-cases (ltb m.count count_limit)) [
    | inl less ↦ rw less (
        build (watches testing) (watches waiting) (record m { held = false; blocked = true }) e refl
          (omega (arith, inv.owned, le-total holds n i locals lt, ap holds e, flag-le m.held)) refl
          (omega (arith, inv.current)) (omega arith)
          (λ b. omega (arith, ltb→lt m.count count_limit less)))
    | inr enough ↦
        rw enough (quiet (watches testing) (watches adding) e refl refl refl refl refl refl)
  ]
  keeps_watch waiting e =
      if-elim
        (λ (r : Shared × Watch).
          Inv n all (record { mem = r.0; locals = update locals i (watches r.1) }))
        m.blocked (m, waiting) (m, watch_lock)
        (λ busy. quiet (watches waiting) (watches waiting) e refl refl refl refl refl refl)
        (λ free.
          build (watches waiting) (watches watch_lock) m e refl refl refl
            (omega (arith, inv.current))
            (omega (arith, ap flag free, only_wait (watches waiting) e refl)) (λ b. cc))
  keeps_watch adding e =
      quiet (watches adding) (watches (watch_loaded m.count)) e refl refl refl refl refl
        (rw (==_refl m.count) refl)
  keeps_watch (watch_loaded value) e =
      let l = watches (watch_loaded value) in
      let same = reads_count value l e refl in
      let more = small_step l 125 e (omega arith) in
      let free = not_blocked (watch_loaded value) e refl in
      let m' = record m { count = (value + 125) % 2 ^ 32 } in
      build l (watches watch_unlock) m' e (omega (arith, more, same)) refl refl
        (omega (arith, only_reads m'.count l e refl)) (omega (arith, inv.in_wait)) (λ b. cc)
  keeps_watch watch_unlock e =
      build (watches watch_unlock) (watches watch_finished) (record m { held = false }) e refl
        (omega (arith, inv.owned, le-total holds n i locals lt, ap holds e, flag-le m.held)) refl
        (omega (arith, inv.current)) (omega (arith, inv.in_wait))
        (λ b. omega (arith, inv.to_wake b))
  keeps_watch watch_finished e =
      quiet (watches watch_finished) (watches watch_finished) e refl refl refl refl refl refl

  keeps :
      (l : Local)
      → locals i ≡ l
      → Inv n all (place (record { mem = m; locals = locals }) i (step m l))
  unfolding step
  keeps (increments l) e = keeps_inc l e
  keeps (watches l) e = keeps_watch l e
  keeps system e =
      build system system (record m { blocked = false }) e refl refl refl
        (omega (arith, inv.current)) (omega arith) (λ b. cc)

pub run-Inv : (order : List ℕ) → Inv 4 145 (run step 4 boot order)
run-Inv order =
    run-keeps step 4 (Inv 4 145)
      (λ w i lt inv. keeps 4 145 (omega arith) w.mem w.locals inv i lt (w.locals i) refl) boot order
      (record {
        added = refl;
        owned = refl;
        one_watcher = refl;
        current = refl;
        in_wait = omega arith;
        to_wake = λ b. cc;
      })
