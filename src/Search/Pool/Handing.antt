-- ===== src/Search/Pool/Handing.antt =====
-- hw04/pfind.c: a directory that is handed to a sleeping thread reaches it.
use operating_systems_git.Prelude.{
  ℕ, ◌+◌, ◌<◌, ◌≡◌, ◌≢◌, refl, sym, ◌∙◌, arith, some, List, update, ap, ==_refl, ne→==,
}
use operating_systems_git.Threads.Sum.{total, total-update, le-total}
use operating_systems_git.Search.Pool.{Dir, Local, scanning, handing, asleep, woken, Pool}
use operating_systems_git.Search.Pool.Thread.{wake_with, hand_to}
use operating_systems_git.Search.Pool.Parts.{sleeps, aims, room}
use operating_systems_git.Search.Pool.Classes.{asleep_of}
use operating_systems_git.Search.Pool.Invariant.{Working, Moved-Working}
use operating_systems_git.Search.Pool.Moves.{own, awake, room-update, room-sleeps}

module _ (term : List ℕ) (n all : ℕ) (s : Pool) (w : Working term n all s) (i : ℕ) (lt : i < n)
    (to : ℕ) (opened rest : Dir) (e : s.locals i ≡ handing to opened rest) where
  -- The thread that a directory is for sleeps.
  pub target_asleep : (to < n) × (s.locals to ≡ asleep)
  target_asleep =
      let aimed : aims to (s.locals i) ≡ 1 = rw (e, ==_refl to) refl in
      let (less, sleeping) =
        room-sleeps n to s.locals
          (omega (arith, w.targets to, aimed, le-total (aims to) n i s.locals lt)) in
      (less, asleep_of (s.locals to) sleeping)

  other : to ≢ i
  other same = absurd (omega (arith, ap sleeps (sym target_asleep.1 ∙ ap s.locals same ∙ e)))

  abbrev halfway : ℕ → Local
  halfway = update s.locals to (wake_with opened (s.locals to))

  halfway_same : halfway i ≡ handing to opened rest
  halfway_same = rw (ne→== i to (λ x. other (sym x))) e

  woken_now : wake_with opened (s.locals to) ≡ woken (some opened)
  woken_now = ap (wake_with opened) target_asleep.1

  pub hand_sums :
      (f : Local → ℕ)
      → total f n (hand_to i to opened rest s).locals + (f (handing to opened rest) + f asleep)
        ≡ total f n s.locals + (f (scanning rest) + f (woken (some opened)))
  unfolding hand_to
  hand_sums f = omega (
    arith,
    total-update f n i halfway (scanning rest) lt,
    ap f halfway_same,
    total-update f n to s.locals (wake_with opened (s.locals to)) target_asleep.0,
    ap f woken_now,
    ap f target_asleep.1,
  )

  hand_room :
      (t : ℕ) → room n t (hand_to i to opened rest s).locals + own to t asleep ≡ room n t s.locals
  unfolding hand_to
  hand_room t = omega (
    arith,
    room-update n i t halfway (scanning rest) lt,
    ap (own i t) halfway_same,
    room-update n to t s.locals (wake_with opened (s.locals to)) target_asleep.0,
    ap (own to t) woken_now,
    ap (own to t) target_asleep.1,
    awake i t (handing to opened rest) refl,
    awake i t (scanning rest) refl,
    awake to t (woken (some opened)) refl,
  )

  pub hand_to-Working : Working term n all (hand_to i to opened rest s)
  unfolding hand_to
  hand_to-Working =
      Moved-Working term n all s (hand_to i to opened rest s) (handing to opened rest) asleep
        (scanning rest) (woken (some opened)) w
        (record {
          sums = hand_sums;
          initialized = omega arith;
          failures = omega arith;
          lost = omega arith;
          found = λ none. omega arith;
          queue = omega arith;
          targets = λ t. omega (arith, w.targets t, hand_sums (aims t), hand_room t);
          directed = omega arith;
          intact = w.intact;
        })
