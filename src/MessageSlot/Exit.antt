-- ===== src/MessageSlot/Exit.antt =====
-- Unloading the module: every node is freed, and none twice.
use operating_systems_git.Prelude.{
  ℕ, zero, suc, ◌+◌, ◌≤◌, ◌<◌, ◌≡◌, ◌≢◌, refl, arith, Option, none, some, [], ◌∷◌, true, length,
  update, ne→==, ==_refl, ℕ_discrete, ◌∙◌, sym, ap, subst,
}
use operating_systems_git.Run.{ok}
use operating_systems_git.MessageSlot.Driver.{
  Ptr, null, Slot, Node, kfree, free_channels, free_devices, msgslot_exit,
}
use operating_systems_git.MessageSlot.Chain.{Cells, Chain, ptr_of, free_of, Chain-frame}
use operating_systems_git.MessageSlot.View.{View, Represents}
use operating_systems_git.MessageSlot.Find.{load-some, some_node-injective}

module _ (h : Ptr → Option Node) (owner : Ptr → ℕ) (m : ℕ) where
  -- A node with a number that the chain does not have may go.
  Chain-free :
      (xs : Cells) (p a i : ℕ) (n : Node)
      → Chain h owner m p xs
      → free_of i xs ≡ true
      → h a ≡ some n
      → n.channel_id ≡ i
      → Chain (update h a none) owner m p xs
  Chain-free [] p a i n c free here num = c
  Chain-free ((b, j) ∷ xs) p a i n c free here num =
      let (k, here', num', rest) = c.4 in
      let other : b ≢ a = λ e. clash k here' num' e in
      (
        c.0,
        c.1,
        c.2,
        c.3,
        (
          k,
          rw (ne→== b a other) here',
          num',
          Chain-free xs k.next a i n rest (ground arith) here num,
        ),
      )
    where
      clash : (k : Node) → h b ≡ some k → k.channel_id ≡ j → b ≡ a → ⊥
      clash k here' num' e =
          let same : k ≡ n = some_node-injective (sym here' ∙ ap h e ∙ here) in
          let ids : j ≡ i = sym num' ∙ ap (λ (x : Node). x.channel_id) same ∙ num in ground arith

kfree-some :
    (s : Slot) (p : Ptr) (n : Node)
    → p ≢ null
    → s.heap p ≡ some n
    → kfree p s ≡ ok tt (record s { heap = update s.heap p none })
unfolding kfree
kfree-some s p n ne e = rw (ne→== p null ne, e)

-- What the inner loop leaves: the nodes of the cells are gone, other devices keep theirs.
record Freed (h g : Ptr → Option Node) (owner : Ptr → ℕ) (m : ℕ) (xs : Cells) : Type 0 where
  gone : (id q : ℕ) → ptr_of id xs ≡ some q → g q ≡ none
  apart : (q : ℕ) → owner q ≢ m → g q ≡ h q
  still : (q : ℕ) → h q ≡ none → g q ≡ none

free_channels-Freed :
    (fuel : ℕ) (owner : Ptr → ℕ) (m : ℕ) (s : Slot) (xs : Cells) (p : Ptr)
    → Chain s.heap owner m p xs
    → length xs < fuel
    → (g : Ptr → Option Node) × (free_channels fuel p s ≡ ok tt (record s { heap = g }))
      × Freed s.heap g owner m xs
unfolding free_channels
free_channels-Freed zero owner m s xs p c enough = absurd (omega arith)
free_channels-Freed (suc fuel) owner m s [] p c enough = rw c (
  s.heap,
  refl,
  record { gone = λ id q e. absurd (ground arith); apart = λ q ne. refl; still = λ q e. e },
)
free_channels-Freed (suc fuel) owner m s ((a, i) ∷ xs) p c enough =
    let (n, here, num, rest) = c.4 in
    let t : Slot = record s { heap = update s.heap a none } in
    let (g, run, freed) =
      free_channels-Freed fuel owner m t xs n.next
        (Chain-free s.heap owner m xs n.next a i n rest c.3 here num) (omega arith) in
    rw (c.0, ne→== a null c.1, load-some s a n c.1 here, kfree-some s a n c.1 here, run)
      (
        g,
        refl,
        record {
          gone = λ id q e. gone_cons id q e n here num g freed;
          apart = λ q ne. freed.apart q ne ∙ rw (ne→== q a (λ e. ne (ap owner e ∙ c.2)));
          still = λ q e. freed.still q (gone_or q e);
        },
      )
  where
    gone_or : (q : ℕ) → s.heap q ≡ none → update s.heap a none q ≡ none
    gone_or q e = ground arith

    gone_cons :
        (id q : ℕ)
        → ptr_of id ((a, i) ∷ xs) ≡ some q
        → (n : Node) → s.heap a ≡ some n
        → n.channel_id ≡ i
        → (g : Ptr → Option Node) → Freed (update s.heap a none) g owner m xs
        → g q ≡ none
    gone_cons id q e n here num g freed = elim (ℕ_discrete id i) [
      | yes same ↦ let e' : a ≡ q = ground arith in freed.still q (rw e' (rw (==_refl q)))
      | no other ↦ freed.gone id q (rw (ne→== id i other) at e)
    ]

-- After unloading no node of any device is left.
abbrev pub AllGone : {s : Slot} {V : View} → Represents s V → Slot → Type 0
AllGone r t = (m id q : ℕ) → m < 256 → ptr_of id (r.chain m) ≡ some q → t.heap q ≡ none

record FreedFrom (h g : Ptr → Option Node) (owner : Ptr → ℕ) (i : ℕ) (chain : ℕ → Cells)
    : Type 0 where
  gone : (m id q : ℕ) → i ≤ m → m < 256 → ptr_of id (chain m) ≡ some q → g q ≡ none
  still : (q : ℕ) → h q ≡ none → g q ≡ none

free_devices-FreedFrom :
    (fuel rounds i : ℕ) (owner : Ptr → ℕ) (chain : ℕ → Cells) (s : Slot)
    → i + rounds ≡ 256
    → ((m : ℕ) → i ≤ m → m < 256 → Chain s.heap owner m (s.devices m) (chain m))
    → ((m : ℕ) → m < 256 → length (chain m) < fuel)
    → (g : Ptr → Option Node) × (free_devices fuel rounds i s ≡ ok tt (record s { heap = g }))
      × FreedFrom s.heap g owner i chain
unfolding free_devices
free_devices-FreedFrom fuel zero i owner chain s e chains enough =
    (s.heap, refl, record { gone = λ m id q le lt e'. absurd (omega arith); still = λ q e'. e' })
free_devices-FreedFrom fuel (suc rounds) i owner chain s e chains enough =
    let (h, run, freed) =
      free_channels-Freed fuel owner i s (chain i) (s.devices i)
        (chains i (omega arith) (omega arith)) (enough i (omega arith)) in
    let (g, run', rest) =
      free_devices-FreedFrom fuel rounds (i + 1) owner chain (record s { heap = h }) (omega arith)
        (λ m le lt. later m le lt h freed) enough in
    rw (run, run')
      (
        g,
        refl,
        record {
          gone = λ m id q le lt e'. gone_at m id q le lt e' h freed g rest;
          still = λ q e'. rest.still q (freed.still q e');
        },
      )
  where
    later :
        (m : ℕ)
        → i + 1 ≤ m
        → m < 256
        → (h : Ptr → Option Node) → Freed s.heap h owner i (chain i)
        → Chain h owner m (s.devices m) (chain m)
    later m le lt h freed =
        Chain-frame s.heap owner m h (chain m) (s.devices m) (chains m (omega arith) lt)
          (λ q n own here. (n, freed.apart q (omega arith) ∙ here, refl, refl))

    gone_at :
        (m id q : ℕ)
        → i ≤ m
        → m < 256
        → ptr_of id (chain m) ≡ some q
        → (h : Ptr → Option Node) → Freed s.heap h owner i (chain i)
        → (g : Ptr → Option Node) → FreedFrom h g owner (i + 1) chain
        → g q ≡ none
    gone_at m id q le lt e' h freed g rest = elim (ℕ_discrete m i) [
      | yes now ↦ rest.still q (freed.gone id q (subst (λ x. ptr_of id (chain x) ≡ some q) now e'))
      | no after ↦ rest.gone m id q (omega arith) lt e'
    ]

-- Where the fuel exceeds the number of channels of every device, `msgslot_exit` returns and every
-- node of every device is freed; no step faults, so no node is freed twice.
pub exit-AllGone :
    {s : Slot} {V : View} (r : Represents s V) (fuel : ℕ)
    → ((m : ℕ) → m < 256 → length (r.chain m) < fuel)
    → (t : Slot) × (msgslot_exit fuel s ≡ ok tt t) × AllGone r t
unfolding msgslot_exit
exit-AllGone {s} r fuel enough =
    let (g, run, freed) =
      free_devices-FreedFrom fuel 256 0 r.owner r.chain s (omega arith) (λ m le lt. r.chains m lt)
        enough in
    (record s { heap = g }, run, λ m id q lt e. freed.gone m id q (omega arith) lt e)
