-- ===== src/MessageSlot/Find.antt =====
-- The search of the ioctl along the nodes of a device, and the node that it adds.
use operating_systems_git.Prelude.{
  ℕ, zero, suc, ◌^◌, ◌<◌, ◌≡◌, ◌≢◌, ◌⊎◌, refl, arith, Option, none, some, [], ◌∷◌, ◌++◌, ◌==◌,
  false, Bool-cases, inl, inr, length, update, ne→==, ==_refl, ℕ_discrete, ◌∙◌, sym, ap,
}
use operating_systems_git.Run.{ok}
use operating_systems_git.MessageSlot.Driver.{Ptr, null, Slot, Node, load, new_node, find_channel}
use operating_systems_git.MessageSlot.Chain.{
  Cells, Chain, ptr_of, none≢some, free_of-append, Chain-null,
}

-- From `h` to `g` a node is added at `np` to device `m`, and only the last link of `m` changes.
pub record Appends (h g : Ptr → Option Node) (owner : Ptr → ℕ) (m np : ℕ) (new : Node)
    : Type 0 where
  pub keeps : (q : Ptr) (n : Node) → h q ≡ some n → (owner q ≢ m) ⊎ (n.next ≢ null) → g q ≡ some n
  pub nodes :
      (q : Ptr) (n : Node)
      → h q ≡ some n
      → (k : Node) × (g q ≡ some k)
        × (k.channel_id ≡ n.channel_id)
        × (k.channel ≡ n.channel)
        × (k.msg_len ≡ n.msg_len)
  pub added : g np ≡ some new

pub load-some : (s : Slot) (p : Ptr) (n : Node) → p ≢ null → s.heap p ≡ some n → load p s ≡ ok n s
unfolding load
load-some s p n ne e = rw (ne→== p null ne, e)

pub some_node-injective : {n k : Node} → some n ≡ some k → n ≡ k
some_node-injective e = cc

some≢none : {p : Ptr} → some p ≡ none → ⊥
some≢none e = cc

-- The two writes that add a node behind `a`.
abbrev append_at : (Ptr → Option Node) → (a : Ptr) → Node → (np : Ptr) → Node → Ptr → Option Node
append_at h a n np new = update (update h a (some (record n { next = np }))) np (some new)

append_at-Appends :
    (h : Ptr → Option Node) (owner : Ptr → ℕ) (m a np : ℕ) (n new : Node)
    → h a ≡ some n
    → owner a ≡ m
    → n.next ≡ null
    → h np ≡ none
    → Appends h (append_at h a n np new) owner m np new
append_at-Appends h owner m a np n new here own last unused = record {
  keeps = λ q k e other. rw (ne→== q np (old q k e), ne→== q a (λ f. not_last q k e other f)) e;
  nodes = λ q k e. elim (ℕ_discrete q a) [
    | yes f ↦ (
      record n { next = np },
      rw (ne→== q np (old q k e), f, ==_refl a) refl,
      ap (λ (x : Node). x.channel_id) (same q k e f),
      ap (λ (x : Node). x.channel) (same q k e f),
      ap (λ (x : Node). x.msg_len) (same q k e f),
    )
    | no f ↦ (k, rw (ne→== q np (old q k e), ne→== q a f) e, refl, refl, refl)
  ];
  added = rw (==_refl np);
}
  where
    old : (q : Ptr) (k : Node) → h q ≡ some k → q ≢ np
    old q k e f = none≢some (sym unused ∙ ap h (sym f) ∙ e)

    same : (q : Ptr) (k : Node) → h q ≡ some k → q ≡ a → n ≡ k
    same q k e f = some_node-injective (sym here ∙ ap h (sym f) ∙ e)

    not_last : (q : Ptr) (k : Node) → h q ≡ some k → (owner q ≢ m) ⊎ (k.next ≢ null) → q ≡ a → ⊥
    not_last q k e (inl ne) f = ne (ap owner f ∙ own)
    not_last q k e (inr ne) f = ne (ap (λ (x : Node). x.next) (sym (same q k e f)) ∙ last)

module _ (owner : Ptr → ℕ) (m : ℕ) (s : Slot) where
  -- A channel that the device has is found, and nothing changes.
  pub find-found :
      (fuel : ℕ) (xs : Cells) (p id : ℕ) (kmalloc : Option (Ptr × Node)) {q : Ptr}
      → Chain s.heap owner m p xs
      → length xs < fuel
      → ptr_of id xs ≡ some q
      → find_channel fuel p id kmalloc s ≡ ok (some q) s
  unfolding find_channel
  find-found zero xs p id kmalloc c enough e = absurd (omega arith)
  find-found (suc fuel) [] p id kmalloc c enough e = absurd (ground arith)
  find-found (suc fuel) ((a, i) ∷ xs) p id kmalloc c enough e =
      let (n, here, num, rest) = c.4 in
      rw (c.0, load-some s a n c.1 here, num)
        (elim (Bool-cases (id == i)) [
          | inl same ↦ rw same (ap (λ o. ok o s) (rw same at e))
          | inr other ↦
              let e' : ptr_of id xs ≡ some _ = rw other at e in
              rw (other, ne→== n.next null (next_ne_null xs n.next id rest e'))
                (find-found fuel xs n.next id kmalloc rest (omega arith) e')
        ])
    where
      next_ne_null :
          (xs : Cells) (p id : ℕ) {q : Ptr}
          → Chain s.heap owner m p xs
          → ptr_of id xs ≡ some q
          → p ≢ null
      next_ne_null [] p id c e f = ground arith
      next_ne_null ((a, i) ∷ xs) p id c e f = c.1 (sym c.0 ∙ f)

  -- With no memory for a new channel nothing changes.
  pub find-full :
      (fuel : ℕ) (xs : Cells) (p id : ℕ)
      → Chain s.heap owner m p xs
      → length xs < fuel
      → p ≢ null
      → ptr_of id xs ≡ none
      → find_channel fuel p id none s ≡ ok none s
  unfolding find_channel
  find-full zero xs p id c enough ne e = absurd (omega arith)
  find-full (suc fuel) [] p id c enough ne e = absurd (ne c)
  find-full (suc fuel) ((a, i) ∷ xs) p id c enough ne e =
      let (n, here, num, rest) = c.4 in
      elim (Bool-cases (id == i)) [
        | inl same ↦ absurd (some≢none (rw same at e))
        | inr other ↦
            let e' : ptr_of id xs ≡ none = rw other at e in
            rw (c.0, load-some s a n c.1 here, num, other)
              (elim (ℕ_discrete n.next null) [
                | yes last ↦ rw last
                | no more ↦
                    rw (ne→== n.next null more)
                      (find-full fuel xs n.next id rest (omega arith) more e')
              ])
      ]

  -- A channel that the device does not have is added behind the last node.
  pub find-new :
      (fuel : ℕ) (xs : Cells) (p id np : ℕ) (junk : Node)
      → Chain s.heap owner m p xs
      → length xs < fuel
      → p ≢ null
      → ptr_of id xs ≡ none
      → s.heap np ≡ none
      → np ≢ null
      → id < 2 ^ 32
      → (g : Ptr → Option Node) × (find_channel fuel p id (some (np, junk)) s
          ≡ ok (some np) (record s { heap = g }))
        × Appends s.heap g owner m np (new_node id junk)
        × Chain g (update owner np m) m p (xs ++ ((np, id) ∷ []))
  unfolding find_channel
  find-new zero xs p id np junk c enough ne e unused nz small = absurd (omega arith)
  find-new (suc fuel) [] p id np junk c enough ne e unused nz small = absurd (ne c)
  find-new (suc fuel) ((a, i) ∷ xs) p id np junk c enough ne e unused nz small =
      elim (Bool-cases (id == i)) [
        | inl same ↦ absurd (some≢none (rw same at e))
        | inr other ↦
            let (n, here, num, rest) = c.4 in
            let e' : ptr_of id xs ≡ none = rw other at e in
            let i_free = free_of-append xs i np id c.3 (λ f. ground arith) in
            let a_old : a ≢ np = λ f. none≢some (sym unused ∙ ap s.heap (sym f) ∙ here) in
            let other' : (id == n.channel_id) ≡ false = rw num other in
            rw (c.0, load-some s a n c.1 here, other')
              (elim (ℕ_discrete n.next null) [
                | yes last ↦
                    rw (last, Chain-null s.heap owner m xs n.next rest last)
                      (
                        append_at s.heap a n np (new_node id junk),
                        refl,
                        append_at-Appends s.heap owner m a np n (new_node id junk) here c.2 last
                            unused,
                        (
                          refl,
                          c.1,
                          rw (ne→== a np a_old) c.2,
                          rw (ne→== i id (λ f. ground arith)),
                          (
                            record n { next = np },
                            rw (ne→== a np a_old, ==_refl a),
                            num,
                            (
                              refl,
                              nz,
                              rw (==_refl np),
                              refl,
                              (new_node id junk, rw (==_refl np), omega arith, refl),
                            ),
                          ),
                        ),
                      )
                | no more ↦
                    let (g, run, app, c') =
                      find-new fuel xs n.next id np junk rest (omega arith) more e' unused nz
                        small in
                    rw (ne→== n.next null more) (
                      g,
                      run,
                      app,
                      (
                        refl,
                        c.1,
                        rw (ne→== a np a_old) c.2,
                        i_free,
                        (n, app.keeps a n here (inr more), num, c'),
                      ),
                    )
              ])
      ]
