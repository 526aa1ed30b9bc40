-- ===== src/MessageSlot/Chain.antt =====
-- The nodes of a device as a list of addresses and channel numbers.
use operating_systems_git.Prelude.{
  ℕ, ◌≡◌, ◌≢◌, refl, arith, Option, none, some, Bool, true, List, [], ◌∷◌, ◌++◌, ◌==◌, ◌&&◌, ne→==,
  if◌then◌else◌, update, ℕ_discrete, not, sym, ap, ◌∙◌,
}
use operating_systems_git.MessageSlot.Driver.{Ptr, null, Node}

abbrev pub Cells : Type 0
Cells = List (Ptr × ℕ)

-- No cell has this channel number.
abbrev pub free_of : ℕ → Cells → Bool
free_of id [] = true
free_of id ((a, i) ∷ xs) = not (id == i) && free_of id xs

pub none≢some : {n : Node} → none ≡ some n → ⊥
none≢some e = cc

-- The address of a channel.
abbrev pub ptr_of : ℕ → Cells → Option Ptr
ptr_of id [] = none
ptr_of id ((a, i) ∷ xs) = if id == i then some a else ptr_of id xs

-- From `p` the nodes of device `m` lead through the cells to NULL; `owner` tells the device of an
-- address, so no two devices share a node.
abbrev pub Chain : (Ptr → Option Node) → (Ptr → ℕ) → ℕ → Ptr → Cells → Type 0
Chain h owner m p [] = p ≡ null
Chain h owner m p ((a, i) ∷ xs) =
    (p ≡ a)
    × (a ≢ null)
    × (owner a ≡ m)
    × (free_of i xs ≡ true)
    × ((n : Node) × (h a ≡ some n) × (n.channel_id ≡ i) × Chain h owner m n.next xs)

-- What a chain says of the node of a channel.
pub record NodeAt (h : Ptr → Option Node) (owner : Ptr → ℕ) (m id : ℕ) (q : Ptr) : Type 0 where
  pub node : Node
  pub here : h q ≡ some node
  pub number : node.channel_id ≡ id
  pub ne_null : q ≢ null
  pub owned : owner q ≡ m

module _ (h : Ptr → Option Node) (owner : Ptr → ℕ) (m : ℕ) where
  pub Chain-node :
      (xs : Cells) (p : Ptr) (id : ℕ) {q : Ptr}
      → Chain h owner m p xs
      → ptr_of id xs ≡ some q
      → NodeAt h owner m id q
  Chain-node [] p id c e = absurd (ground arith)
  Chain-node ((a, i) ∷ xs) p id {q} c e = elim (ℕ_discrete id i) [
    | yes same ↦
        let (n, at, num, rest) = c.4 in
        let e' : a ≡ q = ground arith in
        rw (← e', same) (record { node = n; here = at; number = num; ne_null = c.1; owned = c.2 })
    | no other ↦ Chain-node xs c.4.0.next id c.4.3 (rw (ne→== id i other) at e)
  ]

  -- A chain survives every change that keeps the numbers and the links of its nodes.
  pub Chain-frame :
      (g : Ptr → Option Node) (xs : Cells) (p : Ptr)
      → Chain h owner m p xs
      → ((q : Ptr) (n : Node)
          → owner q ≡ m
          → h q ≡ some n
          → (k : Node) × (g q ≡ some k) × (k.channel_id ≡ n.channel_id) × (k.next ≡ n.next))
      → Chain g owner m p xs
  Chain-frame g [] p c keep = c
  Chain-frame g ((a, i) ∷ xs) p c keep =
      let (n, at, num, rest) = c.4 in
      let (k, at', num', link) = keep a n c.2 at in
      (c.0, c.1, c.2, c.3, (k, at', num' ∙ num, rw link (Chain-frame g xs n.next rest keep)))

  -- A new owner of an address that no node of the chain has.
  pub Chain-owner :
      (xs : Cells) (p np o : ℕ)
      → Chain h owner m p xs
      → h np ≡ none
      → Chain h (update owner np o) m p xs
  Chain-owner [] p np o c free = c
  Chain-owner ((a, i) ∷ xs) p np o c free =
      let (n, at, num, rest) = c.4 in
      let ne : a ≢ np = λ e. none≢some (sym free ∙ ap h (sym e) ∙ at) in
      (c.0, c.1, rw (ne→== a np ne) c.2, c.3, (n, at, num, Chain-owner xs n.next np o rest free))

pub ptr_of-append :
    (xs : Cells) (id np i : ℕ)
    → ptr_of id xs ≡ none
    → ptr_of id (xs ++ ((np, i) ∷ [])) ≡ (if id == i then some np else none)
ptr_of-append [] id np i e = refl
ptr_of-append ((a, j) ∷ xs) id np i e = ground (arith, ptr_of-append xs id np i)

pub ptr_of-append_old :
    (xs : Cells) (id np i : ℕ) {q : Ptr}
    → ptr_of id xs ≡ some q
    → ptr_of id (xs ++ ((np, i) ∷ [])) ≡ some q
ptr_of-append_old [] id np i e = absurd (ground arith)
ptr_of-append_old ((a, j) ∷ xs) id np i {q} e = ground (arith, ptr_of-append_old xs id np i {q = q})

pub free_of-append :
    (xs : Cells) (id np i : ℕ)
    → free_of id xs ≡ true
    → id ≢ i
    → free_of id (xs ++ ((np, i) ∷ [])) ≡ true
free_of-append [] id np i e ne = ground arith
free_of-append ((a, j) ∷ xs) id np i e ne = ground (arith, free_of-append xs id np i)

pub free_of-none : (xs : Cells) (id : ℕ) → ptr_of id xs ≡ none → free_of id xs ≡ true
free_of-none [] id e = refl
free_of-none ((a, i) ∷ xs) id e = ground (arith, free_of-none xs id)

pub Chain-null :
    (h : Ptr → Option Node) (owner : Ptr → ℕ) (m : ℕ) (xs : Cells) (p : Ptr)
    → Chain h owner m p xs
    → p ≡ null
    → xs ≡ []
Chain-null h owner m [] p c e = refl
Chain-null h owner m ((a, i) ∷ xs) p c e = absurd (c.1 (sym c.0 ∙ e))
