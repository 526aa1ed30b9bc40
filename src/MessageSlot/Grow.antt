-- ===== src/MessageSlot/Grow.antt =====
-- A new channel, and a new selection, seen on the messages.
use operating_systems_git.Prelude.{
  ℕ, ◌<◌, ◌≡◌, ◌≢◌, refl, arith, Option, none, some, List, [], ◌∷◌, ◌++◌, inl, update, ne→==,
  ==_refl, ℕ_discrete, ◌∙◌, sym, ap, subst,
}
use operating_systems_git.MessageSlot.Driver.{File, Ptr, Slot, Node, new_node}
use operating_systems_git.MessageSlot.Chain.{
  Cells, Chain, ptr_of, none≢some, ptr_of-append, ptr_of-append_old, Chain-frame, Chain-owner,
}
use operating_systems_git.MessageSlot.View.{View, set_selected, Represents, Stores, Keeps}
use operating_systems_git.MessageSlot.Find.{Appends}

-- The file `f` with another pointer.
abbrev pub with_pointer : Slot → ℕ → Ptr → Slot
with_pointer s f p = record s {
  files = update s.files f (record { minor = (s.files f).minor; private_data = p });
}

-- The devices of the files stay the same.
pub minor-update :
    (files : ℕ → File) (f : ℕ) (p : Ptr) (g : ℕ)
    → (update files f (record { minor = (files f).minor; private_data = p }) g).minor
      ≡ (files g).minor
minor-update files f p g = elim (ℕ_discrete g f) [
  | yes e ↦ rw (e, ==_refl f) refl
  | no ne ↦ rw (ne→== g f ne)
]

module _ {s : Slot} {V : View} (r : Represents s V) (f : ℕ) where
  pub select-Represents :
      (id : ℕ) (p : Ptr)
      → ptr_of id (r.chain (s.files f).minor) ≡ some p
      → Represents (with_pointer s f p) (set_selected f (some id) V)
  select-Represents id p found = record {
    chain = r.chain;
    owner = r.owner;
    chains = r.chains;
    messages = r.messages;
    minors = λ g. rw (minor-update s.files f p g) (r.minors g);
    files = λ g. elim (ℕ_discrete g f) [
      | yes e ↦ rw (e, ==_refl f) found
      | no ne ↦ rw (ne→== g f ne) (r.files g)
    ];
  }

-- Nodes that are kept store what they stored.
Stores-Appends :
    {h g : Ptr → Option Node} {owner : Ptr → ℕ} {m np : ℕ} {new : Node}
    → Appends h g owner m np new
    → (o : Option Ptr) (b : List ℕ) → Stores h o b
    → Stores g o b
Stores-Appends app none b old = old
Stores-Appends app (some q) b old =
    let (n, here, bytes, few) = old in
    let (k, here', _, same, size) = app.nodes q n here in
    (k, here', rw (same, size) bytes, rw size few)

module _ {s : Slot} {V : View} (r : Represents s V) (m id np : ℕ) (junk : Node) (lt : m < 256)
    (unknown : ptr_of id (r.chain m) ≡ none) (unused : s.heap np ≡ none) {g : Ptr → Option Node}
    (app : Appends s.heap g r.owner m np (new_node id junk)) (devices : ℕ → Ptr)
    (others : (m' : ℕ) → m' ≢ m → devices m' ≡ s.devices m')
    (whole : Chain g (update r.owner np m) m (devices m) (r.chain m ++ ((np, id) ∷ []))) where
  abbrev longer : Cells
  longer = r.chain m ++ ((np, id) ∷ [])

  kept_elsewhere :
      (m' q : ℕ) (n : Node)
      → m' ≢ m
      → update r.owner np m q ≡ m'
      → s.heap q ≡ some n
      → (k : Node) × (g q ≡ some k) × (k.channel_id ≡ n.channel_id) × (k.next ≡ n.next)
  kept_elsewhere m' q n ne own here =
      let old : q ≢ np = λ e. none≢some (sym unused ∙ ap s.heap (sym e) ∙ here) in
      let own' : r.owner q ≡ m' = rw (ne→== q np old) at own in
      (n, app.keeps q n here (inl (λ e. ne (sym own' ∙ e))), refl, refl)

  grown_chains :
      (m' : ℕ)
      → m' < 256
      → Chain g (update r.owner np m) m' (devices m') (update r.chain m longer m')
  grown_chains m' lt' = elim (ℕ_discrete m' m) [
    | yes e ↦ rw (e, ==_refl m) whole
    | no ne ↦
        rw (ne→== m' m ne, others m' ne)
          (Chain-frame s.heap (update r.owner np m) m' g (r.chain m') (s.devices m')
            (Chain-owner s.heap r.owner m' (r.chain m') (s.devices m') np m (r.chains m' lt')
              unused)
            (λ q n own here. kept_elsewhere m' q n ne own here))
  ]

  grown_message :
      (i : ℕ) (o : Option Ptr)
      → ptr_of i (r.chain m) ≡ o
      → Stores s.heap o (V.messages m i)
      → Stores g (ptr_of i longer) (V.messages m i)
  unfolding new_node
  grown_message i (some q) e old =
      rw (ptr_of-append_old (r.chain m) i np id e)
        (Stores-Appends app (some q) (V.messages m i) old)
  grown_message i none e old = rw (ptr_of-append (r.chain m) i np id e) (elim (ℕ_discrete i id) [
    | yes same ↦
        rw (same, ==_refl id)
          (new_node id junk, app.added, sym old ∙ ap (V.messages m) same, omega arith)
    | no ne ↦ rw (ne→== i id ne) old
  ])

  grown_messages :
      (m' i : ℕ) → m' < 256 → Stores g (ptr_of i (update r.chain m longer m')) (V.messages m' i)
  grown_messages m' i lt' = elim (ℕ_discrete m' m) [
    | yes e ↦ rw (e, ==_refl m) (grown_message i (ptr_of i (r.chain m)) refl (r.messages m i lt))
    | no ne ↦
        rw (ne→== m' m ne)
          (Stores-Appends app (ptr_of i (r.chain m')) (V.messages m' i) (r.messages m' i lt'))
  ]

  Keeps-longer : (p : Ptr) (o : Option ℕ) → Keeps (r.chain m) p o → Keeps longer p o
  Keeps-longer p none k = k
  Keeps-longer p (some i) k = ptr_of-append_old (r.chain m) i np id k

  pub grow-Represents : Represents (record s { heap = g; devices = devices }) V
  grow-Represents = record {
    chain = update r.chain m longer;
    owner = update r.owner np m;
    chains = grown_chains;
    messages = grown_messages;
    minors = r.minors;
    files = λ f. elim (ℕ_discrete (s.files f).minor m) [
      | yes e ↦
          rw (e, ==_refl m)
            (Keeps-longer (s.files f).private_data (V.selected f) (
              subst (λ x. Keeps (r.chain x) (s.files f).private_data (V.selected f)) e (r.files f)))
      | no ne ↦ rw (ne→== (s.files f).minor m ne) (r.files f)
    ];
  }

  grown_found : ptr_of id (grow-Represents.chain m) ≡ some np
  unfolding grow-Represents
  grown_found = rw (==_refl m) (ptr_of-append (r.chain m) id np id unknown ∙ rw (==_refl id))

  -- The file then selects the new channel.
  pub grow-select :
      (f : ℕ)
      → (s.files f).minor ≡ m
      → Represents
          (with_pointer (record s { heap = g; devices = devices }) f np)
          (set_selected f (some id) V)
  grow-select f e =
      select-Represents grow-Represents f id np
        (subst (λ x. ptr_of id (grow-Represents.chain x) ≡ some np) (sym e) grown_found)
