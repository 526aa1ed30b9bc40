-- ===== src/MessageSlot/Target.antt =====
-- The node behind an open file, and what a write to it changes.
use operating_systems_git.Prelude.{
  ℕ, ◌≤◌, ◌<◌, ◌≡◌, ◌≢◌, ◌⊎◌, refl, arith, Option, none, some, ◌==◌, false, inl, inr, ◌&&◌, update,
  ne→==, ==_refl, ℕ_discrete, ◌∙◌, sym, ap, subst,
}
use operating_systems_git.Run.{ok}
use operating_systems_git.MessageSlot.Driver.{Ptr, null, Slot, buf_len, Node, load}
use operating_systems_git.MessageSlot.Chain.{NodeAt, ptr_of, Chain-node, Chain-frame}
use operating_systems_git.MessageSlot.View.{View, bytes_at, set_message, Represents, Stores, Keeps}

pub both_false : (m m' i i' : ℕ) → (m ≢ m') ⊎ (i ≢ i') → ((m == m') && (i == i')) ≡ false
both_false m m' i i' other = ground arith

some_node-injective : {n k : Node} → some n ≡ some k → n ≡ k
some_node-injective e = cc

pub load_node :
    (s : Slot) {owner : Ptr → ℕ} {m id : ℕ} {q : Ptr} (at : NodeAt s.heap owner m id q)
    → load q s ≡ ok at.node s
unfolding load
load_node s {q} at = rw (ne→== q null at.ne_null, at.here)

module _ {s : Slot} {V : View} (r : Represents s V) (f : ℕ) where
  abbrev pub minor_of : ℕ
  minor_of = (s.files f).minor

  abbrev pub pointer_of : Ptr
  pointer_of = (s.files f).private_data

  -- The node behind a file that has selected a channel.
  pub record Target (id : ℕ) : Type 0 where
    pub at : NodeAt s.heap r.owner minor_of id pointer_of
    pub stored : bytes_at 0 at.node.msg_len at.node.channel ≡ V.messages minor_of id
    pub short : at.node.msg_len ≤ buf_len
    pub found : ptr_of id (r.chain minor_of) ≡ some pointer_of

  pub target : {id : ℕ} → V.selected f ≡ some id → Target id
  target {id} e =
      let found : ptr_of id (r.chain minor_of) ≡ some pointer_of =
        subst (Keeps (r.chain minor_of) pointer_of) e (r.files f) in
      let at =
        Chain-node s.heap r.owner minor_of (r.chain minor_of) (s.devices minor_of) id
          (r.chains minor_of (r.minors f)) found in
      let (n, here, bytes, short) =
        subst (λ o. Stores s.heap o (V.messages minor_of id)) found
          (r.messages minor_of id (r.minors f)) in
      let same : n ≡ at.node = ground (arith, at.here) in
      record { at = at; stored = rw (← same) bytes; short = rw (← same) short; found = found }

  -- The slot with another node at the file's pointer.
  abbrev pub with_node : Node → Slot
  with_node k = record s { heap = update s.heap pointer_of (some k) }

  module _ {id : ℕ} (t : Target id) (k : Node) (link : k.next ≡ t.at.node.next)
      (number : k.channel_id ≡ t.at.node.channel_id) (short : k.msg_len ≤ buf_len) where
    keeps_links :
        (q : Ptr) (n : Node)
        → s.heap q ≡ some n
        → (k' : Node) × (update s.heap pointer_of (some k) q ≡ some k')
          × (k'.channel_id ≡ n.channel_id)
          × (k'.next ≡ n.next)
    keeps_links q n here = elim (ℕ_discrete q pointer_of) [
      | yes e ↦
          let same : n ≡ t.at.node = some_node-injective (sym here ∙ ap s.heap e ∙ t.at.here) in
          (k, rw e (rw (==_refl pointer_of)), rw same number, rw same link)
      | no ne ↦ (n, rw (ne→== q pointer_of ne) here, refl, refl)
    ]

    -- No other channel has its node at the file's pointer.
    elsewhere :
        (m i : ℕ) {q : Ptr}
        → (m ≢ minor_of) ⊎ (i ≢ id)
        → NodeAt s.heap r.owner m i q
        → q ≢ pointer_of
    elsewhere m i {q} other at e =
        let same_node : at.node ≡ t.at.node =
          some_node-injective (sym at.here ∙ ap s.heap e ∙ t.at.here) in
        let same_minor : m ≡ minor_of = sym at.owned ∙ ap r.owner e ∙ t.at.owned in
        let same_id : i ≡ id =
          sym at.number ∙ ap (λ (n : Node). n.channel_id) same_node ∙ t.at.number in
        elim other [ inl ne ↦ ne same_minor | inr ne ↦ ne same_id ]

    Stores-old :
        (m i : ℕ) (o : Option Ptr)
        → m < 256
        → (m ≢ minor_of) ⊎ (i ≢ id)
        → ptr_of i (r.chain m) ≡ o
        → Stores s.heap o (V.messages m i)
        → Stores (update s.heap pointer_of (some k)) o (V.messages m i)
    Stores-old m i none lt other e old = old
    Stores-old m i (some q) lt other e old =
        let (n, here, bytes, few) = old in
        let ne =
          elsewhere m i other
            (Chain-node s.heap r.owner m (r.chain m) (s.devices m) i (r.chains m lt) e) in
        (n, rw (ne→== q pointer_of ne) here, bytes, few)

    Stores-other :
        (m i : ℕ)
        → m < 256
        → (m ≢ minor_of) ⊎ (i ≢ id)
        → Stores
            (update s.heap pointer_of (some k))
            (ptr_of i (r.chain m))
            ((set_message minor_of id (bytes_at 0 k.msg_len k.channel) V).messages m i)
    Stores-other m i lt other =
        rw (both_false m minor_of i id other)
          (Stores-old m i (ptr_of i (r.chain m)) lt other refl (r.messages m i lt))

    Stores-messages :
        (m i : ℕ)
        → m < 256
        → Stores
            (update s.heap pointer_of (some k))
            (ptr_of i (r.chain m))
            ((set_message minor_of id (bytes_at 0 k.msg_len k.channel) V).messages m i)
    Stores-messages m i lt = elim (ℕ_discrete m minor_of) [
      | no ne ↦ Stores-other m i lt (inl ne)
      | yes em ↦ elim (ℕ_discrete i id) [
        | no ne ↦ Stores-other m i lt (inr ne)
        | yes ei ↦
            rw (em, ei, ==_refl minor_of, ==_refl id, t.found)
              (k, rw (==_refl pointer_of), refl, short)
      ]
    ]

    pub with_node-Represents :
        Represents (with_node k) (set_message minor_of id (bytes_at 0 k.msg_len k.channel) V)
    with_node-Represents = record {
      chain = r.chain;
      owner = r.owner;
      chains = λ m lt.
          Chain-frame s.heap r.owner m (update s.heap pointer_of (some k)) (r.chain m) (s.devices m)
            (r.chains m lt) (λ q n own here. keeps_links q n here);
      messages = Stores-messages;
      minors = r.minors;
      files = r.files;
    }
