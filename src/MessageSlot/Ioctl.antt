-- ===== src/MessageSlot/Ioctl.antt =====
-- The ioctl, seen on the messages: it selects a channel of the file's device.
use operating_systems_git.Prelude.{
  ℕ, ◌^◌, ◌<◌, ◌≡◌, ◌≢◌, refl, arith, Option, none, some, [], ◌∷◌, ◌==◌, inl, inr, lt→ltb,
  if◌then◌else◌, length, update, ne→==, ==_refl, ℕ_discrete, ◌∙◌, sym, ap, Option-cases,
}
use operating_systems_git.Run.{Run, ok, and_then}
use operating_systems_git.MessageSlot.Driver.{
  Ptr, null, Slot, Node, new_node, Errno, Reply, returns, fails, device_ioctl, find_channel,
  first_channel, select,
}
use operating_systems_git.MessageSlot.Chain.{Chain, ptr_of, none≢some, Chain-null}
use operating_systems_git.MessageSlot.View.{View, set_selected, Represents}
use operating_systems_git.MessageSlot.Find.{Appends, find-found, find-full, find-new}
use operating_systems_git.MessageSlot.Grow.{minor-update, select-Represents, grow-select}

-- `kmalloc` gives memory that no node uses.
abbrev pub IsFresh : Slot → Ptr → Type 0
IsFresh s p = (p ≢ null) × (s.heap p ≡ none)

-- How an ioctl that asks for channel `id` may end.
pub data Selected (V : View) (f id : ℕ) (s : Slot) (kmalloc : Option (Ptr × Node))
    : Run Slot Reply → Type 0 where
  selected :
      {t : Slot}
      → Represents t (set_selected f (some id) V)
      → ((g : ℕ) → (t.files g).minor ≡ (s.files g).minor)
      → Selected V f id s kmalloc (ok (returns 0) t)
  no_memory : kmalloc ≡ none → Selected V f id s kmalloc (ok (fails Errno.enomem) s)

first-Appends :
    (h : Ptr → Option Node) (owner : Ptr → ℕ) (m np : ℕ) (new : Node)
    → h np ≡ none
    → Appends h (update h np (some new)) owner m np new
first-Appends h owner m np new unused = record {
  keeps = λ q n e other. rw (ne→== q np (old q n e)) e;
  nodes = λ q n e. (n, rw (ne→== q np (old q n e)) e, refl, refl, refl);
  added = rw (==_refl np);
}
  where
    old : (q : Ptr) (n : Node) → h q ≡ some n → q ≢ np
    old q n e f = none≢some (sym unused ∙ ap h (sym f) ∙ e)

module _ {s : Slot} {V : View} (r : Represents s V) (f id : ℕ) (id_small : id < 2 ^ 32) where
  abbrev minor : ℕ
  minor = (s.files f).minor

  -- The run of the ioctl from the choice of its branch on.
  abbrev tail : (fuel : ℕ) → Option (Ptr × Node) → Run Slot Reply
  tail fuel kmalloc =
      and_then
        ((if s.devices minor == null
            then first_channel minor id kmalloc
            else find_channel fuel (s.devices minor) id kmalloc)
          s)
        (select f)

  -- The channel is there.
  tail_known :
      (fuel : ℕ) (kmalloc : Option (Ptr × Node)) {q : Ptr}
      → length (r.chain minor) < fuel
      → s.devices minor ≢ null
      → ptr_of id (r.chain minor) ≡ some q
      → Selected V f id s kmalloc (tail fuel kmalloc)
  unfolding select
  tail_known fuel kmalloc {q} enough ne e =
      rw
        (
          ne→== (s.devices minor) null ne,
          find-found r.owner minor s fuel (r.chain minor) (s.devices minor) id kmalloc
              (r.chains minor (r.minors f)) enough e,
        )
        (selected (select-Represents r f id q e) (minor-update s.files f q))

  -- It is not there: the device has other channels.
  tail_new :
      (fuel : ℕ) (kmalloc : Option (Ptr × Node))
      → length (r.chain minor) < fuel
      → s.devices minor ≢ null
      → ptr_of id (r.chain minor) ≡ none
      → ((p : Ptr) (junk : Node) → kmalloc ≡ some (p, junk) → IsFresh s p)
      → Selected V f id s kmalloc (tail fuel kmalloc)
  unfolding select
  tail_new fuel none enough ne e fresh =
      rw
        (
          ne→== (s.devices minor) null ne,
          find-full r.owner minor s fuel (r.chain minor) (s.devices minor) id
              (r.chains minor (r.minors f)) enough ne e,
        )
        (no_memory refl)
  tail_new fuel (some (np, junk)) enough ne e fresh =
      let (nz, unused) = fresh np junk refl in
      let (g, run, app, whole) =
        find-new r.owner minor s fuel (r.chain minor) (s.devices minor) id np junk
          (r.chains minor (r.minors f)) enough ne e unused nz id_small in
      rw (ne→== (s.devices minor) null ne, run)
        (selected
          (grow-select r minor id np junk (r.minors f) e unused app s.devices (λ m' ne'. refl) whole
            f refl)
          (minor-update s.files f np))

  -- The device has no channel yet.
  tail_first :
      (fuel : ℕ) (kmalloc : Option (Ptr × Node))
      → s.devices minor ≡ null
      → ((p : Ptr) (junk : Node) → kmalloc ≡ some (p, junk) → IsFresh s p)
      → Selected V f id s kmalloc (tail fuel kmalloc)
  unfolding select first_channel new_node
  tail_first fuel none empty fresh = rw empty (no_memory refl)
  tail_first fuel (some (np, junk)) empty fresh =
      let (nz, unused) = fresh np junk refl in
      let no_cells : r.chain minor ≡ [] =
        Chain-null s.heap r.owner minor (r.chain minor) (s.devices minor)
          (r.chains minor (r.minors f)) empty in
      let unknown : ptr_of id (r.chain minor) ≡ none = ap (ptr_of id) no_cells in
      rw empty (
        selected
          (grow-select r minor id np junk (r.minors f) unknown unused
            (first-Appends s.heap r.owner minor np (new_node id junk) unused)
            (update s.devices minor np) (λ m' ne'. rw (ne→== m' minor ne'))
            (rw (no_cells, ==_refl minor) (first_chain nz)) f refl)
          (minor-update s.files f np))
    where
      first_chain :
          np ≢ null
          → Chain
              (update s.heap np (some (new_node id junk)))
              (update r.owner np minor)
              minor
              np
              ((np, id) ∷ [])
      first_chain nz = (
        refl,
        nz,
        rw (==_refl np),
        refl,
        (new_node id junk, rw (==_refl np), omega (arith, id_small), refl),
      )

  tail-Selected :
      (fuel : ℕ) (kmalloc : Option (Ptr × Node))
      → length (r.chain minor) < fuel
      → ((p : Ptr) (junk : Node) → kmalloc ≡ some (p, junk) → IsFresh s p)
      → Selected V f id s kmalloc (tail fuel kmalloc)
  tail-Selected fuel kmalloc enough fresh = elim (ℕ_discrete (s.devices minor) null) [
    | yes empty ↦ tail_first fuel kmalloc empty fresh
    | no ne ↦ elim (Option-cases (ptr_of id (r.chain minor))) [
      | inl e ↦ tail_new fuel kmalloc enough ne e fresh
      | inr (q, e) ↦ tail_known fuel kmalloc enough ne e
    ]
  ]

  -- With a number below 2^32 other than 0, more fuel than the device has channels, and memory from
  -- `kmalloc` that no node uses, the ioctl makes the channel `id` of the file's device the file's
  -- channel and leaves every message and the device of every file as it was; only where `kmalloc` fails
  -- it may fail, with the slot unchanged.
  pub ioctl-Represents :
      (command fuel : ℕ) (kmalloc : Option (Ptr × Node))
      → id ≢ 0
      → length (r.chain minor) < fuel
      → ((p : Ptr) (junk : Node) → kmalloc ≡ some (p, junk) → IsFresh s p)
      → Selected V f id s kmalloc (device_ioctl command fuel f command id kmalloc s)
  unfolding device_ioctl
  ioctl-Represents command fuel kmalloc ne enough fresh =
      rw (==_refl command, ne→== id 0 ne, lt→ltb minor 256 (r.minors f))
        (tail-Selected fuel kmalloc enough fresh)
