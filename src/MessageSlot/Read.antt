-- ===== src/MessageSlot/Read.antt =====
-- Reads, seen on the messages.
use operating_systems_git.Prelude.{
  ℕ, ◌≡◌, arith, Option, none, some, List, ◌==◌, Bool, Bool-cases, inl, inr, Option-cases,
  if◌then◌else◌, length, ltb, ne→==, ◌∙◌, sym, ap, subst,
}
use operating_systems_git.Run.{ok}
use operating_systems_git.MessageSlot.Driver.{null, Slot, buf_len, Errno, Reply, fails, device_read}
use operating_systems_git.MessageSlot.View.{View, length-bytes_at, Represents, Keeps}
use operating_systems_git.MessageSlot.Copy.{deliver, put_loop-deliver}
use operating_systems_git.MessageSlot.Target.{target, load_node}

-- The reply of a read for the message `b`, and the memory of the caller after it.
abbrev pub read_reply : List ℕ → (writable : ℕ → Bool) (user : ℕ → ℕ) (len : ℕ) → Reply × (ℕ → ℕ)
read_reply b writable user len =
    if length b == 0
    then (fails Errno.ewouldblock, user)
    else if ltb len (length b)
    then (fails Errno.enospc, user)
    else deliver b 0 writable user

abbrev pub read_selected :
    Option ℕ → (ℕ → List ℕ) → (writable : ℕ → Bool) (user : ℕ → ℕ) (len : ℕ) → Reply × (ℕ → ℕ)
read_selected none messages writable user len = (fails Errno.einval, user)
read_selected (some id) messages writable user len = read_reply (messages id) writable user len

-- What a file reads.
abbrev pub read_spec :
    View → (f : ℕ) (writable : ℕ → Bool) (user : ℕ → ℕ) (minor len : ℕ) → Reply × (ℕ → ℕ)
read_spec V f writable user minor len =
    read_selected (V.selected f) (V.messages minor) writable user len

module _ {s : Slot} {V : View} (r : Represents s V) (f : ℕ) where
  -- In a slot that a view represents, a read answers as `read_spec` says from the message of the
  -- file's channel, with its errors, and changes nothing in the slot.
  pub read-Represents :
      (writable : ℕ → Bool) (user : ℕ → ℕ) (len : ℕ)
      → device_read f writable user len s ≡ ok (read_spec V f writable user (s.files f).minor len) s
  unfolding device_read
  read-Represents writable user len = elim (Option-cases (V.selected f)) [
    | inl unset ↦
        let empty : (s.files f).private_data ≡ null =
          subst (Keeps (r.chain (s.files f).minor) (s.files f).private_data) unset (r.files f) in
        rw (unset, empty)
    | inr (id, set) ↦
        let t = target r f set in
        let n = t.at.node in
        let size : length (V.messages (s.files f).minor id) ≡ n.msg_len =
          ap length (sym t.stored) ∙ length-bytes_at 0 n.msg_len n.channel in
        rw (set, ne→== (s.files f).private_data null t.at.ne_null, load_node s t.at, size)
          (elim (Bool-cases (n.msg_len == 0)) [
            | inl none_yet ↦ rw none_yet
            | inr some_yet ↦ rw some_yet (elim (Bool-cases (ltb len n.msg_len)) [
              | inl small ↦ rw small
              | inr fits ↦ rw (
                fits,
                put_loop-deliver buf_len 0 n.msg_len n writable user (omega arith) t.short,
                t.stored,
              )
            ])
          ])
  ]
