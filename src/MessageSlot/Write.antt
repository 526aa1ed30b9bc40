-- ===== src/MessageSlot/Write.antt =====
-- Writes, seen on the messages.
use operating_systems_git.Prelude.{
  ℕ, ◌≤◌, ◌<◌, ◌≡◌, refl, arith, Option, none, some, List, ◌==◌, false, ◌||◌, length, ltb, ne→==,
  ◌∙◌, sym, ap, subst,
}
use operating_systems_git.Run.{ok}
use operating_systems_git.MessageSlot.Driver.{
  null, Slot, buf_len, Node, Errno, returns, fails, device_write,
}
use operating_systems_git.MessageSlot.View.{
  View, bytes_at, length-bytes_at, set_message, Represents, Keeps,
}
use operating_systems_git.MessageSlot.Copy.{collect, get_loop-collect, get_loop-fails}
use operating_systems_git.MessageSlot.Target.{target, load_node, with_node, with_node-Represents}

size_fits : (len : ℕ) → 0 < len → len ≤ 128 → ((len == 0) || ltb 128 len) ≡ false
size_fits len pos le = ground arith

module _ {s : Slot} {V : View} (r : Represents s V) (f : ℕ) where
  -- A write to a file with no channel fails with EINVAL and changes nothing.
  pub write-unset :
      (buffer : ℕ → Option ℕ) (len : ℕ)
      → V.selected f ≡ none
      → device_write f buffer len s ≡ ok (fails Errno.einval) s
  unfolding device_write
  write-unset buffer len unset =
      let empty : (s.files f).private_data ≡ null =
        subst (Keeps (r.chain (s.files f).minor) (s.files f).private_data) unset (r.files f) in
      rw empty

  -- On a file with a channel, a write of 1 to 128 bytes that can all be read replaces the message of the file's channel, and no other.
  pub write-Represents :
      {id : ℕ} {b : List ℕ} (buffer : ℕ → Option ℕ) (len : ℕ)
      → V.selected f ≡ some id
      → 0 < len
      → len ≤ 128
      → collect buffer 0 len ≡ some b
      → (t : Slot) × (device_write f buffer len s ≡ ok (returns len) t)
        × Represents t (set_message (s.files f).minor id b V)
        × (t.files ≡ s.files)
  unfolding device_write
  write-Represents {id} {b} buffer len set pos le got =
      let t = target r f set in
      let n = t.at.node in
      let (c, run, bytes, _) =
        get_loop-collect buf_len 0 len len buffer n.channel (omega arith) le got in
      let k : Node = record n { channel = c; msg_len = len } in
      rw
        (
          ne→== (s.files f).private_data null t.at.ne_null,
          size_fits len pos le,
          load_node s t.at,
          run,
        )
        (with_node r f k, refl, rw (← bytes) (with_node-Represents r f t k refl refl le), refl)

  -- On a file with a channel, a write of 1 to 128 bytes that meets an unreadable one fails with
  -- EINVAL and leaves, as the message of the file's channel, some bytes of the old length; no
  -- other message changes.
  pub write-unreadable :
      {id : ℕ} (buffer : ℕ → Option ℕ) (len : ℕ)
      → V.selected f ≡ some id
      → 0 < len
      → len ≤ 128
      → collect buffer 0 len ≡ none
      → (t : Slot) × (b : List ℕ) × (device_write f buffer len s ≡ ok (fails Errno.einval) t)
        × (length b ≡ length (V.messages (s.files f).minor id))
        × Represents t (set_message (s.files f).minor id b V)
  unfolding device_write
  write-unreadable {id} buffer len set pos le got =
      let t = target r f set in
      let n = t.at.node in
      let (c, run) = get_loop-fails buf_len 0 len len buffer n.channel (omega arith) le got in
      let k : Node = record n { channel = c } in
      let size : length (bytes_at 0 n.msg_len c) ≡ length (V.messages (s.files f).minor id) =
        length-bytes_at 0 n.msg_len c
        ∙ sym (length-bytes_at 0 n.msg_len n.channel)
        ∙ ap length t.stored in
      rw
        (
          ne→== (s.files f).private_data null t.at.ne_null,
          size_fits len pos le,
          load_node s t.at,
          run,
        )
        (
          with_node r f k,
          bytes_at 0 n.msg_len c,
          refl,
          size,
          with_node-Represents r f t k refl refl t.short,
        )
