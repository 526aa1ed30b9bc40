-- ===== src/MessageSlot/Tests.antt =====
-- The theorems at a slot with one channel.
use operating_systems_git.Prelude.{
  ℕ, ◌+◌, ◌^◌, ◌≡◌, ◌≢◌, refl, arith, Option, none, some, List, [], ◌∷◌, update, ◌==◌, ◌&&◌,
  if◌then◌else◌, length, Bool, true, ℕ_discrete, ne→==,
}
use operating_systems_git.Run.{ok}
use operating_systems_git.MessageSlot.Driver.{
  null, Slot, Node, Errno, returns, fails, device_read, device_write, device_ioctl, msgslot_exit,
}
use operating_systems_git.MessageSlot.Chain.{Cells, Chain, ptr_of}
use operating_systems_git.MessageSlot.View.{
  View, bytes_at, set_selected, set_message, Represents, Stores,
}
use operating_systems_git.MessageSlot.Copy.{collect}
use operating_systems_git.MessageSlot.Read.{read_spec, read-Represents}
use operating_systems_git.MessageSlot.Write.{write-Represents, write-unreadable}
use operating_systems_git.MessageSlot.Ioctl.{Selected, ioctl-Represents}
use operating_systems_git.MessageSlot.Exit.{AllGone, exit-AllGone}
use operating_systems_git.MessageSlot.Session.{read-write}
use operating_systems_git.MessageSlot.Programs.{
  Args, message_sender, message_reader, sender-Represents, reader-Represents,
}
use operating_systems_git.MessageSlot.Wide.{ioctl-wide}

-- Device 3 has channel 7 with two bytes; every file has selected it.
abbrev seven : Node
seven = record { channel_id = 7; channel = λ _. 65; msg_len = 2; next = null }

abbrev one_channel : Slot
one_channel = record {
  devices = update (λ _. null) 3 1;
  heap = update (λ _. none) 1 (some seven);
  files = λ _. record { minor = 3; private_data = 1 };
}

abbrev one_view : View
one_view = record {
  messages = λ m id. if (m == 3) && (id == 7) then 65 ∷ 65 ∷ [] else [];
  selected = λ _. some 7;
}

abbrev one_chain : ℕ → Cells
one_chain m = if m == 3 then (1, 7) ∷ [] else []

one_chains : (m : ℕ) → Chain one_channel.heap (λ _. 3) m (one_channel.devices m) (one_chain m)
one_chains m = elim (ℕ_discrete m 3) [
  | yes e ↦ rw e (refl, omega arith, refl, refl, (seven, refl, refl, refl))
  | no ne ↦ rw (ne→== m 3 ne) refl
]

one_messages :
    (m id : ℕ) → Stores one_channel.heap (ptr_of id (one_chain m)) (one_view.messages m id)
one_messages m id = elim (ℕ_discrete m 3) [
  | no ne ↦ rw (ne→== m 3 ne) refl
  | yes e ↦ elim (ℕ_discrete id 7) [
    | no ne ↦ rw (e, ne→== id 7 ne) refl
    | yes e' ↦ rw (e, e') (seven, refl, refl, omega arith)
  ]
]

abbrev one_Represents : Represents one_channel one_view
one_Represents = record {
  chain = one_chain;
  owner = λ _. 3;
  chains = λ m lt. one_chains m;
  messages = λ m id lt. one_messages m id;
  minors = λ f. omega arith;
  files = λ f. refl;
}

-- A buffer of readable bytes, and memory that can be written.
abbrev bytes_bcd : ℕ → Option ℕ
bytes_bcd i = some (66 + i)

abbrev all_writable : ℕ → Bool
all_writable _ = true

abbrev zeros : ℕ → ℕ
zeros _ = 0

read-Represents_example :
    device_read 0 all_writable zeros 10 one_channel
    ≡ ok (read_spec one_view 0 all_writable zeros 3 10) one_channel
read-Represents_example = read-Represents one_Represents 0 all_writable zeros 10

read_runs :
    (device_read 0 all_writable zeros 1 one_channel) ≡ ok (fails Errno.enospc, zeros) one_channel
unfolding device_read
read_runs = refl

write-Represents_example :
    (t : Slot) × (device_write 0 bytes_bcd 3 one_channel ≡ ok (returns 3) t)
    × Represents t (set_message 3 7 (66 ∷ 67 ∷ 68 ∷ []) one_view)
    × (t.files ≡ one_channel.files)
unfolding collect
write-Represents_example =
    write-Represents one_Represents 0 bytes_bcd 3 refl (omega arith) (omega arith) refl

write-unreadable_example :
    (t : Slot) × (b : List ℕ) × (device_write 0 (λ _. none) 3 one_channel
      ≡ ok (fails Errno.einval) t)
    × (length b ≡ 2)
    × Represents t (set_message 3 7 b one_view)
unfolding collect
write-unreadable_example =
    write-unreadable one_Represents 0 (λ _. none) 3 refl (omega arith) (omega arith) refl

abbrev junk_node : Node
junk_node = record { channel_id = 9; channel = λ i. i; msg_len = 77; next = 5 }

ioctl-Represents_example :
    Selected one_view 0 8 one_channel
      (some (2, junk_node))
      (device_ioctl 1 5 0 1 8 (some (2, junk_node)) one_channel)
ioctl-Represents_example =
    ioctl-Represents one_Represents 0 8 (omega arith) 1 5 (some (2, junk_node)) (omega arith)
      (omega arith) (λ p junk e. ground arith)

exit-AllGone_example :
    (t : Slot) × (msgslot_exit 5 one_channel ≡ ok tt t) × AllGone one_Represents t
exit-AllGone_example = exit-AllGone one_Represents 5 (λ m lt. ground arith)

read-write_example :
    (t : Slot) × (u : ℕ → ℕ) × (device_write 0 bytes_bcd 3 one_channel ≡ ok (returns 3) t)
    × (device_read 1 all_writable zeros 10 t ≡ ok (returns 3, u) t)
    × (bytes_at 0 3 u ≡ 66 ∷ 67 ∷ 68 ∷ [])
unfolding collect
read-write_example =
    read-write one_Represents bytes_bcd refl (omega arith) (omega arith) refl 1 all_writable zeros
      10 refl refl (λ j. refl) (omega arith)

ioctl-wide_example :
    (t : Slot) × (u : Slot) × (device_ioctl 1 5 0 1
        (2 ^ 32)
        (some (2, junk_node))
        (record one_channel { devices = λ _. null })
      ≡ ok (returns 0) t)
    × (device_ioctl 1 5 0 1 (2 ^ 32) (some (3, junk_node)) t ≡ ok (returns 0) u)
    × ((t.files 0).private_data ≢ (u.files 0).private_data)
ioctl-wide_example =
    ioctl-wide 0 (2 ^ 32) 2 3 junk_node junk_node (record one_channel { devices = λ _. null }) 1 4
      (omega arith) refl (omega arith) (omega arith) (omega arith)

-- The programs at channel 7.
abbrev words : ℕ → Args
words n = record { argc = n; channel_id = 7; text = bytes_bcd; text_len = 3 }

sender-Represents_example :
    (t : Slot) × (message_sender 1 5 (some (2, junk_node)) (words 4) (some 0) true one_channel
      ≡ ok 0 t)
    × Represents t (set_message 3 7 (66 ∷ 67 ∷ 68 ∷ []) (set_selected 0 (some 7) one_view))
unfolding collect
sender-Represents_example =
    sender-Represents (words 4) 1 5 0 2 junk_node one_Represents refl (omega arith) (omega arith)
      (omega arith) (omega arith, refl) (omega arith) (omega arith) refl

reader-Represents_example :
    (t : Slot) × (message_reader 1 5
        (some (2, junk_node))
        (words 3)
        (some 0)
        true
        true
        zeros
        one_channel
      ≡ ok (0, 65 ∷ 65 ∷ []) t)
    × Represents t (set_selected 0 (some 7) one_view)
reader-Represents_example =
    reader-Represents (words 3) 1 5 0 2 junk_node zeros one_Represents refl (omega arith)
      (omega arith) (omega arith) (omega arith, refl) refl (omega arith) (omega arith)
