-- ===== src/MessageSlot/Driver.antt =====
-- hw03/message_slot.c and message_slot.h: the state of the module and its file operations.
use operating_systems_git.Prelude.{
  ℕ, zero, suc, ◌+◌, ◌%◌, ◌^◌, Option, none, some, Bool, ◌||◌, not, ltb, ◌==◌, if◌then◌else◌,
  update,
}
use operating_systems_git.Run.{Cmd, ok, fault, out_of_fuel, pure, gets, modify, ◌>>=◌, ◌>>◌}

abbrev pub Ptr : Type 0
Ptr = ℕ

abbrev pub null : Ptr
null = 0

-- `BUF_LEN`
abbrev pub buf_len : ℕ
buf_len = 128

-- `NODE`; `channel` holds `BUF_LEN` bytes.
pub record Node : Type 0 where
  pub channel_id : ℕ
  pub channel : ℕ → ℕ
  pub msg_len : ℕ
  pub next : Ptr

-- What the module reads of a `struct file`: the minor number of its inode, and `private_data`.
pub record File : Type 0 where
  pub minor : ℕ
  pub private_data : Ptr

-- The array `devices`, the nodes that `kmalloc` has given, and the files that are open.
pub record Slot : Type 0 where
  pub devices : ℕ → Ptr
  pub heap : Ptr → Option Node
  pub files : ℕ → File

pub data Errno : Type 0 where
  einval ewouldblock enospc emsgsize enomem : Errno

-- The value of a file operation: a count, or an error returned as a negative number.
pub data Reply : Type 0 where
  returns : ℕ → Reply
  fails : Errno → Reply

-- `node->…`, a fault at NULL and at an address with no node.
unfoldable pub load : Ptr → Cmd Slot Node
load p s = if p == null then fault else elim (s.heap p) [ none ↦ fault | some n ↦ ok n s ]

unfoldable pub store : Ptr → Node → Cmd Slot (Unit {0})
store p n = modify (λ s. record s { heap = update s.heap p (some n) })

unfoldable pub set_private : ℕ → Ptr → Cmd Slot (Unit {0})
set_private f p = modify (λ s. record s {
  files = update s.files f (record { minor = (s.files f).minor; private_data = p });
})

unfoldable pub device_open : Cmd Slot Reply
device_open = pure (returns 0)

unfoldable pub device_release : Cmd Slot Reply
device_release = pure (returns 0)

-- The loop of the read, from `i`, with `BUF_LEN - i` rounds left by its second test. `user` is the
-- memory of the caller at `buffer`, and `put_user` fails where it is not `writable`.
unfoldable pub put_loop : ℕ → (i : ℕ) → Node → (writable : ℕ → Bool) → (ℕ → ℕ) → Reply × (ℕ → ℕ)
put_loop zero i n writable user = (returns i, user)
put_loop (suc rounds) i n writable user =
    let rest = put_loop rounds (i + 1) n writable (update user i (n.channel i)) in
    if ltb i n.msg_len
    then (if writable i then rest else (fails Errno.einval, user))
    else (returns i, user)

unfoldable pub device_read :
    (f : ℕ) (writable : ℕ → Bool) (user : ℕ → ℕ) (len : ℕ) → Cmd Slot (Reply × (ℕ → ℕ))
unfolding put_loop load
device_read f writable user len = do
  p ← gets (λ s. (s.files f).private_data)
  if p == null then pure (fails Errno.einval, user) else do
    n ← load p
    if n.msg_len == 0
        then pure (fails Errno.ewouldblock, user)
        else if ltb len n.msg_len
        then pure (fails Errno.enospc, user)
        else pure (put_loop buf_len 0 n writable user)

-- The loop of the write. `buffer i` is the byte of the caller, `none` where `get_user` fails, which
-- then sets its target to zero.
unfoldable pub get_loop : ℕ → (i len : ℕ) → (buffer : ℕ → Option ℕ) → (ℕ → ℕ) → Reply × (ℕ → ℕ)
get_loop zero i len buffer channel = (returns i, channel)
get_loop (suc rounds) i len buffer channel =
    let rest = λ (c : ℕ). get_loop rounds (i + 1) len buffer (update channel i c) in
    if ltb i len
    then elim (buffer i) [ none ↦ (fails Errno.einval, update channel i 0) | some c ↦ rest c ]
    else (returns i, channel)

-- `node->msg_len = i` after a loop that returned `i`.
unfoldable pub set_length : Reply → Node → Node
set_length (returns i) n = record n { msg_len = i }
set_length (fails e) n = n

unfoldable pub device_write : (f : ℕ) (buffer : ℕ → Option ℕ) (len : ℕ) → Cmd Slot Reply
unfolding get_loop set_length load store
device_write f buffer len = do
  p ← gets (λ s. (s.files f).private_data)
  if p == null
      then pure (fails Errno.einval)
      else if (len == 0) || ltb 128 len
      then pure (fails Errno.emsgsize)
      else do
        n ← load p
        let out = get_loop buf_len 0 len buffer n.channel
        store p (set_length out.0 (record n { channel = out.1 }))
        pure out.0

-- A new node; `junk` is what the memory held.
unfoldable pub new_node : (param : ℕ) → Node → Node
new_node param junk = record {
  channel_id = param % 2 ^ 32;
  channel = junk.channel;
  msg_len = 0;
  next = null;
}

-- The `while` loop of the ioctl: the node of the channel, or `none` where `kmalloc` fails.
unfoldable pub find_channel :
    ℕ → (curr : Ptr) (param : ℕ) (kmalloc : Option (Ptr × Node)) → Cmd Slot (Option Ptr)
unfolding load store new_node
find_channel zero curr param kmalloc = λ _. out_of_fuel
find_channel (suc fuel) curr param kmalloc = do
  n ← load curr
  if param == n.channel_id
      then pure (some curr)
      else if n.next == null
      then elim kmalloc [
        | none ↦ pure none
        | some (p, junk) ↦ (do
          store curr (record n { next = p })
          store p (new_node param junk)
          pure (some p))
      ]
      else find_channel fuel n.next param kmalloc

-- The branch for a device with no channel yet.
unfoldable pub first_channel :
    (minor param : ℕ) (kmalloc : Option (Ptr × Node)) → Cmd Slot (Option Ptr)
unfolding store new_node
first_channel minor param none = pure none
first_channel minor param (some (p, junk)) = do
  store p (new_node param junk)
  modify (λ s. record s { devices = update s.devices minor p })
  pure (some p)

-- The end of the ioctl.
unfoldable pub select : ℕ → Option Ptr → Cmd Slot Reply
unfolding set_private
select f none = pure (fails Errno.enomem)
select f (some p) = do set_private f p; pure (returns 0)

-- `command` is `MSG_SLOT_CHANNEL`; `devices` has 256 places.
unfoldable pub device_ioctl :
    (command fuel f : ℕ) (ioctl_command_id ioctl_param : ℕ) (kmalloc : Option (Ptr × Node))
    → Cmd Slot Reply
unfolding find_channel first_channel select
device_ioctl command fuel f ioctl_command_id ioctl_param kmalloc = do
  minor ← gets (λ s. (s.files f).minor)
  if not (ioctl_command_id == command) || (ioctl_param == 0)
      then pure (fails Errno.einval)
      else if ltb minor 256
      then (do
        first ← gets (λ s. s.devices minor)
        curr ←
            if first == null
            then first_channel minor ioctl_param kmalloc
            else find_channel fuel first ioctl_param kmalloc
        select f curr)
      else (λ _. fault)

-- `kfree`, a fault at an address with no node.
unfoldable pub kfree : Ptr → Cmd Slot (Unit {0})
unfolding load
kfree p = do _ ← load p; modify (λ s. record s { heap = update s.heap p none })

-- The inner loop of `msgslot_exit`.
unfoldable pub free_channels : ℕ → (next : Ptr) → Cmd Slot (Unit {0})
free_channels zero next = λ _. out_of_fuel
free_channels (suc fuel) next =
    if next == null then pure tt else do n ← load next; kfree next; free_channels fuel n.next

-- Its outer loop, with `256 - i` rounds left.
unfoldable pub free_devices : ℕ → ℕ → (i : ℕ) → Cmd Slot (Unit {0})
free_devices fuel zero i = pure tt
free_devices fuel (suc rounds) i = do
  next ← gets (λ s. s.devices i)
  free_channels fuel next
  free_devices fuel rounds (i + 1)

unfoldable pub msgslot_exit : ℕ → Cmd Slot (Unit {0})
msgslot_exit fuel = free_devices fuel 256 0

-- `register` is the result of `register_chrdev`, `inr` being a negative number.
unfoldable pub msgslot_init : (register : Option Errno) → Reply
msgslot_init none = returns 0
msgslot_init (some e) = fails e
