-- ===== src/CharDevice/Plain.antt =====
-- rec06-devices/CHARDEV1/chardev.c: the module with a message only. A spin lock makes the open and the
-- release atomic; the prints are left out.
use operating_systems_git.Prelude.{
  ℕ, zero, suc, ◌+◌, Option, none, some, ◌==◌, ltb, if◌then◌else◌, update,
}
use operating_systems_git.CharDevice.Replies.{
  ebusy, einval, code, Reply, returns, fails, buf_len, byte_of, increment, decrement,
}

pub record Device : Type 0 where
  pub dev_open_flag : ℕ
  pub the_message : ℕ → ℕ
  pub major : ℕ

unfoldable pub device_open : Device → Reply × Device
device_open d =
    if d.dev_open_flag == 1
    then (fails ebusy, d)
    else (returns 0, record d { dev_open_flag = increment d.dev_open_flag })

unfoldable pub device_release : Device → Reply × Device
device_release d = (returns 0, record d { dev_open_flag = decrement d.dev_open_flag })

unfoldable pub device_read : Device → Reply × Device
device_read d = (fails einval, d)

-- The loop of the write from `i`, with `BUF_LEN - i` rounds left by its second test.
unfoldable pub write_loop : ℕ → (i len : ℕ) → (buffer : ℕ → Option ℕ) → (ℕ → ℕ) → ℕ × (ℕ → ℕ)
write_loop zero i len buffer message = (i, message)
write_loop (suc rounds) i len buffer message =
    let rest = write_loop rounds (i + 1) len buffer (update message i (byte_of (buffer i))) in
    if ltb i len then rest else (i, message)

unfoldable pub device_write : (buffer : ℕ → Option ℕ) (len : ℕ) → Device → Reply × Device
unfolding write_loop
device_write buffer len d =
    let (i, message) = write_loop buf_len 0 len buffer d.the_message in
    (returns i, record d { the_message = message })

-- `registered` is the major number that `register_chrdev` gives, or `none` with the error `e`, which
-- the assignment stores as well.
unfoldable pub simple_init : (registered : Option ℕ) (e : ℕ) → Device → Reply × Device
simple_init none e d = (fails (code e), record d { major = e })
simple_init (some m) e d = (returns 0, record d { major = m })

-- The major number that is unregistered.
unfoldable pub simple_cleanup : Device → ℕ
simple_cleanup d = d.major
