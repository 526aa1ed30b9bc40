-- ===== src/CharDevice/Encrypting.antt =====
-- rec06-devices/CHARDEV2/chardev.c and chardev.h: the module that can add one to every byte.
use operating_systems_git.Prelude.{
  ℕ, zero, suc, ◌+◌, ◌%◌, ◌^◌, Option, none, some, ◌==◌, ltb, if◌then◌else◌, update,
}
use operating_systems_git.CharDevice.Replies.{
  ebusy, einval, code, Reply, returns, fails, buf_len, byte_of, increment, decrement,
}

pub record Device : Type 0 where
  pub dev_open_flag : ℕ
  pub the_message : ℕ → ℕ
  pub encryption_flag : ℕ

unfoldable pub device_open : Device → Reply × Device
device_open d =
    if d.dev_open_flag == 1
    then (fails ebusy, d)
    else (returns 0, record d { dev_open_flag = increment d.dev_open_flag })

unfoldable pub device_release : Device → Reply × Device
device_release d = (returns 0, record d { dev_open_flag = decrement d.dev_open_flag })

unfoldable pub device_read : Device → Reply × Device
device_read d = (fails einval, d)

-- The byte that a round of the loop leaves.
abbrev pub encoded : (encryption_flag : ℕ) → ℕ → ℕ
encoded flag c = if flag == 1 then (c + 1) % 2 ^ 8 else c

-- The loop of the write from `i`, with `BUF_LEN - i` rounds left by its second test.
unfoldable pub write_loop :
    (encryption_flag : ℕ) → ℕ → (i len : ℕ) → (buffer : ℕ → Option ℕ) → (ℕ → ℕ) → ℕ × (ℕ → ℕ)
write_loop flag zero i len buffer message = (i, message)
write_loop flag (suc rounds) i len buffer message =
    let rest =
      write_loop flag rounds (i + 1) len buffer
        (update message i (encoded flag (byte_of (buffer i)))) in
    if ltb i len then rest else (i, message)

unfoldable pub device_write : (buffer : ℕ → Option ℕ) (len : ℕ) → Device → Reply × Device
unfolding write_loop
device_write buffer len d =
    let (i, message) = write_loop d.encryption_flag buf_len 0 len buffer d.the_message in
    (returns i, record d { the_message = message })

-- `command` is `IOCTL_SET_ENC`; the parameter is cut to an `int`.
unfoldable pub device_ioctl : (command ioctl_command_id ioctl_param : ℕ) → Device → Reply × Device
device_ioctl command ioctl_command_id ioctl_param d =
    if ioctl_command_id == command
    then (returns 0, record d { encryption_flag = ioctl_param % 2 ^ 32 })
    else (returns 0, d)

-- `error` is the error of `register_chrdev`, if any.
unfoldable pub simple_init : (error : Option ℕ) → Reply
simple_init none = returns 0
simple_init (some e) = fails (code e)
