-- ===== src/CharDevice/Replies.antt =====
-- rec06-devices: what both modules return, and the bytes they are given.
use operating_systems_git.Prelude.{ℕ, ◌+◌, ◌-◌, ◌%◌, ◌^◌, Option, none, some}

-- The error numbers; `code n` is another one, which `register_chrdev` chose.
pub data Errno : Type 0 where
  ebusy einval : Errno
  code : ℕ → Errno

pub data Reply : Type 0 where
  returns : ℕ → Reply
  fails : Errno → Reply

-- `BUF_LEN`
abbrev pub buf_len : ℕ
buf_len = 80

-- What `get_user` stores: 0 where the byte of the caller is not readable.
abbrev pub byte_of : Option ℕ → ℕ
byte_of none = 0
byte_of (some c) = c

-- `++n` and `--n` for an `int`, which is kept modulo 2^32.
abbrev pub increment : ℕ → ℕ
increment n = (n + 1) % 2 ^ 32

abbrev pub decrement : ℕ → ℕ
decrement n = (n + (2 ^ 32 - 1)) % 2 ^ 32
