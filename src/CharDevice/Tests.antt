-- ===== src/CharDevice/Tests.antt =====
-- The theorems at a device that encrypts, and at a file that opens the device.
use operating_systems_git.Prelude.{
  ℕ, ◌+◌, ◌≡◌, ◌≤◌, refl, arith, Option, some, List, ◌∷◌, [], length, if◌then◌else◌, ltb, ◌&&◌,
}
use operating_systems_git.CharDevice.Replies.{returns, buf_len, byte_of}
use operating_systems_git.CharDevice.Encrypting.{Device, device_open, device_write, encoded}
use operating_systems_git.CharDevice.Plain as Plain
use operating_systems_git.CharDevice.Bytes.{write-bytes, writes-agree}
use operating_systems_git.CharDevice.Exclusive.{
  boot, Reaches, one_holder, opened, refused, start, next,
}

abbrev hello : ℕ → Option ℕ
hello i = some (b'a' + i)

abbrev secret : Device
secret = record { dev_open_flag = 1; the_message = λ _. 0; encryption_flag = 1 }

abbrev clear : Device
clear = record { dev_open_flag = 1; the_message = λ _. 0; encryption_flag = 0 }

abbrev plain : Plain.Device
plain = record { dev_open_flag = 1; the_message = λ _. 0; major = 240 }

writes-agree_example :
    ((device_write hello 5 clear).0 ≡ (Plain.device_write hello 5 plain).0)
    × ((device_write hello 5 clear).1.the_message
        ≡ (Plain.device_write hello 5 plain).1.the_message)
writes-agree_example = writes-agree hello 5 clear plain (omega arith) refl

write-bytes_example :
    (message : ℕ → ℕ) × (device_write hello 5 secret
      ≡ (returns 5, record secret { the_message = message }))
    × ((j : ℕ)
        → message j ≡ (if ltb j buf_len && ltb j 5 then encoded 1 (byte_of (hello j)) else 0))
write-bytes_example = write-bytes hello 5 secret

-- One file opens the device, a second one is refused, the first one closes it.
abbrev held : Device
held = record { dev_open_flag = 1; the_message = λ _. 0; encryption_flag = 0 }

abbrev one_file : List ℕ
one_file = 4 ∷ []

two_opens : Reaches (boot (λ _. 0)) (record { device = held; holders = one_file })
unfolding device_open
two_opens = next (next start (opened 4 refl)) (refused refl)

one_holder_example : (1 ≡ length one_file) × (length one_file ≤ 1)
one_holder_example = one_holder (λ _. 0) two_opens
