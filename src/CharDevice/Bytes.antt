-- ===== src/CharDevice/Bytes.antt =====
-- rec06-devices: what a write leaves in the message of either module.
use operating_systems_git.Prelude.{
  ℕ, zero, suc, ◌+◌, ◌≤◌, ◌≡◌, ◌≢◌, refl, ap, arith, Option, ltb, leb, ◌&&◌, if◌then◌else◌, update,
  ne→==, ◌∙◌, true, ==_refl, ℕ_discrete, Bool-cases, inl, inr, ltb→lt,
}
use operating_systems_git.CharDevice.Replies.{returns, buf_len, byte_of}
use operating_systems_git.CharDevice.Encrypting.{Device, encoded, write_loop, device_write}
use operating_systems_git.CharDevice.Plain as Plain

loop-count :
    (flag rounds i len : ℕ) (buffer : ℕ → Option ℕ) (message : ℕ → ℕ)
    → i ≤ len
    → (write_loop flag rounds i len buffer message).0
      ≡ (if ltb len (i + rounds) then len else i + rounds)
unfolding write_loop
loop-count flag zero i len buffer message le = ground arith
loop-count flag (suc rounds) i len buffer message le = elim (Bool-cases (ltb i len)) [
  | inl e ↦
      let next = update message i (encoded flag (byte_of (buffer i))) in
      rw (e, loop-count flag rounds (i + 1) len buffer next (omega (arith, ltb→lt i len e)))
        (ground arith)
  | inr e ↦ rw e (ground arith)
]

-- The byte at `j`, given what a round stores there, after the rounds from `i` on.
abbrev kept : (rounds i len j new old : ℕ) → ℕ
kept rounds i len j new old = if leb i j && (ltb j (i + rounds) && ltb j len) then new else old

kept_here :
    (rounds i len new old : ℕ)
    → ltb i len ≡ true
    → kept rounds (i + 1) len i new new ≡ kept (suc rounds) i len i new old
kept_here rounds i len new old e = ground arith

kept_elsewhere :
    (rounds i len j new old : ℕ)
    → j ≢ i
    → kept rounds (i + 1) len j new old ≡ kept (suc rounds) i len j new old
kept_elsewhere rounds i len j new old ne = ground arith

kept_first :
    (rounds len j new old : ℕ)
    → kept rounds 0 len j new old ≡ (if ltb j rounds && ltb j len then new else old)
kept_first rounds len j new old = ground arith

-- The byte that the loop stores at `j`.
abbrev stored : (flag : ℕ) (buffer : ℕ → Option ℕ) (j : ℕ) → ℕ
stored flag buffer j = encoded flag (byte_of (buffer j))

kept-step :
    (flag rounds i len : ℕ) (buffer : ℕ → Option ℕ) (message : ℕ → ℕ) (j : ℕ)
    → ltb i len ≡ true
    → kept rounds (i + 1) len j (stored flag buffer j) (update message i (stored flag buffer i) j)
      ≡ kept (suc rounds) i len j (stored flag buffer j) (message j)
kept-step flag rounds i len buffer message j e = elim (ℕ_discrete j i) [
  | yes same ↦ rw (same, ==_refl i) (kept_here rounds i len (stored flag buffer i) (message i) e)
  | no ne ↦ rw (ne→== j i ne) (kept_elsewhere rounds i len j (stored flag buffer j) (message j) ne)
]

loop-bytes :
    (flag rounds i len : ℕ) (buffer : ℕ → Option ℕ) (message : ℕ → ℕ) (j : ℕ)
    → (write_loop flag rounds i len buffer message).1 j
      ≡ kept rounds i len j (stored flag buffer j) (message j)
unfolding write_loop
loop-bytes flag zero i len buffer message j = ground arith
loop-bytes flag (suc rounds) i len buffer message j = elim (Bool-cases (ltb i len)) [
  | inl e ↦
      let next = update message i (encoded flag (byte_of (buffer i))) in
      rw e (
        loop-bytes flag rounds (i + 1) len buffer next j
        ∙ kept-step flag rounds i len buffer message j e)
  | inr e ↦ rw e (ground arith)
]

loop_facts :
    (flag rounds len : ℕ) (buffer : ℕ → Option ℕ) (message : ℕ → ℕ)
    → (m : ℕ → ℕ) × (write_loop flag rounds 0 len buffer message
        ≡ ((if ltb len rounds then len else rounds), m))
      × ((j : ℕ) → m j ≡ (if ltb j rounds && ltb j len then stored flag buffer j else message j))
loop_facts flag rounds len buffer message =
    let run = write_loop flag rounds 0 len buffer message in
    (
      run.1,
      ap (λ n. (n, run.1))
          (loop-count flag rounds 0 len buffer message (omega arith)
            ∙ ap (λ r. if ltb len r then len else r) (omega arith)),
      λ j.
          loop-bytes flag rounds 0 len buffer message j
          ∙ kept_first rounds len j (stored flag buffer j) (message j),
    )

-- A write stores the first bytes of the buffer, 80 at most and each encoded as the flag says, returns
-- their number, and changes nothing else.
pub write-bytes :
    (buffer : ℕ → Option ℕ) (len : ℕ) (d : Device)
    → (message : ℕ → ℕ) × (device_write buffer len d
        ≡ (returns (if ltb len buf_len then len else buf_len), record d { the_message = message }))
      × ((j : ℕ)
          → message j ≡ (
              if ltb j buf_len && ltb j len
              then encoded d.encryption_flag (byte_of (buffer j))
              else d.the_message j))
unfolding device_write
write-bytes buffer len d =
    let (message, count, bytes) = loop_facts d.encryption_flag buf_len len buffer d.the_message in
    (message, ap (λ r. (returns r.0, record d { the_message = r.1 })) count, bytes)

encoded_plain : (flag c : ℕ) → flag ≢ 1 → encoded flag c ≡ c
encoded_plain flag c ne = rw (ne→== flag 1 ne) refl

loops-agree :
    (flag rounds i len : ℕ) (buffer : ℕ → Option ℕ) (message : ℕ → ℕ)
    → flag ≢ 1
    → write_loop flag rounds i len buffer message ≡ Plain.write_loop rounds i len buffer message
unfolding write_loop Plain.write_loop
loops-agree flag zero i len buffer message ne = refl
loops-agree flag (suc rounds) i len buffer message ne =
    rw
      (
        encoded_plain flag (byte_of (buffer i)) ne,
        loops-agree flag rounds (i + 1) len buffer (update message i (byte_of (buffer i))) ne,
      )
      refl

-- If the encryption flag is not 1 and both modules hold the same message, they write alike: the
-- reply and the message afterwards are the same.
pub writes-agree :
    (buffer : ℕ → Option ℕ) (len : ℕ) (d : Device) (p : Plain.Device)
    → d.encryption_flag ≢ 1
    → d.the_message ≡ p.the_message
    → ((device_write buffer len d).0 ≡ (Plain.device_write buffer len p).0)
      × ((device_write buffer len d).1.the_message
          ≡ (Plain.device_write buffer len p).1.the_message)
unfolding device_write Plain.device_write
writes-agree buffer len d p ne same =
    let run : write_loop d.encryption_flag buf_len 0 len buffer d.the_message
        ≡ Plain.write_loop buf_len 0 len buffer p.the_message =
      loops-agree d.encryption_flag buf_len 0 len buffer d.the_message ne
      ∙ ap (Plain.write_loop buf_len 0 len buffer) same in
    (ap (λ x. returns x.0) run, ap (λ x. x.1) run)
