-- ===== src/MessageSlot/Programs.antt =====
-- hw03/message_sender.c and message_reader.c: the user programs, as calls of the module.
use operating_systems_git.Prelude.{
  ℕ, ◌^◌, ◌<◌, ◌≤◌, ◌≡◌, ◌≢◌, refl, ap, ◌∙◌, arith, Option, none, some, List, [], ◌==◌, Bool, true,
  false, if◌then◌else◌, ◌&&◌, length, ==_refl, ne→==, le→ltb, subst,
}
use mathlib.Core.Option.{some-injective}
use operating_systems_git.Run.{Run, Cmd, ok, pure, ◌>>=◌}
use operating_systems_git.MessageSlot.Driver.{
  Ptr, Node, Slot, Reply, returns, fails, buf_len, device_ioctl, device_read, device_write,
}
use operating_systems_git.MessageSlot.View.{View, bytes_at, set_message, set_selected, Represents}
use operating_systems_git.MessageSlot.Copy.{collect}
use operating_systems_git.MessageSlot.Ioctl.{
  IsFresh, Selected, selected, no_memory, ioctl-Represents,
}
use operating_systems_git.MessageSlot.Read.{read_spec, read-Represents}
use operating_systems_git.MessageSlot.Session.{deliver-all}
use operating_systems_git.MessageSlot.Write.{write-Represents}

-- The command line: `argc`, the number that `strtol` reads from `argv[2]`, and the bytes of `argv[3]`
-- with their `strlen`. Fewer than three words are out of range in both programs, which read `argv[2]`
-- before they test `argc`.
pub record Args : Type 0 where
  pub argc : ℕ
  pub channel_id : ℕ
  pub text : ℕ → Option ℕ
  pub text_len : ℕ

abbrev pub exit_success : ℕ
exit_success = 0

abbrev pub exit_failure : ℕ
exit_failure = 1

-- `… < 0`
abbrev pub failed : Reply → Bool
failed (returns n) = false
failed (fails e) = true

-- The exit code. `opened` is the file that `open` gives, `closed` tells that `close` succeeds.
unfoldable pub message_sender :
    (command fuel : ℕ) (kmalloc : Option (Ptr × Node))
    → Args
    → (opened : Option ℕ) (closed : Bool) → Cmd Slot ℕ
unfolding device_ioctl device_write
message_sender command fuel kmalloc args opened closed =
    if args.argc == 4
    then elim opened [
      | none ↦ pure exit_failure
      | some fd ↦ (do
        set ← device_ioctl command fuel fd command args.channel_id kmalloc
        if failed set then pure exit_failure else do
          sent ← device_write fd args.text args.text_len
          if failed sent
              then pure exit_failure
              else pure (if closed then exit_success else exit_failure))
    ]
    else pure exit_failure

-- The bytes that `write` puts on the standard output, after a read that gave `got`.
abbrev pub output : Reply → (ℕ → ℕ) → List ℕ
output (returns n) buf = bytes_at 0 n buf
output (fails e) buf = []

-- The exit code and the standard output; `buf` is the buffer as it was, `printed` tells that the last
-- `write` succeeds.
unfoldable pub message_reader :
    (command fuel : ℕ) (kmalloc : Option (Ptr × Node))
    → Args
    → (opened : Option ℕ) (closed printed : Bool) (buf : ℕ → ℕ) → Cmd Slot (ℕ × List ℕ)
unfolding device_ioctl device_read
message_reader command fuel kmalloc args opened closed printed buf =
    if args.argc == 3
    then elim opened [
      | none ↦ pure (exit_failure, [])
      | some fd ↦ (do
        set ← device_ioctl command fuel fd command args.channel_id kmalloc
        if failed set then pure (exit_failure, []) else do
          (bytes_read, filled) ← device_read fd (λ _. true) buf buf_len
          if failed bytes_read
              then pure (exit_failure, [])
              else if closed && printed
              then pure (exit_success, output bytes_read filled)
              else pure (exit_failure, []))
    ]
    else pure (exit_failure, [])

Selected-returns :
    {V : View} {f id : ℕ} {s : Slot} {k : Ptr × Node} {e : Run Slot Reply}
    → Selected V f id s (some k) e
    → (t : Slot) × (e ≡ ok (returns 0) t)
      × Represents t (set_selected f (some id) V)
      × ((g : ℕ) → (t.files g).minor ≡ (s.files g).minor)
Selected-returns (selected {t} r same) = (t, refl, r, same)
Selected-returns (no_memory none_left) = absurd (ground arith)

abbrev given : Ptr → Node → Option (Ptr × Node)
given p junk = some (p, junk)

only-IsFresh :
    (s : Slot) (p : Ptr) (junk : Node)
    → IsFresh s p
    → (q : Ptr) (j : Node) → given p junk ≡ given q j
    → IsFresh s q
only-IsFresh s p junk fresh q j e =
    subst (λ (k : Ptr × Node). IsFresh s k.0) (some-injective (p, junk) (q, j) e) fresh

-- Called with four words, a number from 1 to 2^32 - 1 and a text of 1 to 128 bytes, where `open`, `close`
-- and `kmalloc` succeed and the fuel exceeds the number of channels of the device, the sender succeeds, and leaves its text as the
-- message of the channel of the file's device, and every other message as it was.
pub sender-Represents :
    {s : Slot} {V : View} {b : List ℕ} (args : Args) (command fuel f : ℕ) (p : Ptr) (junk : Node)
    (r : Represents s V)
    → args.argc ≡ 4
    → args.channel_id ≢ 0
    → args.channel_id < 2 ^ 32
    → length (r.chain (s.files f).minor) < fuel
    → IsFresh s p
    → 0 < args.text_len
    → args.text_len ≤ 128
    → collect args.text 0 args.text_len ≡ some b
    → (t : Slot) × (message_sender command fuel (some (p, junk)) args (some f) true s
        ≡ ok exit_success t)
      × Represents t (
          set_message (s.files f).minor args.channel_id b (set_selected f (some args.channel_id) V))
unfolding message_sender
sender-Represents {s} {V} {b} args command fuel f p junk r four ne small enough fresh pos le got =
    let (t, set, rt, same) = Selected-returns (
      ioctl-Represents r f args.channel_id small command fuel (some (p, junk)) ne enough
        (only-IsFresh s p junk fresh)) in
    let (u, wrote, ru, _) =
      write-Represents rt f args.text args.text_len (rw (==_refl f) refl) pos le got in
    (
      u,
      rw (four, set, wrote) refl,
      subst
          (λ m.
            Represents u
              (set_message m args.channel_id b (set_selected f (some args.channel_id) V)))
          (same f) ru,
    )

-- Called with three words and a number from 1 to 2^32 - 1, where `open`, `close`, `kmalloc` and the last
-- `write` succeed and the fuel exceeds the number of channels of the device, the reader prints the
-- message of the channel, if there is one, and leaves every message as it was.
pub reader-Represents :
    {s : Slot} {V : View} {b : List ℕ} (args : Args) (command fuel f : ℕ) (p : Ptr) (junk : Node)
    (buf : ℕ → ℕ) (r : Represents s V)
    → args.argc ≡ 3
    → args.channel_id ≢ 0
    → args.channel_id < 2 ^ 32
    → length (r.chain (s.files f).minor) < fuel
    → IsFresh s p
    → V.messages (s.files f).minor args.channel_id ≡ b
    → 0 < length b
    → length b ≤ 128
    → (t : Slot) × (message_reader command fuel (some (p, junk)) args (some f) true true buf s
        ≡ ok (exit_success, b) t)
      × Represents t (set_selected f (some args.channel_id) V)
unfolding message_reader
reader-Represents {s} {V} {b} args command fuel f p junk buf r three ne small enough fresh stored
      pos le =
    let id = args.channel_id in
    let all : ℕ → Bool = λ _. true in
    let (t, set, rt, same) = Selected-returns (
      ioctl-Represents r f id small command fuel (some (p, junk)) ne enough
        (only-IsFresh s p junk fresh)) in
    let (u, run, bytes, _) = deliver-all b 0 all buf (λ j. refl) in
    let reply : read_spec (set_selected f (some id) V) f all buf (t.files f).minor buf_len
        ≡ (returns (length b), u) =
      rw (==_refl f, same f, stored, ne→== (length b) 0 (omega arith), le→ltb buf_len (length b) le)
        (run ∙ ap (λ n. (returns n, u)) (omega arith)) in
    let got = read-Represents rt f all buf buf_len ∙ ap (λ x. ok x t) reply in
    (t, rw (three, set, got) (ap (λ x. ok (exit_success, x) t) bytes), rt)
