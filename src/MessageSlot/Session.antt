-- ===== src/MessageSlot/Session.antt =====
-- Two open files: what one writes the other reads, and other channels are not disturbed.
use operating_systems_git.Prelude.{
  ℕ, suc, ◌+◌, ◌≤◌, ◌<◌, ◌≡◌, ◌≢◌, ◌⊎◌, refl, arith, Option, some, List, [], ◌∷◌, Bool, true,
  length, update, le→ltb, ne→==, ==_refl, ◌∙◌, ap, subst,
}
use operating_systems_git.Run.{ok}
use operating_systems_git.MessageSlot.Driver.{Slot, File, Reply, returns, device_read, device_write}
use operating_systems_git.MessageSlot.View.{View, bytes_at, set_message, Represents}
use operating_systems_git.MessageSlot.Copy.{deliver, collect, length-collect}
use operating_systems_git.MessageSlot.Target.{both_false}
use operating_systems_git.MessageSlot.Read.{read_spec, read_reply, read-Represents}
use operating_systems_git.MessageSlot.Write.{write-Represents}

-- A delivery to writable memory returns the length and leaves the bytes there.
pub deliver-all :
    (b : List ℕ) (i : ℕ) (writable : ℕ → Bool) (user : ℕ → ℕ)
    → ((j : ℕ) → writable j ≡ true)
    → (u : ℕ → ℕ) × (deliver b i writable user ≡ (returns (i + length b), u))
      × (bytes_at i (length b) u ≡ b)
      × ((j : ℕ) → j < i → u j ≡ user j)
unfolding deliver
deliver-all [] i writable user all =
    (user, ap (λ r. (returns r, user)) (omega arith), refl, λ j lt. refl)
deliver-all (c ∷ b) i writable user all =
    let (u, run, bytes, kept) = deliver-all b (i + 1) writable (update user i c) all in
    let size : i + 1 + length b ≡ i + suc (length b) = omega arith in
    let first : u i ≡ c = kept i (omega arith) ∙ rw (==_refl i) in
    rw (all i) (
      u,
      run ∙ ap (λ r. (returns r, u)) size,
      rw (first, bytes),
      λ j lt. kept j (omega arith) ∙ rw (ne→== j i (omega arith)),
    )

module _ {s : Slot} {V : View} (r : Represents s V) {f id len : ℕ} {b : List ℕ}
    (buffer : ℕ → Option ℕ) (set : V.selected f ≡ some id) (pos : 0 < len) (le : len ≤ 128)
    (got : collect buffer 0 len ≡ some b) (g : ℕ) (writable : ℕ → Bool) (user : ℕ → ℕ)
    (room : ℕ) where
  -- The write, and a read in the state that it leaves.
  after_write :
      (t : Slot) × (device_write f buffer len s ≡ ok (returns len) t)
      × (device_read g writable user room t
          ≡ ok
              (read_spec
                (set_message (s.files f).minor id b V)
                g
                writable
                user
                (s.files g).minor
                room)
              t)
  after_write =
      let (t, wrote, rt, files) = write-Represents r f buffer len set pos le got in
      (
        t,
        wrote,
        read-Represents rt g writable user room
            ∙ ap
                (λ (fs : ℕ → File).
                  ok
                    (read_spec (set_message (s.files f).minor id b V) g writable user (fs g).minor
                      room)
                    t)
                files,
      )

  -- Two files of one device have selected the same channel: what one writes, 1 to 128 readable
  -- bytes, the other reads back in full, if its buffer is writable and has room.
  pub read-write :
      (s.files g).minor ≡ (s.files f).minor
      → V.selected g ≡ some id
      → ((j : ℕ) → writable j ≡ true)
      → len ≤ room
      → (t : Slot) × (u : ℕ → ℕ) × (device_write f buffer len s ≡ ok (returns len) t)
        × (device_read g writable user room t ≡ ok (returns len, u) t)
        × (bytes_at 0 len u ≡ b)
  read-write same set' all fits =
      let (t, wrote, read) = after_write in
      let size : length b ≡ len = length-collect buffer 0 len got in
      let (u, run, bytes, _) = deliver-all b 0 writable user all in
      let run' : deliver b 0 writable user ≡ (returns len, u) =
        run ∙ ap (λ n. (returns n, u)) (omega arith) in
      let reply : read_spec (set_message (s.files f).minor id b V) g writable user (s.files g).minor
            room
          ≡ (returns len, u) =
        rw
          (
            set',
            same,
            ==_refl (s.files f).minor,
            ==_refl id,
            size,
            ne→== len 0 (omega arith),
            le→ltb room len fits,
          )
          run' in
      (t, u, wrote, read ∙ ap (λ x. ok x t) reply, subst (λ n. bytes_at 0 n u ≡ b) size bytes)

  -- A write leaves what is read through a file of another device or channel.
  pub read-write_other :
      {id' : ℕ}
      → V.selected g ≡ some id'
      → ((s.files g).minor ≢ (s.files f).minor) ⊎ (id' ≢ id)
      → (t : Slot) × (x : Reply × (ℕ → ℕ)) × (device_write f buffer len s ≡ ok (returns len) t)
        × (device_read g writable user room s ≡ ok x s)
        × (device_read g writable user room t ≡ ok x t)
  read-write_other {id'} set' other =
      let (t, wrote, read) = after_write in
      let untouched = both_false (s.files g).minor (s.files f).minor id' id other in
      (
        t,
        read_reply (V.messages (s.files g).minor id') writable user room,
        wrote,
        read-Represents r g writable user room ∙ rw set' refl,
        read ∙ rw (set', untouched) refl,
      )
