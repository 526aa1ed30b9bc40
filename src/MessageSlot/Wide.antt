-- ===== src/MessageSlot/Wide.antt =====
-- Channel numbers of more than 32 bits: `unsigned long` in the ioctl, `unsigned int` in the node.
use operating_systems_git.Prelude.{
  ℕ, suc, ◌%◌, ◌^◌, ◌≤◌, ◌<◌, ◌≡◌, ◌≢◌, refl, arith, some, ne→==, ==_refl, lt→ltb, update, ◌==◌,
  false,
}
use operating_systems_git.Run.{ok}
use operating_systems_git.MessageSlot.Driver.{null, Slot, Node, returns, device_ioctl, new_node}
use operating_systems_git.MessageSlot.Grow.{with_pointer}

module _ (f param p q : ℕ) (junk junk' : Node) (s : Slot) where
  abbrev minor : ℕ
  minor = (s.files f).minor

  abbrev after_first : Slot
  after_first = record (with_pointer s f p) {
    devices = update s.devices minor p;
    heap = update s.heap p (some (new_node param junk));
  }

  abbrev after_second : Slot
  after_second = record (with_pointer after_first f q) {
    heap =
        update (update after_first.heap p (some (record (new_node param junk) { next = q }))) q
          (some (new_node param junk'));
  }

  -- On a device with no channel, two ioctls in a row with the same number of 2^32 or more, each
  -- given memory at another address, succeed and give the file two different nodes.
  pub ioctl-wide :
      (command fuel : ℕ)
      → minor < 256
      → s.devices minor ≡ null
      → 2 ^ 32 ≤ param
      → p ≢ null
      → p ≢ q
      → (t : Slot) × (u : Slot) × (device_ioctl command
            (suc fuel)
            f
            command
            param
            (some (p, junk))
            s
          ≡ ok (returns 0) t)
        × (device_ioctl command (suc fuel) f command param (some (q, junk')) t ≡ ok (returns 0) u)
        × ((t.files f).private_data ≢ (u.files f).private_data)
  unfolding device_ioctl
  ioctl-wide command fuel small empty wide np ne =
      let nonzero : (param == 0) ≡ false = ne→== param 0 (omega arith) in
      let forgotten : (param == (param % 2 ^ 32)) ≡ false =
        ne→== param (param % 2 ^ 32) (omega arith) in
      (
        after_first,
        after_second,
        rw (==_refl command, nonzero, lt→ltb minor 256 small, empty) refl,
        rw
            (
              ==_refl command,
              nonzero,
              ==_refl f,
              lt→ltb minor 256 small,
              ==_refl minor,
              ne→== p null np,
              ==_refl p,
              ne→== p null np,
              forgotten,
              ==_refl f,
            )
            refl,
        rw (==_refl f) ne,
      )
