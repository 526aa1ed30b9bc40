-- ===== src/PageTable/Finish.antt =====
-- What follows the walk: the read of the query, the erasure and the insertion of the update.
use operating_systems_git.Prelude.{
  ℕ, ◌+◌, ◌*◌, ◌^◌, ◌≤◌, ◌≡◌, refl, arith, Option, Bool-cases, ◌==◌, inl, inr,
}
use operating_systems_git.Run.{ok}
use operating_systems_git.PageTable.Os.{Os}
use operating_systems_git.PageTable.Table.{u64, Cursor, destroy, create, mapped_page}
use operating_systems_git.PageTable.Frames.{Frames, digit, look, insert, remove}
use operating_systems_git.PageTable.Memory.{IsMmap, Holds, load-ok, store-Holds}
use operating_systems_git.PageTable.Walk.{low, Stops}
use operating_systems_git.PageTable.Fill.{Outcome, fill-Outcome, Outcome-mono}

module _ {mmap : ℕ → Option ℕ} (law : IsMmap mmap) {s : Os} {F : Frames} {k p : ℕ} {c : Cursor}
    (h : Holds mmap s F) where
  pub mapped_page-look : {v : ℕ} → Stops s F k p v c → mapped_page c s ≡ ok (look F k p v) s
  unfolding mapped_page
  mapped_page-look {v} stops = elim (Bool-cases (c.valid == 1)) [
    | inl valid ↦
        let leaf : c.level ≡ 6 = omega (arith, stops.level, stops.last (ground arith)) in
        rw
          (
            leaf,
            valid,
            stops.base,
            stops.index,
            load-ok law h stops.frame (digit stops.left v) stops.lt (omega arith),
            stops.looks,
            valid,
          )
          refl
    | inr invalid ↦ rw (stops.looks, invalid) (ground arith)
  ]

  pub destroy-remove :
      {v : ℕ}
      → Stops s F k p v c
      → (t : Os) × (destroy c s ≡ ok tt t) × Holds mmap t (remove F k p v)
  unfolding destroy
  destroy-remove {v} stops = elim (Bool-cases (c.valid == 1)) [
    | inl valid ↦
        let (t, ran, held, _) =
          store-Holds law h stops.frame (digit stops.left v) 0 stops.lt (omega arith) in
        rw (stops.removes, valid, stops.base, stops.index) (t, ran, held)
    | inr invalid ↦ rw (stops.removes, invalid) (s, refl, h)
  ]

  pub create-insert :
      (vpn : ℕ)
      → Stops s F k p (low vpn) c
      → k ≤ 4
      → (ppn : ℕ)
      → Outcome mmap
          (insert F k p (low vpn) (u64 (u64 (ppn * 2 ^ 12) + 1)))
          F.size
          k
          (create vpn ppn mmap c s)
  unfolding create
  create-insert vpn stops few ppn =
      rw (stops.inserts (u64 (u64 (ppn * 2 ^ 12) + 1)), stops.index)
        (Outcome-mono law stops.left_le (
          fill-Outcome law stops.left 6 c.level c.virt_level_base stops.frame vpn
            (u64 (u64 (ppn * 2 ^ 12) + 1)) s F h stops.lt stops.base
            (omega (arith, stops.level, stops.left_le)) stops.level (omega (arith, stops.left_le))))
