-- ===== src/PageTable/Frames/Tree.antt =====
-- The tables form a tree: each table has a level and a prefix of the page numbers it serves.
use operating_systems_git.Prelude.{
  ℕ, zero, suc, ◌+◌, ◌*◌, ◌/◌, ◌%◌, ◌<◌, ◌≡◌, ◌≢◌, ◌⊎◌, inl, inr, arith, Bool-cases, ◌==◌,
}
use operating_systems_git.PageTable.Table.{no_mapping}
use operating_systems_git.PageTable.Frames.{Frames, digits_above, digit, look}

-- For a frame: the levels from it down, itself included, and the digits that lead to it.
pub record Labels : Type 0 where
  pub depth : ℕ → ℕ
  pub tag : ℕ → ℕ

-- A valid entry `i` of a table `p` leads to a table of the next level.
pub record IsChild (F : Frames) (L : Labels) (p i k c : ℕ) : Type 0 where
  pub lt : c < F.size
  pub depth : L.depth c ≡ suc k
  pub tag : L.tag c ≡ L.tag p * 512 + i

pub record IsTree (F : Frames) (L : Labels) : Type 0 where
  pub child :
      (p i k : ℕ)
      → p < F.size
      → i < 512
      → L.depth p ≡ suc (suc k)
      → F.entry p i % 2 ≡ 1
      → IsChild F L p i k (F.entry p i / 4096)

-- Frame `p` is the table that serves `v` with `k` levels below it.
pub record At (F : Frames) (L : Labels) (k p v : ℕ) : Type 0 where
  pub lt : p < F.size
  pub depth : L.depth p ≡ suc k
  pub tag : L.tag p ≡ digits_above (suc k) v

-- From `F` to `G` no entry changes but on the way of `v`, at most `k` levels above the last.
abbrev pub Same : Frames → Frames → Labels → ℕ → ℕ → Type 0
Same F G L k v =
    (q i j : ℕ)
    → q < F.size
    → i < 512
    → L.depth q ≡ suc j
    → (k < j) ⊎ (L.tag q * 512 + i ≢ digits_above j v)
    → G.entry q i ≡ F.entry q i

module _ {F : Frames} {L : Labels} (tree : IsTree F L) where
  pub At-child :
      {k p v : ℕ}
      → At F L (suc k) p v
      → F.entry p (digit (suc k) v) % 2 ≡ 1
      → At F L k (F.entry p (digit (suc k) v) / 4096) v
  At-child {k} {p} {v} at valid =
      let c = tree.child p (digit (suc k) v) k at.lt (omega arith) at.depth valid in
      record { lt = c.lt; depth = c.depth; tag = omega (arith, c.tag, at.tag) }

  -- A page number that leaves the way of `v` sees no change.
  pub off_path :
      (G : Frames) (m v : ℕ) (same : Same F G L m v) (j q w : ℕ)
      → At F L j q w
      → digits_above j w ≢ digits_above j v
      → look G j q w ≡ look F j q w
  unfolding look
  off_path G m v same zero q w at off =
      rw
        (same q (digit 0 w) 0 at.lt (omega arith) at.depth (inr (λ e. off (omega (arith, at.tag)))))
  off_path G m v same (suc j) q w at off =
      rw
        (same q (digit (suc j) w) (suc j) at.lt (omega arith) at.depth
          (inr (λ e. off (omega (arith, at.tag)))))
        (elim (Bool-cases ((F.entry q (digit (suc j) w) % 2) == 1)) [
          | inl valid ↦ rw valid (
              off_path G m v same j (F.entry q (digit (suc j) w) / 4096) w
                (At-child at (ground arith)) (λ e. off (omega arith)))
          | inr invalid ↦ rw invalid
        ])

-- A table with no valid entry maps nothing.
pub look-zero : (F : Frames) (k p v : ℕ) → ((i : ℕ) → F.entry p i ≡ 0) → look F k p v ≡ no_mapping
unfolding look
look-zero F zero p v empty = rw (empty (digit 0 v))
look-zero F (suc k) p v empty = rw (empty (digit (suc k) v))
