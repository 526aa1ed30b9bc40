-- ===== src/PageTable/Frames/Update.antt =====
-- `insert` and `remove` on the tree of tables change one page number and no other.
use operating_systems_git.Prelude.{ℕ, zero, suc, ◌%◌, ◌≡◌, arith, Bool-cases, ◌==◌, inl, inr}
use operating_systems_git.PageTable.Table.{no_mapping}
use operating_systems_git.PageTable.Frames.{Frames, digit, target, look, add_levels, insert, remove}
use operating_systems_git.PageTable.Frames.Tree.{Labels, IsTree, At, At-child}
use operating_systems_git.PageTable.Frames.Change.{
  Changes, put-Changes, stay-Changes, descend-Changes,
}
use operating_systems_git.PageTable.Frames.Extend.{
  extend-Changes, extend-IsTree, extend-At, new_empty,
}

add_levels-Changes :
    (k : ℕ) {F : Frames} {L : Labels} {p v : ℕ} (pte : ℕ)
    → IsTree F L
    → At F L k p v
    → F.entry p (digit k v) % 2 ≡ 0
    → (M : Labels) × Changes F (add_levels F k p v pte) L M k p v (target pte)
unfolding add_levels
add_levels-Changes zero {L} pte tree at invalid = (L, put-Changes tree pte at)
add_levels-Changes (suc k) {F} {L} {p} {v} pte tree at invalid =
    let (M, below) =
      add_levels-Changes k pte (extend-IsTree tree at invalid) (extend-At tree at invalid)
        (rw (new_empty tree at invalid (digit k v)) (omega arith)) in
    (M, extend-Changes tree at invalid below)

pub insert-Changes :
    (k : ℕ) {F : Frames} {L : Labels} {p v : ℕ} (pte : ℕ)
    → IsTree F L
    → At F L k p v
    → (M : Labels) × Changes F (insert F k p v pte) L M k p v (target pte)
unfolding insert
insert-Changes zero {L} pte tree at = (L, put-Changes tree pte at)
insert-Changes (suc k) {F} {p} {v} pte tree at =
    elim (Bool-cases ((F.entry p (digit (suc k) v) % 2) == 1)) [
      | inl valid ↦
          let valid' : F.entry p (digit (suc k) v) % 2 ≡ 1 = ground arith in
          let (M, below) = insert-Changes k pte tree (At-child tree at valid') in
          rw valid (M, descend-Changes tree at valid' below)
      | inr invalid ↦ rw invalid (add_levels-Changes (suc k) pte tree at (ground arith))
    ]

pub remove-Changes :
    (k : ℕ) {F : Frames} {L : Labels} {p v : ℕ}
    → IsTree F L
    → At F L k p v
    → (M : Labels) × Changes F (remove F k p v) L M k p v no_mapping
unfolding remove look
remove-Changes zero {F} {L} {p} {v} tree at =
    elim (Bool-cases ((F.entry p (digit zero v) % 2) == 1)) [
      | inl valid ↦ rw valid (L, put-Changes tree 0 at)
      | inr invalid ↦ rw invalid (L, stay-Changes tree (rw invalid))
    ]
remove-Changes (suc k) {F} {L} {p} {v} tree at =
    elim (Bool-cases ((F.entry p (digit (suc k) v) % 2) == 1)) [
      | inl valid ↦
          let valid' : F.entry p (digit (suc k) v) % 2 ≡ 1 = ground arith in
          let (M, below) = remove-Changes k tree (At-child tree at valid') in
          rw valid (M, descend-Changes tree at valid' below)
      | inr invalid ↦ rw invalid (L, stay-Changes tree (rw invalid))
    ]
