-- ===== src/PageTable/Walk.antt =====
-- The loops of pt.c on memory, followed on the frames.
use operating_systems_git.Prelude.{
  ℕ, zero, suc, ◌+◌, ◌*◌, ◌/◌, ◌%◌, ◌^◌, ◌<◌, ◌≤◌, ◌≡◌, refl, arith, Option, Bool-cases, ◌==◌, inl,
  inr, if◌then◌else◌, leb, le→leb, true, false,
}
use operating_systems_git.Run.{ok}
use operating_systems_git.PageTable.Os.{Os}
use operating_systems_git.PageTable.Table.{no_mapping, index_at, Cursor, walk}
use operating_systems_git.PageTable.Frames.{Frames, put, digit, look, add_levels, insert, remove}
use operating_systems_git.PageTable.Frames.Tree.{Labels, IsTree, At, At-child}
use operating_systems_git.PageTable.Memory.{IsMmap, Holds, phys_to_virt-frame, load-ok}

-- The bits of a page number that the five levels read.
abbrev pub low : ℕ → ℕ
low vpn = vpn % 2 ^ 45

pub index_at-digit :
    (k level vpn : ℕ) → 0 < level → level + k ≡ 5 → index_at level vpn ≡ digit k (low vpn)
index_at-digit zero level vpn pos e = let l : level ≡ 5 = omega arith in rw l (omega arith)
index_at-digit (suc zero) level vpn pos e = let l : level ≡ 4 = omega arith in rw l (omega arith)
index_at-digit (suc (suc zero)) level vpn pos e =
    let l : level ≡ 3 = omega arith in rw l (omega arith)
index_at-digit (suc (suc (suc zero))) level vpn pos e =
    let l : level ≡ 2 = omega arith in rw l (omega arith)
index_at-digit (suc (suc (suc (suc zero)))) level vpn pos e =
    let l : level ≡ 1 = omega arith in rw l (omega arith)
index_at-digit (suc (suc (suc (suc (suc k))))) level vpn pos e = absurd (omega arith)

-- Where the walk from the table `p`, with `k` levels below it, stops.
pub record Stops (s : Os) (F : Frames) (k p v : ℕ) (c : Cursor) : Type 0 where
  pub left : ℕ
  pub frame : ℕ
  pub lt : frame < F.size
  pub base : c.virt_level_base ≡ s.pages frame
  pub index : c.index ≡ digit left v
  pub level : c.level + left ≡ 6
  pub valid : c.valid ≡ F.entry frame (digit left v) % 2
  pub last : c.valid ≡ 1 → left ≡ 0
  pub left_le : left ≤ k
  pub inserts : (pte : ℕ) → insert F k p v pte ≡ add_levels F left frame v pte
  pub removes : remove F k p v ≡ (if c.valid == 1 then put F frame (digit left v) 0 else F)
  pub looks :
      look F k p v ≡ (if c.valid == 1 then F.entry frame (digit left v) / 4096 else no_mapping)

-- The walk that stops at the table `p` itself.
abbrev cursor_at : Os → Frames → ℕ → ℕ → ℕ → ℕ → Cursor
cursor_at s F k p v level = record {
  virt_level_base = s.pages p;
  phys_level_base = F.entry p (digit k v) / 2 ^ 12 * 2 ^ 12;
  index = digit k v;
  level = level + 1;
  valid = F.entry p (digit k v) % 2;
}

module _ {mmap : ℕ → Option ℕ} (law : IsMmap mmap) {s : Os} {F : Frames} {L : Labels}
    (h : Holds mmap s F) (tree : IsTree F L) where
  Stops-leaf :
      (level p v : ℕ) → level + 0 ≡ 5 → p < F.size → Stops s F 0 p v (cursor_at s F 0 p v level)
  unfolding insert add_levels remove look
  Stops-leaf level p v e lt = record {
    left = 0;
    frame = p;
    lt = lt;
    base = refl;
    index = refl;
    level = omega arith;
    valid = refl;
    last = λ _. refl;
    left_le = omega arith;
    inserts = λ pte. refl;
    removes = refl;
    looks = refl;
  }

  Stops-inner :
      (k level p v : ℕ)
      → level + suc k ≡ 5
      → p < F.size
      → ((F.entry p (digit (suc k) v) % 2) == 1) ≡ false
      → Stops s F (suc k) p v (cursor_at s F (suc k) p v level)
  unfolding insert remove look
  Stops-inner k level p v e lt invalid = record {
    left = suc k;
    frame = p;
    lt = lt;
    base = refl;
    index = refl;
    level = omega arith;
    valid = refl;
    last = λ e. ground arith;
    left_le = omega arith;
    inserts = λ pte. rw invalid;
    removes = rw invalid;
    looks = rw invalid;
  }

  Stops-below :
      (k p v : ℕ) {c : Cursor}
      → ((F.entry p (digit (suc k) v) % 2) == 1) ≡ true
      → Stops s F k (F.entry p (digit (suc k) v) / 4096) v c
      → Stops s F (suc k) p v c
  unfolding insert remove look
  Stops-below k p v {c} valid r = record {
    left = r.left;
    frame = r.frame;
    lt = r.lt;
    base = r.base;
    index = r.index;
    level = r.level;
    valid = r.valid;
    last = r.last;
    left_le = omega (arith, r.left_le);
    inserts = λ pte. rw valid (r.inserts pte);
    removes = rw valid r.removes;
    looks = rw valid r.looks;
  }

  pub walk-Stops :
      (k fuel level p vpn : ℕ)
      → 0 < level
      → level + k ≡ 5
      → k < fuel
      → At F L k p (low vpn)
      → (c : Cursor) × (walk fuel (p * 2 ^ 12) level vpn s ≡ ok c s) × Stops s F k p (low vpn) c
  unfolding walk
  walk-Stops k zero level p vpn pos e enough at = absurd (omega arith)
  walk-Stops zero (suc fuel) level p vpn pos e enough at =
      let over : leb (level + 1) 5 ≡ false = ground arith in
      rw
        (
          phys_to_virt-frame law h p at.lt,
          index_at-digit 0 level vpn pos e,
          load-ok law h p (digit 0 (low vpn)) at.lt (omega arith),
          over,
        )
        (cursor_at s F 0 p (low vpn) level, refl, Stops-leaf level p (low vpn) e at.lt)
  walk-Stops (suc k) (suc fuel) level p vpn pos e enough at =
      rw
        (
          phys_to_virt-frame law h p at.lt,
          index_at-digit (suc k) level vpn pos e,
          load-ok law h p (digit (suc k) (low vpn)) at.lt (omega arith),
          le→leb (level + 1) 5 (omega arith),
        )
        (elim (Bool-cases ((F.entry p (digit (suc k) (low vpn)) % 2) == 1)) [
          | inl valid ↦
              let (c, run, stops) =
                walk-Stops k fuel (level + 1) (F.entry p (digit (suc k) (low vpn)) / 4096) vpn
                  (omega arith) (omega arith) (omega arith) (At-child tree at (ground arith)) in
              rw valid (c, run, Stops-below k p (low vpn) valid stops)
          | inr invalid ↦ rw invalid (
            cursor_at s F (suc k) p (low vpn) level,
            refl,
            Stops-inner k level p (low vpn) e at.lt invalid,
          )
        ])
