-- ===== src/PageTable/Frames.antt =====
-- Physical memory seen from the page table: frames of 512 entries, numbered from 0, and what pt.c
-- does to them, as functions on the levels left below a table.
pub mod Tree
pub mod Change
pub mod Extend
pub mod Update
use operating_systems_git.Prelude.{
  ℕ, zero, suc, ◌+◌, ◌-◌, ◌*◌, ◌/◌, ◌%◌, ◌^◌, ◌&&◌, ◌==◌, if◌then◌else◌,
}
use operating_systems_git.PageTable.Table.{no_mapping}

pub record Frames : Type 0 where
  pub size : ℕ
  pub entry : ℕ → ℕ → ℕ

unfoldable pub put : Frames → ℕ → ℕ → ℕ → Frames
put F p i v = record F { entry = λ q j. if (q == p) && (j == i) then v else F.entry q j }

-- One more frame, all zero.
unfoldable pub grow : Frames → Frames
grow F = record { size = F.size + 1; entry = λ q j. if q == F.size then 0 else F.entry q j }

-- A page number without its last `k` digits in base 512.
abbrev pub digits_above : ℕ → ℕ → ℕ
digits_above zero v = v
digits_above (suc k) v = digits_above k v / 512

abbrev pub digit : ℕ → ℕ → ℕ
digit k v = digits_above k v % 512

-- What an entry of the last level maps to.
abbrev pub target : ℕ → ℕ
target pte = if (pte % 2) == 1 then pte / 4096 else no_mapping

-- What the table at frame `p`, with `k` levels below it, maps `v` to.
unfoldable pub look : Frames → ℕ → ℕ → ℕ → ℕ
look F zero p v = target (F.entry p (digit 0 v))
look F (suc k) p v =
    let next = look F k (F.entry p (digit (suc k) v) / 4096) v in
    if (F.entry p (digit (suc k) v) % 2) == 1 then next else no_mapping

-- A new table below frame `p`.
unfoldable pub extend : Frames → ℕ → ℕ → Frames
unfolding put grow
extend F p i = put (grow F) p i (F.size * 4096 + 1)

unfoldable pub add_levels : Frames → ℕ → ℕ → ℕ → ℕ → Frames
add_levels F zero p v pte = put F p (digit 0 v) pte
add_levels F (suc k) p v pte = add_levels (extend F p (digit (suc k) v)) k F.size v pte

unfoldable pub insert : Frames → ℕ → ℕ → ℕ → ℕ → Frames
unfolding add_levels
insert F zero p v pte = put F p (digit 0 v) pte
insert F (suc k) p v pte =
    let below = insert F k (F.entry p (digit (suc k) v) / 4096) v pte in
    if (F.entry p (digit (suc k) v) % 2) == 1 then below else add_levels F (suc k) p v pte

unfoldable pub remove : Frames → ℕ → ℕ → ℕ → Frames
remove F zero p v = if (F.entry p (digit 0 v) % 2) == 1 then put F p (digit 0 v) 0 else F
remove F (suc k) p v =
    let below = remove F k (F.entry p (digit (suc k) v) / 4096) v in
    if (F.entry p (digit (suc k) v) % 2) == 1 then below else F
