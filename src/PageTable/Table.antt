-- ===== src/PageTable/Table.antt =====
-- hw01/pt.c: the walk through the five levels, update and query.
use operating_systems_git.Prelude.{
  ℕ, zero, suc, ◌+◌, ◌-◌, ◌*◌, ◌/◌, ◌%◌, ◌^◌, Option, ◌&&◌, leb, ◌==◌, if◌then◌else◌,
}
use operating_systems_git.Run.{Cmd, out_of_fuel, pure, gets, ◌>>=◌, ◌>>◌}
use operating_systems_git.PageTable.Os.{Os, alloc_page_frame, phys_to_virt, load, store}

-- `NO_MAPPING`, ~0ULL
abbrev pub no_mapping : ℕ
no_mapping = 2 ^ 64 - 1

abbrev pub u64 : ℕ → ℕ
u64 n = n % 2 ^ 64

-- The entry of a page number in a table of this level, 1 being the root; `& 0x1ff` is `% 512`.
abbrev pub index_at : ℕ → ℕ → ℕ
index_at level vpn = vpn / 2 ^ ((5 - level) * 9) % 512

-- The local variables at the end of the `do` loop.
pub record Cursor : Type 0 where
  pub virt_level_base : ℕ
  pub phys_level_base : ℕ
  pub index : ℕ
  pub level : ℕ
  pub valid : ℕ

-- The `do … while` loop of both functions, on fuel; `level` grows to 6 at most.
unfoldable pub walk : ℕ → (phys_level_base level vpn : ℕ) → Cmd Os Cursor
walk zero phys_level_base level vpn = λ _. out_of_fuel
walk (suc fuel) phys_level_base level vpn = do
  base ← gets (λ s. phys_to_virt s phys_level_base)
  let index = index_at level vpn
  pte ← load base index
  let phys = pte / 2 ^ 12 * 2 ^ 12
  let valid = pte % 2
  if leb (level + 1) 5 && (valid == 1)
      then walk fuel phys (level + 1) vpn
      else pure (record {
        virt_level_base = base;
        phys_level_base = phys;
        index = index;
        level = level + 1;
        valid = valid;
      })

-- The `while` loop that adds the missing levels: the base and the index of the last one.
unfoldable pub fill : ℕ → (base index level vpn : ℕ) → (mmap : ℕ → Option ℕ) → Cmd Os (ℕ × ℕ)
fill zero base index level vpn mmap = λ _. out_of_fuel
fill (suc fuel) base index level vpn mmap =
    if leb level 5
    then (do
      frame ← alloc_page_frame mmap
      let phys = u64 (frame * 2 ^ 12)
      store base index (u64 (phys + 1))
      next ← gets (λ s. phys_to_virt s phys)
      fill fuel next (index_at level vpn) (level + 1) vpn mmap)
    else pure (base, index)

-- The branch `ppn == NO_MAPPING` of the update.
unfoldable pub destroy : Cursor → Cmd Os (Unit {0})
destroy c = if c.valid == 1 then store c.virt_level_base c.index 0 else pure tt

-- Its other branch.
unfoldable pub create : (vpn ppn : ℕ) → (mmap : ℕ → Option ℕ) → Cursor → Cmd Os (Unit {0})
unfolding fill
create vpn ppn mmap c = do
  (base, index) ← fill 6 c.virt_level_base c.index c.level vpn mmap
  store base index (u64 (u64 (ppn * 2 ^ 12) + 1))

unfoldable pub page_table_update : (mmap : ℕ → Option ℕ) → (pt vpn ppn : ℕ) → Cmd Os (Unit {0})
unfolding walk destroy create
page_table_update mmap pt vpn ppn = do
  c ← walk 5 (u64 (pt * 2 ^ 12)) 1 vpn
  if ppn == no_mapping then destroy c else create vpn ppn mmap c

-- The end of the query, after its loop.
unfoldable pub mapped_page : Cursor → Cmd Os ℕ
mapped_page c =
    if (c.level == 6) && (c.valid == 1)
    then (do pte ← load c.virt_level_base c.index; pure (pte / 2 ^ 12))
    else pure no_mapping

unfoldable pub page_table_query : (pt vpn : ℕ) → Cmd Os ℕ
unfolding walk mapped_page
page_table_query pt vpn = do c ← walk 5 (u64 (pt * 2 ^ 12)) 1 vpn; mapped_page c
