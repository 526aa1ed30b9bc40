-- ===== src/PageTable/Main.antt =====
-- `main` of hw01/os.c, and updates with enough memory.
use operating_systems_git.Prelude.{
  ℕ, ◌+◌, ◌<◌, ◌≤◌, ◌≡◌, refl, arith, Option, some, ◌==◌, if◌then◌else◌, inl, inr, ◌⊎◌,
}
use operating_systems_git.Run.{Run, ok, Cmd, pure, exit, ◌>>=◌, ◌>>◌}
use operating_systems_git.PageTable.Os.{npages, Os, alloc_page_frame}
use operating_systems_git.PageTable.Table.{no_mapping, page_table_update, page_table_query}
use operating_systems_git.PageTable.Memory.{IsMmap}
use operating_systems_git.PageTable.Fill.{Lacks}
use operating_systems_git.PageTable.Refine.{
  Mapping, assign, Represents, Updated, updated, out_of_memory, query-Represents, update-Represents,
  alloc-Represents,
}

-- `assert(a == b)`; a failed assertion aborts (code 134).
abbrev pub assert_eq : ℕ → ℕ → Cmd Os (Unit {0})
assert_eq a b = if a == b then pure tt else exit 134

-- Its prints are left out.
pub main : (mmap : ℕ → Option ℕ) → Cmd Os ℕ
main mmap = do
  pt ← alloc_page_frame mmap
  a ← page_table_query pt 0xcafe
  assert_eq a no_mapping
  page_table_update mmap pt 0xcafe 0xf00d
  b ← page_table_query pt 0xcafe
  assert_eq b 0xf00d
  page_table_update mmap pt 0xcafe no_mapping
  c ← page_table_query pt 0xcafe
  assert_eq c no_mapping
  pure 0

-- `mmap` succeeds for the pages from `n` to `n + k - 1`, and the table of pages has room for them.
abbrev pub Available : (mmap : ℕ → Option ℕ) → ℕ → ℕ → Type 0
Available mmap n k =
    (n + k ≤ npages) × ((j : ℕ) → n ≤ j → j < n + k → (va : ℕ) × (mmap j ≡ some va))

not-Lacks : {mmap : ℕ → Option ℕ} {n k : ℕ} → Available mmap n k → Lacks mmap n k → ⊥
not-Lacks a l =
    let (va, got) = a.1 l.page l.le l.lt in
    elim l.why [ inl full ↦ omega (arith, a.0, l.lt) | inr failed ↦ ground arith ]

Updated-returns :
    {mmap : ℕ → Option ℕ} {n pt ppn : ℕ} {m : Mapping} {e : Run Os (Unit {0})}
    → (ppn ≡ no_mapping) ⊎ Available mmap n 4
    → Updated mmap n pt ppn m e
    → (t : Os) × (e ≡ ok tt t) × Represents mmap t pt m
Updated-returns a (updated {t} r) = (t, refl, r)
Updated-returns (inl unmap) (out_of_memory ne l) = absurd (ne unmap)
Updated-returns (inr a) (out_of_memory ne l) = absurd (not-Lacks a l)

-- Where `mmap` behaves as IsMmap says and the table at `pt` represents a map, an update returns,
-- with the map changed at its page number, if it unmaps or if four more pages are to be had.
pub update-returns :
    {mmap : ℕ → Option ℕ} {s : Os} {pt : ℕ} {m : Mapping} (vpn ppn : ℕ)
    → IsMmap mmap
    → Represents mmap s pt m
    → (ppn ≡ no_mapping) ⊎ Available mmap s.nalloc 4
    → (t : Os) × (page_table_update mmap pt vpn ppn s ≡ ok tt t)
      × Represents mmap t pt (assign m vpn ppn)
update-returns vpn ppn law r a = Updated-returns a (update-Represents law r vpn ppn)

-- Where `mmap` behaves as IsMmap says and five pages are to be had, every assertion of `main`
-- holds and it returns 0.
pub main-passes :
    (mmap : ℕ → Option ℕ) (pages words : ℕ → ℕ)
    → IsMmap mmap
    → Available mmap 0 5
    → (t : Os) × (main mmap (record { nalloc = 0; pages = pages; words = words }) ≡ ok 0 t)
unfolding main
main-passes mmap pages words law a =
    let (va, got) = a.1 0 (omega arith) (omega arith) in
    let (s, allocated, one, r) = alloc-Represents va pages words law got in
    let more : Available mmap s.nalloc 4 =
      rw one (omega (arith, a.0), λ j le lt. a.1 j (omega arith) (omega arith)) in
    let (t, mapped, r') = update-returns 0xcafe 0xf00d law r (inr more) in
    let (u, unmapped, r'') = update-returns 0xcafe no_mapping law r' (inl refl) in
    (
      u,
      rw
          (
            allocated,
            query-Represents law r 0xcafe,
            mapped,
            query-Represents law r' 0xcafe,
            unmapped,
            query-Represents law r'' 0xcafe,
          )
          refl,
    )
