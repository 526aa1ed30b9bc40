-- ===== src/PageTable/Os.antt =====
-- hw01/os.c: physical pages handed out one after the other, and the simulated physical memory.
use operating_systems_git.Prelude.{
  ℕ, ◌+◌, ◌*◌, ◌/◌, ◌%◌, ◌^◌, Option, none, some, ◌&&◌, ltb, leb, ◌==◌, if◌then◌else◌, update,
}
use operating_systems_git.Run.{Cmd, ok, exited, fault}

-- `NPAGES`
abbrev pub npages : ℕ
npages = 1024 * 1024

-- `nalloc`, `pages` (0 is NULL) and the 64-bit words of memory, each at the address of its first
-- byte.
pub record Os : Type 0 where
  pub nalloc : ℕ
  pub pages : ℕ → ℕ
  pub words : ℕ → ℕ

-- A fresh anonymous page reads as zero.
unfoldable pub zero_page : (ℕ → ℕ) → ℕ → ℕ → ℕ
zero_page words va a = if leb va a && ltb a (va + 4096) then 0 else words a

-- What `alloc_page_frame` returns or ends with. `mmap k` is the address that call number `k` of
-- `mmap` returns, `none` being MAP_FAILED; each call of `mmap` has its own `nalloc`.
unfoldable pub alloc_page_frame : (mmap : ℕ → Option ℕ) → Cmd Os ℕ
unfolding zero_page
alloc_page_frame mmap s = if s.nalloc == npages then exited 1 else elim (mmap s.nalloc) [
  | none ↦ exited 1
  | some va ↦ ok s.nalloc (record s {
    nalloc = s.nalloc + 1;
    pages = update s.pages s.nalloc va;
    words = zero_page s.words va;
  })
]

unfoldable pub phys_to_virt : Os → ℕ → ℕ
phys_to_virt s phys_addr =
    let ppn = phys_addr / 2 ^ 12 in
    let off = phys_addr % 2 ^ 12 in if ltb ppn npages then s.pages ppn + off else 0

-- `base[index]` for a `uint64_t *base`, read and written; through NULL it is a fault.
unfoldable pub load : ℕ → ℕ → Cmd Os ℕ
load base index s = if base == 0 then fault else ok (s.words (base + 8 * index)) s

unfoldable pub store : ℕ → ℕ → ℕ → Cmd Os (Unit {0})
store base index v s =
    if base == 0 then fault else ok tt (record s { words = update s.words (base + 8 * index) v })
