-- ===== src/PageTable/Memory.antt =====
-- The memory of os.c as frames of 512 entries: what each access does to them.
use operating_systems_git.Prelude.{
  ℕ, ◌+◌, ◌*◌, ◌^◌, ◌≤◌, ◌<◌, ◌≡◌, refl, ◌≢◌, ◌⊎◌, Option, some, ◌&&◌, ◌==◌, ne→==, ==_refl,
  if◌then◌else◌, update, arith, ℕ_discrete,
}
use operating_systems_git.Run.{ok}
use operating_systems_git.PageTable.Os.{
  npages, Os, zero_page, alloc_page_frame, phys_to_virt, load, store,
}
use operating_systems_git.PageTable.Frames.{Frames, put, grow}

-- What is relied on of `mmap`: pages lie apart and none is at NULL.
pub record IsMmap (mmap : ℕ → Option ℕ) : Type 0 where
  pub ne_null : (k a : ℕ) → mmap k ≡ some a → a ≢ 0
  pub apart :
      (i j a b : ℕ) → mmap i ≡ some a → mmap j ≡ some b → i ≢ j → (a + 4096 ≤ b) ⊎ (b + 4096 ≤ a)

-- Entry `i` of frame `p`.
abbrev pub entry_of : Os → ℕ → ℕ → ℕ
entry_of s p i = s.words (s.pages p + 8 * i)

-- The state of os.c holds these frames.
pub record Holds (mmap : ℕ → Option ℕ) (s : Os) (F : Frames) : Type 0 where
  pub count : s.nalloc ≡ F.size
  pub bound : F.size ≤ npages
  pub mapped : (p : ℕ) → p < F.size → mmap p ≡ some (s.pages p)
  pub entries : (p i : ℕ) → p < F.size → i < 512 → entry_of s p i ≡ F.entry p i

module _ {mmap : ℕ → Option ℕ} (law : IsMmap mmap) {s : Os} {F : Frames} (h : Holds mmap s F) where
  pub page_ne_null : (p : ℕ) → p < F.size → s.pages p ≢ 0
  page_ne_null p lt = law.ne_null p (s.pages p) (h.mapped p lt)

  pub phys_to_virt-frame : (p : ℕ) → p < F.size → phys_to_virt s (p * 2 ^ 12) ≡ s.pages p
  unfolding phys_to_virt
  phys_to_virt-frame p lt = ground (arith, h.bound)

  pub load-ok : (p i : ℕ) → p < F.size → i < 512 → load (s.pages p) i s ≡ ok (F.entry p i) s
  unfolding load
  load-ok p i lt small = rw (ne→== _ _ (page_ne_null p lt), h.entries p i lt small)

  entry-update :
      (p i q j v : ℕ)
      → p < F.size
      → q < F.size
      → i < 512
      → j < 512
      → update s.words (s.pages p + 8 * i) v (s.pages q + 8 * j)
        ≡ (if (q == p) && (j == i) then v else F.entry q j)
  entry-update p i q j v hp hq hi hj = elim (ℕ_discrete q p) [
    | yes same ↦ rw (same, ==_refl) (ground (arith, h.entries p j hp hj))
    | no other ↦
        let far = law.apart q p _ _ (h.mapped q hq) (h.mapped p hp) other in
        rw (ne→== _ _ other) (ground (arith, far, h.entries q j hq hj))
  ]

  pub store-Holds :
      (p i v : ℕ)
      → p < F.size
      → i < 512
      → (t : Os) × (store (s.pages p) i v s ≡ ok tt t)
        × Holds mmap t (put F p i v)
        × (t.pages ≡ s.pages)
  unfolding store put
  store-Holds p i v lt small = (
    record s { words = update s.words (s.pages p + 8 * i) v },
    rw (ne→== _ _ (page_ne_null p lt)),
    record {
      count = h.count;
      bound = h.bound;
      mapped = h.mapped;
      entries = λ q j hq hj. entry-update p i q j v lt hq small hj;
    },
    refl,
  )

  grown-mapped :
      (va : ℕ)
      → mmap F.size ≡ some va
      → (p : ℕ) → p < F.size + 1
      → mmap p ≡ some (update s.pages s.nalloc va p)
  grown-mapped va e p lt = elim (ℕ_discrete p F.size) [
    | yes new ↦ rw (h.count, new, ==_refl) e
    | no old ↦ rw (h.count, ne→== _ _ old) (h.mapped p (omega arith))
  ]

  grown-entry :
      (va : ℕ)
      → mmap F.size ≡ some va
      → (p i : ℕ) → p < F.size + 1
      → i < 512
      → zero_page s.words va (update s.pages s.nalloc va p + 8 * i)
        ≡ (if p == F.size then 0 else F.entry p i)
  unfolding zero_page
  grown-entry va e p i lt small = elim (ℕ_discrete p F.size) [
    | yes new ↦ rw (h.count, new, ==_refl) (ground arith)
    | no old ↦
        let held : p < F.size = omega arith in
        let far = law.apart p F.size _ _ (h.mapped p held) e old in
        rw (h.count, ne→== _ _ old) (ground (arith, far, h.entries p i held small))
  ]

  pub alloc-Holds :
      (va : ℕ)
      → F.size < npages
      → mmap F.size ≡ some va
      → (t : Os) × (alloc_page_frame mmap s ≡ ok F.size t)
        × Holds mmap t (grow F)
        × ((p : ℕ) → p < F.size → t.pages p ≡ s.pages p)
  unfolding alloc_page_frame zero_page grow
  alloc-Holds va room e = (
    record s {
      nalloc = s.nalloc + 1;
      pages = update s.pages s.nalloc va;
      words = zero_page s.words va;
    },
    rw (h.count, ne→== F.size npages (omega arith), e, h.count),
    record {
      count = omega (arith, h.count);
      bound = omega arith;
      mapped = λ p lt. grown-mapped va e p lt;
      entries = λ p i lt small. grown-entry va e p i lt small;
    },
    λ p lt. rw (h.count, ne→== p F.size (omega arith)),
  )
