-- ===== src/PageTable/Fill.antt =====
-- The writes of pt.c: the loop that adds tables, and the store of the last entry.
use operating_systems_git.Prelude.{
  ℕ, zero, suc, ◌+◌, ◌*◌, ◌^◌, ◌<◌, ◌≤◌, ◌≡◌, ◌⊎◌, ◌≢◌, refl, arith, Option, none, Option-cases,
  inl, inr, leb, le→leb, sym, ap, ◌∙◌, false, ne→==, ℕ_discrete,
}
use operating_systems_git.Run.{Run, ok, exited, and_then}
use operating_systems_git.PageTable.Os.{npages, Os, alloc_page_frame, store}
use operating_systems_git.PageTable.Table.{u64, fill}
use operating_systems_git.PageTable.Frames.{Frames, put, grow, extend, digit, add_levels}
use operating_systems_git.PageTable.Memory.{
  IsMmap, Holds, phys_to_virt-frame, store-Holds, alloc-Holds,
}
use operating_systems_git.PageTable.Walk.{low, index_at-digit}

-- One of the next `k` pages is not to be had: the table of pages is full, or `mmap` fails.
pub record Lacks (mmap : ℕ → Option ℕ) (n k : ℕ) : Type 0 where
  pub page : ℕ
  pub le : n ≤ page
  pub lt : page < n + k
  pub why : (page ≡ npages) ⊎ (mmap page ≡ none)

-- A run ends in a state that holds `G`, or the process exits for want of memory; it never faults.
pub data Outcome (mmap : ℕ → Option ℕ) (G : Frames) (n k : ℕ) : Run Os (Unit {0}) → Type 0 where
  done : {t : Os} → Holds mmap t G → Outcome mmap G n k (ok tt t)
  no_memory : Lacks mmap n k → Outcome mmap G n k (exited 1)

Lacks-suc : {mmap : ℕ → Option ℕ} {n k : ℕ} → Lacks mmap (n + 1) k → Lacks mmap n (suc k)
Lacks-suc l = record {
  page = l.page;
  le = omega (arith, l.le);
  lt = omega (arith, l.lt);
  why = l.why;
}

Outcome-suc :
    {mmap : ℕ → Option ℕ} {G : Frames} {n k : ℕ} {r : Run Os (Unit {0})}
    → Outcome mmap G (n + 1) k r
    → Outcome mmap G n (suc k) r
Outcome-suc (done h) = done h
Outcome-suc (no_memory l) = no_memory (Lacks-suc l)

-- The end of `create`: the loop, and the store behind it.
abbrev fill_store :
    (mmap : ℕ → Option ℕ) (fuel base index level vpn pte : ℕ) → Os → Run Os (Unit {0})
fill_store mmap fuel base index level vpn pte s =
    and_then (fill fuel base index level vpn mmap s) (λ (b, i). store b i pte)

alloc-full : (mmap : ℕ → Option ℕ) (s : Os) → s.nalloc ≡ npages → alloc_page_frame mmap s ≡ exited 1
unfolding alloc_page_frame
alloc-full mmap s e = rw e

alloc-fail :
    (mmap : ℕ → Option ℕ) (s : Os)
    → s.nalloc ≢ npages
    → mmap s.nalloc ≡ none
    → alloc_page_frame mmap s ≡ exited 1
unfolding alloc_page_frame
alloc-fail mmap s ne e = rw (ne→== s.nalloc npages ne, e)

module _ {mmap : ℕ → Option ℕ} (law : IsMmap mmap) where
  pub fill-Outcome :
      (k fuel level base p vpn pte : ℕ) (s : Os) (F : Frames)
      → Holds mmap s F
      → p < F.size
      → base ≡ s.pages p
      → 1 < level
      → level + k ≡ 6
      → k < fuel
      → Outcome mmap
          (add_levels F k p (low vpn) pte)
          F.size
          k
          (fill_store mmap fuel base (digit k (low vpn)) level vpn pte s)
  unfolding fill add_levels extend grow put
  fill-Outcome k zero level base p vpn pte s F h lt eb pos e enough = absurd (omega arith)
  fill-Outcome zero (suc fuel) level base p vpn pte s F h lt eb pos e enough =
      let over : leb level 5 ≡ false = ground arith in
      let (t, run, held, _) = store-Holds law h p (digit 0 (low vpn)) pte lt (omega arith) in
      rw (over, eb, run) (done held)
  fill-Outcome (suc k) (suc fuel) level base p vpn pte s F h lt eb pos e enough =
      rw (le→leb level 5 (omega arith)) (elim (ℕ_discrete F.size npages) [
        | yes full ↦ rw (alloc-full mmap s (h.count ∙ full)) (
            no_memory
              (record { page = F.size; le = omega arith; lt = omega arith; why = inl full }))
        | no room ↦ elim (Option-cases (mmap F.size)) [
          | inl failed ↦
              rw (alloc-fail mmap s (λ f. room (sym h.count ∙ f)) (ap mmap h.count ∙ failed)) (
                no_memory
                  (record { page = F.size; le = omega arith; lt = omega arith; why = inr failed }))
          | inr (va, got) ↦
              let small : F.size < npages = omega (arith, h.bound) in
              let (t, ran, held, kept) = alloc-Holds law h va small got in
              let addr : u64 (F.size * 2 ^ 12) ≡ F.size * 2 ^ 12 = omega arith in
              let entry : u64 (F.size * 2 ^ 12 + 1) ≡ F.size * 4096 + 1 = omega arith in
              let (u, wrote, held', same) =
                store-Holds law held p (digit (suc k) (low vpn)) (F.size * 4096 + 1) (omega arith)
                  (omega arith) in
              rw
                (
                  ran,
                  addr,
                  entry,
                  eb ∙ sym (kept p lt),
                  wrote,
                  phys_to_virt-frame law held' F.size (omega arith),
                  index_at-digit k level vpn (omega arith) (omega arith),
                )
                (Outcome-suc (
                  fill-Outcome k fuel (level + 1) (u.pages F.size) F.size vpn pte u
                    (extend F p (digit (suc k) (low vpn))) held' (omega arith) refl (omega arith)
                    (omega arith) (omega arith)))
        ]
      ])

  Lacks-mono : {n j k : ℕ} → j ≤ k → Lacks mmap n j → Lacks mmap n k
  Lacks-mono le l = record { page = l.page; le = l.le; lt = omega (arith, l.lt); why = l.why }

  pub Outcome-mono :
      {G : Frames} {n j k : ℕ} {r : Run Os (Unit {0})}
      → j ≤ k
      → Outcome mmap G n j r
      → Outcome mmap G n k r
  Outcome-mono le (done h) = done h
  Outcome-mono le (no_memory l) = no_memory (Lacks-mono le l)
