-- ===== src/PageTable/Tests.antt =====
-- The theorems at a concrete memory, and runs of the code.
use operating_systems_git.Prelude.{ℕ, ◌+◌, ◌*◌, ◌≤◌, ◌≡◌, refl, arith, Option, some}
use operating_systems_git.Run.{ok}
use operating_systems_git.PageTable.Os.{npages, Os, alloc_page_frame}
use operating_systems_git.PageTable.Table.{no_mapping, page_table_update, page_table_query}
use operating_systems_git.PageTable.Memory.{IsMmap}
use operating_systems_git.PageTable.Refine.{
  Represents, assign, Updated, query-Represents, update-Represents, alloc-Represents,
}
use operating_systems_git.PageTable.Main.{Available, main, main-passes}

-- An `mmap` that always succeeds.
abbrev growing : ℕ → Option ℕ
growing k = some ((k + 1) * 4096)

growing-IsMmap : IsMmap growing
growing-IsMmap = record { ne_null = λ k a e. ground arith; apart = λ i j a b e f ne. ground arith }

growing-Available : (n k : ℕ) → n + k ≤ npages → Available growing n k
growing-Available n k h = (h, λ j le lt. ((j + 1) * 4096, refl))

abbrev blank : Os
blank = record { nalloc = 0; pages = λ _. 0; words = λ _. 7 }

abbrev booted :
    (t : Os) × (alloc_page_frame growing blank ≡ ok 0 t)
    × (t.nalloc ≡ 1)
    × Represents growing t 0 (λ _. no_mapping)
booted = alloc-Represents 4096 (λ _. 0) (λ _. 7) growing-IsMmap refl

alloc-Represents_example :
    (t : Os) × (alloc_page_frame growing blank ≡ ok 0 t)
    × (t.nalloc ≡ 1)
    × Represents growing t 0 (λ _. no_mapping)
alloc-Represents_example = alloc-Represents 4096 (λ _. 0) (λ _. 7) growing-IsMmap refl

query-Represents_example : page_table_query 0 0xcafe booted.0 ≡ ok no_mapping booted.0
query-Represents_example = query-Represents growing-IsMmap booted.3 0xcafe

update-Represents_example :
    Updated growing booted.0.nalloc 0 0xf00d
      (assign (λ _. no_mapping) 0xcafe 0xf00d)
      (page_table_update growing 0 0xcafe 0xf00d booted.0)
update-Represents_example = update-Represents growing-IsMmap booted.3 0xcafe 0xf00d

main-passes_example : (t : Os) × (main growing blank ≡ ok 0 t)
main-passes_example =
    main-passes growing (λ _. 0) (λ _. 7) growing-IsMmap (growing-Available 0 5 (omega arith))
