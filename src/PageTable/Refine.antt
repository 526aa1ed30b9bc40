-- ===== src/PageTable/Refine.antt =====
-- The page table is a map from page numbers to physical pages: what a client may rely on.
use operating_systems_git.Prelude.{
  ℕ, ◌+◌, ◌*◌, ◌%◌, ◌^◌, ◌<◌, ◌≡◌, ◌≢◌, refl, arith, Option, some, ◌==◌, if◌then◌else◌, ap, ◌∙◌,
  ==_refl, ne→==, ℕ_discrete,
}
use operating_systems_git.Run.{Run, ok, exited, and_then_ok}
use operating_systems_git.PageTable.Os.{Os, alloc_page_frame}
use operating_systems_git.PageTable.Table.{
  no_mapping, u64, Cursor, walk, mapped_page, page_table_update, page_table_query,
}
use operating_systems_git.PageTable.Frames.{Frames, grow, target, look}
use operating_systems_git.PageTable.Frames.Tree.{Labels, IsTree, At, look-zero}
use operating_systems_git.PageTable.Frames.Change.{Changes}
use operating_systems_git.PageTable.Frames.Update.{insert-Changes, remove-Changes}
use operating_systems_git.PageTable.Memory.{IsMmap, Holds, alloc-Holds}
use operating_systems_git.PageTable.Walk.{low, Stops, walk-Stops}
use operating_systems_git.PageTable.Fill.{Lacks, Outcome, done, no_memory}
use operating_systems_git.PageTable.Finish.{mapped_page-look, destroy-remove, create-insert}

-- A map from page numbers below 2 ^ 45 to physical pages, `no_mapping` where there is none.
abbrev pub Mapping : Type 0
Mapping = ℕ → ℕ

-- The effect of an update: a physical page has 52 bits.
abbrev pub assign : Mapping → (vpn ppn : ℕ) → Mapping
assign m vpn ppn w =
    if w == low vpn then (if ppn == no_mapping then no_mapping else ppn % 2 ^ 52) else m w

-- The table with root `pt` in this state stands for the map.
pub record Represents (mmap : ℕ → Option ℕ) (s : Os) (pt : ℕ) (m : Mapping) : Type 0 where
  pub frames : Frames
  pub labels : Labels
  pub holds : Holds mmap s frames
  pub tree : IsTree frames labels
  pub root_lt : pt < frames.size
  pub root_depth : labels.depth pt ≡ 5
  pub root_tag : labels.tag pt ≡ 0
  pub maps : (vpn : ℕ) → look frames 4 pt (low vpn) ≡ m (low vpn)

module _ {mmap : ℕ → Option ℕ} {s : Os} {pt : ℕ} {m : Mapping} (r : Represents mmap s pt m) where
  root_At : (vpn : ℕ) → At r.frames r.labels 4 pt (low vpn)
  root_At vpn = record { lt = r.root_lt; depth = r.root_depth; tag = omega (arith, r.root_tag) }

  root_address : u64 (pt * 2 ^ 12) ≡ pt * 2 ^ 12
  root_address = omega (arith, r.root_lt, r.holds.bound)

  -- A change of one page number, seen on the map.
  Changes-Represents :
      {t : Os} {G : Frames} {M : Labels} (vpn ppn x : ℕ)
      → Changes r.frames G r.labels M 4 pt (low vpn) x
      → Holds mmap t G
      → x ≡ (if ppn == no_mapping then no_mapping else ppn % 2 ^ 52)
      → Represents mmap t pt (assign m vpn ppn)
  Changes-Represents {G} {M} vpn ppn x c held e = record {
    frames = G;
    labels = M;
    holds = held;
    tree = c.tree;
    root_lt = omega (arith, c.grown, r.root_lt);
    root_depth = c.depths pt r.root_lt ∙ r.root_depth;
    root_tag = c.tags pt r.root_lt ∙ r.root_tag;
    maps = λ w. elim (ℕ_discrete (low w) (low vpn)) [
      | yes same ↦ rw (same, ==_refl (low vpn)) (c.found ∙ e)
      | no other ↦
          rw (ne→== (low w) (low vpn) other) (c.others (low w) (omega arith) other ∙ r.maps w)
    ];
  }

-- How an update may end: with the new map, or by `exit(1)` where one of the four pages that it may
-- need is not to be had.
pub data Updated (mmap : ℕ → Option ℕ) (n pt ppn : ℕ) (m : Mapping)
    : Run Os (Unit {0}) → Type 0 where
  updated : {t : Os} → Represents mmap t pt m → Updated mmap n pt ppn m (ok tt t)
  out_of_memory : ppn ≢ no_mapping → Lacks mmap n 4 → Updated mmap n pt ppn m (exited 1)

target_page : (ppn : ℕ) → target (u64 (u64 (ppn * 2 ^ 12) + 1)) ≡ ppn % 2 ^ 52
target_page ppn =
    let valid : u64 (u64 (ppn * 2 ^ 12) + 1) % 2 ≡ 1 = omega arith in rw valid (omega arith)

module _ {mmap : ℕ → Option ℕ} (law : IsMmap mmap) {s : Os} {pt : ℕ} {m : Mapping}
    (r : Represents mmap s pt m) where
  root_walk :
      (vpn : ℕ)
      → (c : Cursor) × (walk 5 (u64 (pt * 2 ^ 12)) 1 vpn s ≡ ok c s)
        × Stops s r.frames 4 pt (low vpn) c
  root_walk vpn = rw (root_address r) (
      walk-Stops law r.holds r.tree 4 5 1 pt vpn (omega arith) (omega arith) (omega arith)
        (root_At r vpn))

  -- Where `mmap` behaves as IsMmap says and the table at `pt` represents a map, a query returns
  -- what the map says of the low 45 bits of the page number, and changes nothing.
  pub query-Represents : (vpn : ℕ) → page_table_query pt vpn s ≡ ok (m (low vpn)) s
  unfolding page_table_query
  query-Represents vpn =
      let (c, run, stops) = root_walk vpn in
      and_then_ok mapped_page run
      ∙ mapped_page-look law r.holds stops
      ∙ ap (λ x. ok x s) (r.maps vpn)

  Outcome-Updated :
      {G : Frames} {M : Labels} {x : ℕ} {e : Run Os (Unit {0})} (vpn ppn : ℕ)
      → Changes r.frames G r.labels M 4 pt (low vpn) x
      → x ≡ (if ppn == no_mapping then no_mapping else ppn % 2 ^ 52)
      → Outcome mmap G r.frames.size 4 e
      → ppn ≢ no_mapping
      → Updated mmap s.nalloc pt ppn (assign m vpn ppn) e
  Outcome-Updated vpn ppn c e (done held) wanted = updated (Changes-Represents r vpn ppn _ c held e)
  Outcome-Updated vpn ppn c e (no_memory l) wanted = out_of_memory wanted (rw r.holds.count l)

  -- Where `mmap` behaves as IsMmap says and the table at `pt` represents a map, an update changes
  -- the map at its page number and nowhere else, or exits for want of memory, which an unmapping
  -- never does; it never faults.
  pub update-Represents :
      (vpn ppn : ℕ)
      → Updated mmap s.nalloc pt ppn (assign m vpn ppn) (page_table_update mmap pt vpn ppn s)
  unfolding page_table_update
  update-Represents vpn ppn =
      let (c, run, stops) = root_walk vpn in
      rw run (elim (ℕ_discrete ppn no_mapping) [
        | yes unmap ↦
            let (t, ran, held) = destroy-remove law r.holds stops in
            let (M, change) = remove-Changes 4 r.tree (root_At r vpn) in
            rw (unmap, ran)
              (updated (Changes-Represents r vpn no_mapping no_mapping change held refl))
        | no wanted ↦
            let (M, change) =
              insert-Changes 4 (u64 (u64 (ppn * 2 ^ 12) + 1)) r.tree (root_At r vpn) in
            rw (ne→== ppn no_mapping wanted) (
              Outcome-Updated vpn ppn change (rw (ne→== ppn no_mapping wanted) (target_page ppn))
                (create-insert law r.holds vpn stops (omega arith) ppn) wanted)
      ])

-- Where `mmap` behaves as IsMmap says and its first call succeeds, the first page of a fresh
-- process is number 0 and an empty table.
pub alloc-Represents :
    {mmap : ℕ → Option ℕ} (va : ℕ) (pages words : ℕ → ℕ)
    → IsMmap mmap
    → mmap 0 ≡ some va
    → (t : Os) × (alloc_page_frame mmap (record { nalloc = 0; pages = pages; words = words })
        ≡ ok 0 t)
      × (t.nalloc ≡ 1)
      × Represents mmap t 0 (λ _. no_mapping)
unfolding grow
alloc-Represents va pages words law e =
    let empty : Frames = record { size = 0; entry = λ _ _. 0 } in
    let (t, ran, held, _) =
      alloc-Holds law {F = empty}
        (record {
          count = refl;
          bound = omega arith;
          mapped = λ p lt. absurd (omega arith);
          entries = λ p i lt small. absurd (omega arith);
        })
        va (omega arith) e in
    (
      t,
      ran,
      held.count,
      record {
        frames = grow empty;
        labels = record { depth = λ _. 5; tag = λ _. 0 };
        holds = held;
        tree = record { child = λ p i k lt small d valid. absurd (ground arith) };
        root_lt = omega arith;
        root_depth = refl;
        root_tag = refl;
        maps = λ vpn. look-zero (grow empty) 4 0 (low vpn) (λ i. refl);
      },
    )
