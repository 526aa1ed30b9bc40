-- ===== src/PageTable/Frames/Change.antt =====
-- One update on the frames: what it changes in the tree below a table.
use operating_systems_git.Prelude.{
  ℕ, zero, suc, ◌+◌, ◌*◌, ◌/◌, ◌%◌, ◌<◌, ◌≤◌, ◌≡◌, ◌≢◌, ◌⊎◌, inl, inr, refl, arith, ◌==◌, true,
  ℕ_discrete, ◌∙◌, sym, ap, subst, ==_refl, ne→==,
}
use operating_systems_git.PageTable.Table.{no_mapping}
use operating_systems_git.PageTable.Frames.{Frames, put, digits_above, digit, target, look}
use operating_systems_git.PageTable.Frames.Tree.{Labels, IsTree, At, Same, off_path}

-- From `F` to `G`, with the table `p` serving `v`: `v` now maps to `x`, all else below `p` as before.
pub record Changes (F G : Frames) (L M : Labels) (k p v x : ℕ) : Type 0 where
  pub grown : F.size ≤ G.size
  pub tree : IsTree G M
  pub depths : (q : ℕ) → q < F.size → M.depth q ≡ L.depth q
  pub tags : (q : ℕ) → q < F.size → M.tag q ≡ L.tag q
  pub same : Same F G L k v
  pub found : look G k p v ≡ x
  pub others :
      (w : ℕ)
      → digits_above (suc k) w ≡ digits_above (suc k) v
      → w ≢ v
      → look G k p w ≡ look F k p w

depth_ne : (L : Labels) {p k : ℕ} → L.depth p ≡ 1 → L.depth p ≡ suc (suc k) → ⊥
depth_ne L d e = omega arith

at_index :
    (k t i v : ℕ)
    → t ≡ digits_above (suc k) v
    → (k < k) ⊎ (t * 512 + i ≢ digits_above k v)
    → i ≢ digit k v
at_index k t i v e (inl h) f = omega arith
at_index k t i v e (inr h) f = h (omega arith)

-- An entry that `Same` speaks of is not the one of `v` in the table that serves it.
pub not_digit :
    (L : Labels) (k p v q i j : ℕ)
    → L.depth p ≡ suc k
    → L.tag p ≡ digits_above (suc k) v
    → q ≡ p
    → L.depth q ≡ suc j
    → (k < j) ⊎ (L.tag q * 512 + i ≢ digits_above j v)
    → i ≢ digit k v
not_digit L k p v q i j dp tp e dq off =
    let level : j ≡ k = omega (arith, dp, dq, ap L.depth e) in
    at_index k (L.tag q) i v (ap L.tag e ∙ tp)
      (subst (λ m. (k < m) ⊎ (L.tag q * 512 + i ≢ digits_above m v)) level off)

pub ==_of_eq : {a b : ℕ} → a ≡ b → (a == b) ≡ true
==_of_eq e = ground arith

module _ {F : Frames} {L : Labels} (tree : IsTree F L) where
  -- A write of an entry of the last level.
  pub put-Changes :
      {p v : ℕ} (pte : ℕ)
      → At F L zero p v
      → Changes F (put F p (digit 0 v) pte) L L zero p v (target pte)
  unfolding put look
  put-Changes {p} {v} pte at = record {
    grown = omega arith;
    tree = record {
      child = λ q i k lt small d valid.
          let ne : q ≢ p = λ e. depth_ne L at.depth (subst (λ r. L.depth r ≡ suc (suc k)) e d) in
          let valid' : F.entry q i % 2 ≡ 1 = rw (ne→== q p ne) at valid in
          let c = tree.child q i k lt small d valid' in
          rw (ne→== q p ne) (record { lt = c.lt; depth = c.depth; tag = c.tag });
    };
    depths = λ q lt. refl;
    tags = λ q lt. refl;
    same = λ q i j lt small d off. elim (ℕ_discrete q p) [
      | yes e ↦
          rw (ne→== i (digit 0 v) (not_digit L 0 p v q i j at.depth at.tag e d off)) (ground arith)
      | no ne ↦ rw (ne→== q p ne)
    ];
    found = rw (==_refl p, ==_refl (digit 0 v));
    others = λ w above ne. rw (ne→== (digit 0 w) (digit 0 v) (λ e. ne (omega arith)), ==_refl p);
  }

  -- No change, where `v` is mapped to nothing on the way.
  pub stay-Changes : {k p v : ℕ} → look F k p v ≡ no_mapping → Changes F F L L k p v no_mapping
  stay-Changes e = record {
    grown = omega arith;
    tree = tree;
    depths = λ q lt. refl;
    tags = λ q lt. refl;
    same = λ q i j lt small d off. refl;
    found = e;
    others = λ w above ne. refl;
  }

  -- A change below the child of `p` is a change below `p`.
  pub descend-Changes :
      {k p v x : ℕ} {G : Frames} {M : Labels}
      → At F L (suc k) p v
      → F.entry p (digit (suc k) v) % 2 ≡ 1
      → Changes F G L M k (F.entry p (digit (suc k) v) / 4096) v x
      → Changes F G L M (suc k) p v x
  unfolding look
  descend-Changes {k} {p} {v} {G} at valid c = record {
    grown = c.grown;
    tree = c.tree;
    depths = c.depths;
    tags = c.tags;
    same = λ q i j lt small d off. c.same q i j lt small d (ground arith);
    found = rw (kept v (omega arith), ==_of_eq valid) c.found;
    others = λ w above ne. elim (ℕ_discrete (digits_above (suc k) w) (digits_above (suc k) v)) [
      | yes e ↦ rw (kept w above, e, ==_of_eq valid) (c.others w e ne)
      | no off ↦
          off_path tree G (suc k) v (λ q i j lt small d out. c.same q i j lt small d (ground arith))
            (suc k) p w (record { lt = at.lt; depth = at.depth; tag = at.tag ∙ sym above }) off
    ];
  }
    where
      kept :
          (w : ℕ)
          → digits_above (suc (suc k)) w ≡ digits_above (suc (suc k)) v
          → G.entry p (digit (suc k) w) ≡ F.entry p (digit (suc k) w)
      kept w above =
          c.same p (digit (suc k) w) (suc k) at.lt (omega arith) at.depth (inl (omega arith))
