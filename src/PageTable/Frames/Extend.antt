-- ===== src/PageTable/Frames/Extend.antt =====
-- Insertion, which adds the missing tables, and removal, on the tree of tables.
use operating_systems_git.Prelude.{
  ℕ, suc, ◌+◌, ◌*◌, ◌/◌, ◌%◌, ◌<◌, ◌≡◌, ◌≢◌, ◌⊎◌, inl, inr, refl, arith, update, ℕ_discrete, ◌∙◌,
  sym, ap, subst, ==_refl, ne→==,
}
use operating_systems_git.PageTable.Frames.{Frames, extend, digits_above, digit, look}
use operating_systems_git.PageTable.Frames.Tree.{
  Labels, IsChild, IsTree, At, Same, off_path, look-zero,
}
use operating_systems_git.PageTable.Frames.Change.{Changes, descend-Changes, not_digit, ==_of_eq}

-- The labels when frame `n` becomes the table of `v` with `k` levels below it.
abbrev pub label : Labels → ℕ → ℕ → ℕ → Labels
label L n k v = record {
  depth = update L.depth n (suc k);
  tag = update L.tag n (digits_above (suc k) v);
}

module _ {F : Frames} {L : Labels} (tree : IsTree F L) {k p v : ℕ} (at : At F L (suc k) p v)
    (invalid : F.entry p (digit (suc k) v) % 2 ≡ 0) where
  abbrev pub grown_frames : Frames
  grown_frames = extend F p (digit (suc k) v)

  abbrev pub grown_labels : Labels
  grown_labels = label L F.size k v

  new_entry : grown_frames.entry p (digit (suc k) v) ≡ F.size * 4096 + 1
  unfolding extend
  new_entry = rw (==_refl p, ==_refl (digit (suc k) v))

  pub new_empty : (i : ℕ) → grown_frames.entry F.size i ≡ 0
  unfolding extend
  new_empty i = rw (ne→== F.size p (omega (arith, at.lt)), ==_refl F.size)

  old_entry :
      (q i : ℕ)
      → q < F.size
      → (q ≢ p) ⊎ (i ≢ digit (suc k) v)
      → grown_frames.entry q i ≡ F.entry q i
  unfolding extend
  old_entry q i lt (inl ne) = rw (ne→== q p ne, ne→== q F.size (omega arith))
  old_entry q i lt (inr ne) =
      rw (ne→== i (digit (suc k) v) ne, ne→== q F.size (omega arith)) (ground arith)

  extend-Same : Same F grown_frames L (suc k) v
  extend-Same q i j lt small d off = elim (ℕ_discrete q p) [
    | yes e ↦ old_entry q i lt (inr (not_digit L (suc k) p v q i j at.depth at.tag e d off))
    | no ne ↦ old_entry q i lt (inl ne)
  ]

  pub extend-At : At grown_frames grown_labels k F.size v
  unfolding extend
  extend-At = record { lt = omega arith; depth = rw (==_refl F.size); tag = rw (==_refl F.size) }

  extend-At_parent : At grown_frames grown_labels (suc k) p v
  unfolding extend
  extend-At_parent = record {
    lt = omega (arith, at.lt);
    depth = rw (ne→== p F.size (omega (arith, at.lt))) at.depth;
    tag = rw (ne→== p F.size (omega (arith, at.lt))) at.tag;
  }

  size-extend : grown_frames.size ≡ F.size + 1
  unfolding extend
  size-extend = refl

  -- The entry that `extend` writes leads to the new table.
  IsChild-new :
      (j : ℕ)
      → L.depth p ≡ suc (suc j)
      → IsChild grown_frames grown_labels p
          (digit (suc k) v)
          j
          (grown_frames.entry p (digit (suc k) v) / 4096)
  IsChild-new j d =
      let to_new : (F.size * 4096 + 1) / 4096 ≡ F.size = omega arith in
      rw (new_entry, to_new)
        (record {
          lt = omega (arith, size-extend);
          depth = rw (==_refl F.size) (omega (arith, at.depth, d));
          tag = rw (==_refl F.size, ne→== p F.size (omega (arith, at.lt))) (omega (arith, at.tag));
        })

  IsChild-old :
      (q i j : ℕ)
      → q < F.size
      → i < 512
      → (q ≢ p) ⊎ (i ≢ digit (suc k) v)
      → L.depth q ≡ suc (suc j)
      → grown_frames.entry q i % 2 ≡ 1
      → IsChild grown_frames grown_labels q i j (grown_frames.entry q i / 4096)
  IsChild-old q i j lt small other d valid =
      let c = tree.child q i j lt small d (rw (old_entry q i lt other) at valid) in
      rw (old_entry q i lt other) (record {
        lt = omega (arith, size-extend, c.lt);
        depth = rw (ne→== (F.entry q i / 4096) F.size (omega (arith, c.lt))) c.depth;
        tag =
            rw
              (
                ne→== (F.entry q i / 4096) F.size (omega (arith, c.lt)),
                ne→== q F.size (omega arith),
              )
              c.tag;
      })

  IsChild-any :
      (q i j : ℕ)
      → q < grown_frames.size
      → i < 512
      → grown_labels.depth q ≡ suc (suc j)
      → grown_frames.entry q i % 2 ≡ 1
      → IsChild grown_frames grown_labels q i j (grown_frames.entry q i / 4096)
  IsChild-any q i j lt small d valid = elim (ℕ_discrete q F.size) [
    | yes new ↦
        absurd (omega (arith, subst (λ r. grown_frames.entry r i % 2 ≡ 1) new valid, new_empty i))
    | no old ↦
        let below : q < F.size = omega (arith, size-extend) in
        let d' : L.depth q ≡ suc (suc j) = rw (ne→== q F.size old) at d in
        elim (ℕ_discrete q p) [
          | no ne ↦ IsChild-old q i j below small (inl ne) d' valid
          | yes e ↦ elim (ℕ_discrete i (digit (suc k) v)) [
            | no ne ↦ IsChild-old q i j below small (inr ne) d' valid
            | yes f ↦ rw (e, f) (IsChild-new j (ap L.depth (sym e) ∙ d'))
          ]
        ]
  ]

  pub extend-IsTree : IsTree grown_frames grown_labels
  extend-IsTree = record { child = IsChild-any }

  -- Until the new table is filled, `v` and its neighbours map to nothing below `p`, as before.
  look-extend :
      (w : ℕ)
      → digits_above (suc (suc k)) w ≡ digits_above (suc (suc k)) v
      → look grown_frames (suc k) p w ≡ look F (suc k) p w
  unfolding look
  look-extend w above =
      let to_new : grown_frames.entry p (digit (suc k) v) / 4096 ≡ F.size =
        rw new_entry (omega arith) in
      let valid_new : grown_frames.entry p (digit (suc k) v) % 2 ≡ 1 = rw new_entry (omega arith) in
      elim (ℕ_discrete (digits_above (suc k) w) (digits_above (suc k) v)) [
        | yes e ↦
            rw (e, ==_of_eq valid_new, to_new, invalid)
              (look-zero grown_frames k F.size w new_empty)
        | no off ↦
            off_path tree grown_frames (suc k) v extend-Same (suc k) p w
              (record { lt = at.lt; depth = at.depth; tag = at.tag ∙ sym above }) off
      ]

  pub extend-Changes :
      {G : Frames} {M : Labels} {x : ℕ}
      → Changes grown_frames G grown_labels M k F.size v x
      → Changes F G L M (suc k) p v x
  extend-Changes {G} {M} {x} below = record {
    grown = omega (arith, below.grown, size-extend);
    tree = c.tree;
    depths = λ q lt. c.depths q (omega (arith, size-extend)) ∙ rw (ne→== q F.size (omega arith));
    tags = λ q lt. c.tags q (omega (arith, size-extend)) ∙ rw (ne→== q F.size (omega arith));
    same = λ q i j lt small d off. same q i j lt small d off;
    found = c.found;
    others = λ w above ne. c.others w above ne ∙ look-extend w above;
  }
    where
      c : Changes grown_frames G grown_labels M (suc k) p v x
      c = descend-Changes extend-IsTree extend-At_parent (rw new_entry (omega arith)) (
          let to_new : (F.size * 4096 + 1) / 4096 ≡ F.size = omega arith in
          rw (new_entry, to_new) below)

      same : Same F G L (suc k) v
      same q i j lt small d off =
          let other = ne→== q F.size (omega arith) in
          c.same q i j (omega (arith, size-extend)) small (rw other d) (rw other off)
          ∙ extend-Same q i j lt small d off
