-- ===== src/Google/Filling.antt =====
-- What a description from the cloud sets on a node, against the description as the tree takes it.
use gd2fuse.Base.{
  String, ℕ, ◌≡◌, ◌≢◌, refl, ◌∙◌, ◌⊎◌, inl, inr, Option, none, some, List, [], ◌∷◌, ◌==◌, nat_eq,
  if◌then◌else◌, arith, Text, length, Option-cases,
}
use native.Mathlib.Decide.{ℕ_discrete}
use gd2fuse.Node.{Node, Meta, set_meta, set_time}
use gd2fuse.Outcome.{foreign, Outcome, ok, threw, pure}
use gd2fuse.Google.{
  Dates, DriveFile, fill_node, fill_md5, sp2md5sign, gdt2timespec, split_mime, get_file_type,
  md5_thrown,
}

module _ (d : Dates) (bad : String) (source : DriveFile d) where
  -- The description of the file, with a checksum if there is one.
  abbrev pub described : Option (List ℕ) → Meta
  described md5 = record {
    id = source.id;
    name = source.title;
    file_type = get_file_type (split_mime source.mime_type);
    size = source.file_size;
    md5 = md5;
    last_access = gdt2timespec d source.last_viewed_by_me_date;
    last_modification = gdt2timespec d source.modified_date;
    last_change = gdt2timespec d source.modified_date;
  }

  pub fill-steps :
      (dest : Node)
      → fill_node d bad source dest
        ≡ (if source.file_size == 0 then pure tt else fill_md5 d bad source.md5_checksum)
            (set_meta (described none) dest)
  unfolding fill_node set_time
  fill-steps dest = refl

  -- What fillNode does with a node.
  abbrev pub FillOutcome : Node → Outcome Node (Unit {0}) → Type 0
  FillOutcome dest r =
      (((source.file_size ≡ 0) ⊎ (source.md5_checksum ≡ []))
        × (r ≡ ok tt (set_meta (described none) dest)))
      ⊎ ((md5 : List ℕ) × (length source.md5_checksum ≡ 32)
          × (d.unhex source.md5_checksum ≡ some md5)
          × (r ≡ ok tt (set_meta (described (some md5)) dest)))
      ⊎ ((length source.md5_checksum ≢ 32)
          × (r ≡ threw md5_thrown (set_meta (described none) dest)))
      ⊎ ((d.unhex source.md5_checksum ≡ none)
          × (r ≡ threw (foreign bad) (set_meta (described none) dest)))

  md5-wrong :
      (n : Node) (m : Text) → m ≢ [] → length m ≢ 32 → fill_md5 d bad m n ≡ threw md5_thrown n
  unfolding fill_md5 sp2md5sign nat_eq
  md5-wrong n [] h g = absurd (h refl)
  md5-wrong n (c ∷ m) h g = ground (arith, g)

  md5-bad :
      (n : Node) (m : Text)
      → m ≢ []
      → length m ≡ 32
      → d.unhex m ≡ none
      → fill_md5 d bad m n ≡ threw (foreign bad) n
  unfolding fill_md5 sp2md5sign nat_eq
  md5-bad n [] h g e = absurd (h refl)
  md5-bad n (c ∷ m) h g e = rw (g, e) refl

  md5-good :
      (n : Node) (m : Text) (md5 : List ℕ)
      → m ≢ []
      → length m ≡ 32
      → d.unhex m ≡ some md5
      → fill_md5 d bad m n ≡ ok tt (record n { md5 = md5 })
  unfolding fill_md5 sp2md5sign nat_eq
  md5-good n [] md5 h g e = absurd (h refl)
  md5-good n (c ∷ m) md5 h g e = rw (g, e) refl

  checksum-cases : (source.md5_checksum ≡ []) ⊎ (source.md5_checksum ≢ [])
  checksum-cases = cases source.md5_checksum
    where
      cases : (m : Text) → (m ≡ []) ⊎ (m ≢ [])
      cases [] = inl refl
      cases (c ∷ m) = inr (λ h. cc)

  fill-empty :
      (dest : Node)
      → (source.file_size ≡ 0) ⊎ (source.md5_checksum ≡ [])
      → fill_node d bad source dest ≡ ok tt (set_meta (described none) dest)
  unfolding fill_md5 nat_eq
  fill-empty dest (inl e) = fill-steps dest ∙ rw e refl
  fill-empty dest (inr e) = fill-steps dest ∙ rw e (ground arith)

  fill-checksum :
      (dest : Node)
      → source.file_size ≢ 0
      → fill_node d bad source dest
        ≡ fill_md5 d bad source.md5_checksum (set_meta (described none) dest)
  unfolding nat_eq
  fill-checksum dest h = fill-steps dest ∙ ground (arith, h)

  -- fillNode sets on the node what the description says: with the checksum, if the file is not empty
  -- and has one that can be read, and else with the checksum that the node has had. A checksum that
  -- has not 32 digits, or is not hexadecimal, is an exception, thrown when all but the checksum has
  -- been set.
  pub fill_node_lem : (dest : Node) → FillOutcome dest (fill_node d bad source dest)
  fill_node_lem dest = elim (ℕ_discrete source.file_size 0) [
    | yes e ↦ inl (inl e, fill-empty dest (inl e))
    | no sized ↦ elim checksum-cases [
      | inl e ↦ inl (inr e, fill-empty dest (inr e))
      | inr some_left ↦
          let n = set_meta (described none) dest in
          elim (ℕ_discrete (length source.md5_checksum) 32) [
            | no wrong ↦ inr (
                inr (
                  inl (
                    wrong,
                    fill-checksum dest sized ∙ md5-wrong n source.md5_checksum some_left wrong,
                  )))
            | yes right ↦ elim (Option-cases (d.unhex source.md5_checksum)) [
              | inl e ↦ inr (
                  inr (
                    inr (
                      e,
                      fill-checksum dest sized ∙ md5-bad n source.md5_checksum some_left right e,
                    )))
              | inr (md5, e) ↦ inr (
                  inl (
                    md5,
                    right,
                    e,
                    fill-checksum dest sized ∙ md5-good n source.md5_checksum md5 some_left right e,
                  ))
            ]
          ]
    ]
  ]
