-- ===== src/Accumulator/Exclusion/Absence/Sound.antt =====
-- nymora-accumulator/src/exclusion.rs: a present key has no witness, but for one that has forged
-- the hash.
use nymora.Prelude.{
  ℕ, ◌+◌, ◌^◌, ◌≤◌, ◌<◌, ◌≡◌, ◌≢◌, refl, ◌⊎◌, sym, ◌∙◌, ap, subst, true, false, none, some, List,
  [], ◌∷◌, map, arith, length, get_elem?, get_elem?-map, get_or-get_elem?, get_or-none, contains,
  Bool-cases, Option-cases, inl, inr,
}
use nymora.Prelude.Bytes.{Bytes, le_value}
use nymora.Crypto.Field.{Field}
use nymora.Accumulator.Witness.{zero_node, empty_above, empty_node, fold, fold_from}
use nymora.Accumulator.Witness.Binding.{Collides, fold_from-Collides}
use nymora.Accumulator.Tree
use nymora.Accumulator.Tree.{Tree, siblings_from, occupied_level}
use nymora.Accumulator.Tree.Inclusion.{fold_from-root, node_at, length-siblings_from}
use nymora.Accumulator.Exclusion.{
  ExclusionSet, AbsenceWitness, truncate_key, gap_leaf, verifies_absent, gaps, gap_tree, root,
}
use nymora.Accumulator.Exclusion.Order.{
  IsDigest, truncate_key-IsDigest, truncate_key-lt, le_bytes-IsDigest,
}
use nymora.Accumulator.Exclusion.Gaps.{IsOrdered, top, gap_excludes, gaps-bounded}
use nymora.Accumulator.Exclusion.Absence.{
  IsEncoding, digest_value, leaf_bytes, leaves-gap_tree, verifies_absent-inversion, less-lt,
}

module _ (fld : Field) where
  open fld use {F, from_witness_bytes, from_u64, hash}

  -- What the hash of a gap absorbs.
  unfoldable pub gap_inputs : Bytes × Bytes → List F
  gap_inputs (low, high) = from_u64 2 ∷ from_witness_bytes low ∷ from_witness_bytes high ∷ []

  -- What a witness that the root of a set accepts without one of its gaps has found: two
  -- different inputs of the hash with one value at some level of its path and the tree's own; or
  -- a gap of the set, at the path's index, whose leaf is another input with the value of the
  -- witness's; or, past the last gap, an input whose value is the empty leaf.
  unfoldable pub Forged : ℕ → ExclusionSet → AbsenceWitness → Type 0
  Forged depth s w =
      Collides fld (gap_leaf fld w.low w.high)
        (from_witness_bytes (node_at fld (gap_tree fld depth s).leaves 0 w.path.index)) w.path.index
        w.path.siblings (siblings_from fld (gap_tree fld depth s).leaves 0 depth w.path.index)
      ⊎ ((g : Bytes × Bytes) × (get_elem? (gaps s) w.path.index ≡ some g)
          × (gap_inputs (w.low, w.high) ≢ gap_inputs g)
          × (hash (gap_inputs (w.low, w.high)) ≡ hash (gap_inputs g)))
      ⊎ ((get_elem? (gaps s) w.path.index ≡ none)
          × (hash (gap_inputs (w.low, w.high)) ≡ from_witness_bytes zero_node))

  gap_leaf-hash : (low high : Bytes) → gap_leaf fld low high ≡ hash (gap_inputs (low, high))
  unfolding gap_leaf gap_inputs
  gap_leaf-hash low high = refl

  gap_inputs-injective :
      (a b c d : Bytes)
      → gap_inputs (a, b) ≡ gap_inputs (c, d)
      → (from_witness_bytes a ≡ from_witness_bytes c)
        × (from_witness_bytes b ≡ from_witness_bytes d)
  unfolding gap_inputs
  gap_inputs-injective a b c d h = (cc, cc)

  gap_inputs_same :
      (a b c d : Bytes)
      → from_witness_bytes a ≡ from_witness_bytes c
      → from_witness_bytes b ≡ from_witness_bytes d
      → gap_inputs (a, b) ≡ gap_inputs (c, d)
  unfolding gap_inputs
  gap_inputs_same a b c d h k = cc

  -- Whether two gaps are one input of the hash is decided.
  gap_or_not :
      Discrete F
      → (p g : Bytes × Bytes) → (gap_inputs p ≡ gap_inputs g) ⊎ (gap_inputs p ≢ gap_inputs g)
  gap_or_not dec (a, b) (c, d) = elim (dec (from_witness_bytes a) (from_witness_bytes c)) [
    | no differ ↦ inr (λ h. differ (gap_inputs-injective a b c d h).0)
    | yes h ↦ elim (dec (from_witness_bytes b) (from_witness_bytes d)) [
      | no differ ↦ inr (λ k. differ (gap_inputs-injective a b c d k).1)
      | yes k ↦ inl (gap_inputs_same a b c d h k)
    ]
  ]

  module _ (h : IsEncoding fld) where
    -- A path as deep as the tree that folds a gap leaf to the set's root starts at a gap that the
    -- set has, or is forged.
    gap_of_fold :
        (depth : ℕ) (s : ExclusionSet) (w : AbsenceWitness)
        → depth < 64
        → length s.ordered + 1 ≤ 2 ^ depth
        → w.path.index < 2 ^ depth
        → length w.path.siblings ≡ depth
        → fold fld (gap_leaf fld w.low w.high) w.path ≡ root fld depth s
        → ((g : Bytes × Bytes) × (get_elem? (gaps s) w.path.index ≡ some g)
            × (from_witness_bytes w.low ≡ from_witness_bytes g.0)
            × (from_witness_bytes w.high ≡ from_witness_bytes g.1))
          ⊎ Forged depth s w
    unfolding root fold Forged
    gap_of_fold depth s w small room inside deep folded =
        let t : Tree = gap_tree fld depth s in
        let i : ℕ = w.path.index in
        let node : Bytes = node_at fld t.leaves 0 i in
        let up : fold_from fld (gap_leaf fld w.low w.high) i w.path.siblings
            ≡ from_witness_bytes (Tree.root fld depth t) =
          sym (h.decodes _) ∙ ap from_witness_bytes folded in
        let leaves : get_elem? t.leaves i ≡ get_elem? (map (leaf_bytes fld) (gaps s)) i =
          ap (λ (l : List Bytes). get_elem? l i) (leaves-gap_tree fld depth s small room) in
        elim (fold_from-Collides fld h.decides (gap_leaf fld w.low w.high) (from_witness_bytes node)
          i w.path.siblings (siblings_from fld t.leaves 0 depth i)
          (deep ∙ sym (length-siblings_from fld t.leaves 0 depth i))
          (up ∙ sym (fold_from-root fld h.decodes depth t i inside))) [
            | inr collision ↦ inr (inl collision)
            | inl same ↦ elim (Option-cases (get_elem? (gaps s) i)) [
              | inl past ↦
                  let none_at : get_elem? t.leaves i ≡ none =
                    leaves ∙ rw (get_elem?-map (leaf_bytes fld) (gaps s) i, past) in
                  let blank : node ≡ zero_node =
                    unfold occupied_level empty_node empty_above in
                    get_or-none t.leaves i zero_node none_at in
                  inr (
                    inr (
                      inr (
                        past,
                        sym (gap_leaf-hash w.low w.high) ∙ same ∙ ap from_witness_bytes blank,
                      )))
              | inr (g, at) ↦
                  let some_at : get_elem? t.leaves i ≡ some (leaf_bytes fld g) =
                    leaves ∙ rw (get_elem?-map (leaf_bytes fld) (gaps s) i, at) in
                  let full : node ≡ leaf_bytes fld g =
                    unfold occupied_level in get_or-get_elem? t.leaves i _ some_at in
                  let one : gap_leaf fld w.low w.high ≡ gap_leaf fld g.0 g.1 =
                    same ∙ ap from_witness_bytes full ∙ h.decodes _ in
                  elim (gap_or_not h.decides (w.low, w.high) g) [
                    | inl p ↦
                        let (l, r) = gap_inputs-injective w.low w.high g.0 g.1 p in
                        inl (g, at, l, r)
                    | inr differ ↦ inr (
                        inr (
                          inl (
                            g,
                            at,
                            differ,
                            sym (gap_leaf-hash w.low w.high) ∙ one ∙ gap_leaf-hash g.0 g.1,
                          )))
                  ]
            ]
          ]

    -- For a field with decidable equality that reads its own encodings back and tells values below
    -- 2^253 apart, and an ordered set whose gaps the tree holds: an absence witness of the tree's
    -- depth, with 32-byte ends, either does not verify against the set's root for a 32-byte key
    -- that is in the set, or it has forged the hash: it exhibits a collision at some level of its
    -- path, a collision with a gap's leaf, or an input whose hash is the empty leaf.
    pub absence_sound :
        (depth : ℕ) (s : ExclusionSet) (key : Bytes) (w : AbsenceWitness)
        → depth < 64
        → IsOrdered s
        → length s.ordered + 1 ≤ 2 ^ depth
        → IsDigest key
        → IsDigest w.low
        → IsDigest w.high
        → w.path.index < 2 ^ depth
        → length w.path.siblings ≡ depth
        → contains (le_value (truncate_key key)) s.ordered ≡ true
        → (verifies_absent fld key w (root fld depth s) ≡ false) ⊎ Forged depth s w
    absence_sound depth s key w small ord room d dl dh inside deep present =
        elim (Bool-cases (verifies_absent fld key w (root fld depth s))) [
          | inr refused ↦ inl refused
          | inl shown ↦
              let (low, high, above, below, folded) =
                verifies_absent-inversion fld key w (root fld depth s) shown in
              elim (gap_of_fold depth s w small room inside deep folded) [
                | inr forged ↦ inr forged
                | inl (g, at, l, r) ↦
                    let (a, b, e, gap, la, lb) = gaps-bounded s w.path.index ord at in
                    let va : le_value g.0 ≡ a =
                      ap (λ (p : Bytes × Bytes). le_value p.0) e ∙ digest_value a la in
                    let vb : le_value g.1 ≡ b =
                      ap (λ (p : Bytes × Bytes). le_value p.1) e ∙ digest_value b lb in
                    let d0 : IsDigest g.0 =
                      subst (λ (p : Bytes × Bytes). IsDigest p.0) (sym e) (le_bytes-IsDigest a) in
                    let d1 : IsDigest g.1 =
                      subst (λ (p : Bytes × Bytes). IsDigest p.1) (sym e) (le_bytes-IsDigest b) in
                    let el : w.low ≡ g.0 =
                      h.narrow w.low g.0 dl d0
                        (subst (λ (x : Bytes). le_value x < 2 ^ 253) low (truncate_key-lt dl))
                        (omega arith) l in
                    let eh : w.high ≡ g.1 =
                      h.narrow w.high g.1 dh d1
                        (subst (λ (x : Bytes). le_value x < 2 ^ 253) high (truncate_key-lt dh))
                        (omega arith) r in
                    let lower : le_value w.low < le_value (truncate_key key) =
                      less-lt fld dl (truncate_key-IsDigest d) above in
                    let upper : le_value (truncate_key key) < le_value w.high =
                      less-lt fld (truncate_key-IsDigest d) dh below in
                    absurd (
                      gap_excludes 0 top (le_value (truncate_key key)) w.path.index a b s.ordered
                        ord.ascending present gap (omega (arith, lower, ap le_value el, va))
                        (omega (arith, upper, ap le_value eh, vb)))
              ]
        ]
