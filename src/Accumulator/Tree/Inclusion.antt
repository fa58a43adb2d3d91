-- ===== src/Accumulator/Tree/Inclusion.antt =====
-- What the operator builds, a member proves: a tree's witness folds to the tree's root.
use nymora.Prelude.{
  ℕ, zero, suc, ◌+◌, ◌-◌, ◌*◌, ◌/◌, ◌%◌, ◌^◌, ◌<◌, ◌≡◌, refl, sym, ◌∙◌, ap, subst, some, List, [],
  ◌∷◌, true, false, arith, length, get_elem?, get_elem?-lt, get_or, get_or-get_elem?, ◌==◌,
  Bool-cases, inl, inr, bytes_eq_refl,
}
use native.Mathlib.Nat.{pow-suc, add-zero, zero-add}
use nymora.Prelude.Bytes.{Bytes}
use nymora.Crypto.Field.{Field, Decodes, IsCanonical}
use nymora.Accumulator.Witness
use nymora.Accumulator.Witness.{
  Witness, zero_node, hash_node, empty_above, empty_node, fold_step, fold_from, fold, root_from,
  verifies,
}
use nymora.Accumulator.Tree.{
  Tree, pair_up, occupied_level, root, sibling_index, siblings_from, witness,
}

-- The index of the ancestor, so many levels up.
abbrev pub halve : ℕ → ℕ → ℕ
halve zero i = i
halve (suc n) i = halve n (i / 2)

pub halve-zero : (n i : ℕ) → i < 2 ^ n → halve n i ≡ 0
halve-zero zero i h = omega arith
halve-zero (suc n) i h =
    let p : 2 ^ suc n ≡ 2 ^ n * 2 = pow-suc 2 n in halve-zero n (i / 2) (omega arith)

module _ (fld : Field) where
  open fld use {F, to_bytes, from_witness_bytes, hash}

  empty_above-suc :
      (node : Bytes) (level : ℕ)
      → empty_above fld node (suc level)
        ≡ hash_node fld (empty_above fld node level) (empty_above fld node level)
  unfolding empty_above
  empty_above-suc node zero = refl
  empty_above-suc node (suc level) = empty_above-suc (hash_node fld node node) level

  pub empty_node-suc :
      (level : ℕ)
      → empty_node fld (suc level) ≡ hash_node fld (empty_node fld level) (empty_node fld level)
  unfolding empty_node empty_above
  empty_node-suc level = empty_above-suc zero_node level

  -- A node of any index: the level's empty value where nothing is occupied.
  abbrev pub node_at : List Bytes → ℕ → ℕ → Bytes
  node_at leaves level i = get_or (occupied_level fld leaves level) i (empty_node fld level)

  get_or-pair_up :
      (empty : Bytes) (below : List Bytes) (i : ℕ)
      → get_or (pair_up fld empty below) i (hash_node fld empty empty)
        ≡ hash_node fld (get_or below (2 * i) empty) (get_or below (2 * i + 1) empty)
  unfolding pair_up
  get_or-pair_up empty [] i = refl
  get_or-pair_up empty (left ∷ []) zero = refl
  get_or-pair_up empty (left ∷ []) (suc i) =
      let p : 2 * suc i ≡ suc (2 * i + 1) = omega arith in
      let q : 2 * suc i + 1 ≡ suc (2 * i + 2) = omega arith in rw (q, p)
  get_or-pair_up empty (left ∷ right ∷ below) zero = refl
  get_or-pair_up empty (left ∷ right ∷ below) (suc i) =
      let p : 2 * suc i ≡ suc (suc (2 * i)) = omega arith in
      let q : 2 * suc i + 1 ≡ suc (suc (2 * i + 1)) = omega arith in
      rw (q, p) (get_or-pair_up empty below i)

  pub node_at-suc :
      (leaves : List Bytes) (level i : ℕ)
      → node_at leaves (suc level) i
        ≡ hash_node fld (node_at leaves level (2 * i)) (node_at leaves level (2 * i + 1))
  unfolding occupied_level
  node_at-suc leaves level i =
      rw (empty_node-suc level)
        (get_or-pair_up (empty_node fld level) (occupied_level fld leaves level) i)

  pub length-siblings_from :
      (leaves : List Bytes) (level n i : ℕ) → length (siblings_from fld leaves level n i) ≡ n
  unfolding siblings_from
  length-siblings_from leaves level zero i = refl
  length-siblings_from leaves level (suc n) i =
      omega (arith, length-siblings_from leaves (suc level) n (i / 2))

  module _ (decodes : Decodes fld) where
    -- One level up: the fold's step reaches the value of the parent node.
    fold_step-node_at :
        (leaves : List Bytes) (level i : ℕ)
        → fold_step fld
            (from_witness_bytes (node_at leaves level i))
            i
            (node_at leaves level (sibling_index i))
          ≡ from_witness_bytes (node_at leaves (suc level) (i / 2))
    unfolding fold_step sibling_index hash_node
    fold_step-node_at leaves level i = elim (Bool-cases (i % 2 == 1)) [
      | inl right ↦
          let e : 2 * (i / 2) ≡ i - 1 = ground arith in
          let o : 2 * (i / 2) + 1 ≡ i = ground arith in
          let s : (i % 2 == 0) ≡ false = ground arith in
          rw (right, s, node_at-suc leaves level (i / 2), o, e) (sym (decodes _))
      | inr left ↦
          let e : 2 * (i / 2) ≡ i = ground arith in
          let s : (i % 2 == 0) ≡ true = ground arith in
          rw (left, s, node_at-suc leaves level (i / 2), e) (sym (decodes _))
    ]

    fold_from-siblings :
        (leaves : List Bytes) (level n i : ℕ)
        → fold_from fld
            (from_witness_bytes (node_at leaves level i))
            i
            (siblings_from fld leaves level n i)
          ≡ from_witness_bytes (node_at leaves (level + n) (halve n i))
    unfolding fold_from siblings_from
    fold_from-siblings leaves level zero i =
        ap (λ (l : ℕ). from_witness_bytes (node_at leaves l i)) (sym (add-zero level))
    fold_from-siblings leaves level (suc n) i =
        ap (λ (c : F). fold_from fld c (i / 2) (siblings_from fld leaves (suc level) n (i / 2)))
          (fold_step-node_at leaves level i)
        ∙ fold_from-siblings leaves (suc level) n (i / 2)
        ∙ ap (λ (l : ℕ). from_witness_bytes (node_at leaves l (halve n (i / 2)))) (plus level n)
      where
        plus : (l k : ℕ) → suc l + k ≡ l + suc k
        plus l k = omega arith

    -- The fold along any index of the tree, occupied or not, ends in the root.
    pub fold_from-root :
        (depth : ℕ) (t : Tree) (i : ℕ)
        → i < 2 ^ depth
        → fold_from fld
            (from_witness_bytes (node_at t.leaves 0 i))
            i
            (siblings_from fld t.leaves 0 depth i)
          ≡ from_witness_bytes (root fld depth t)
    unfolding root
    fold_from-root depth t i h =
        fold_from-siblings t.leaves 0 depth i
        ∙ ap (λ (l : ℕ). from_witness_bytes (node_at t.leaves l (halve depth i))) (zero-add depth)
        ∙ ap (λ (j : ℕ). from_witness_bytes (node_at t.leaves depth j)) (halve-zero depth i h)

    -- A root with a canonical first leaf is canonical.
    root-IsCanonical :
        (depth : ℕ) (t : Tree)
        → (depth ≡ 0 → IsCanonical fld (node_at t.leaves 0 0))
        → IsCanonical fld (root fld depth t)
    unfolding root occupied_level hash_node
    root-IsCanonical zero t h = h refl
    root-IsCanonical (suc depth) t h = rw (node_at-suc t.leaves depth 0) (ap to_bytes (decodes _))

    at_zero : (depth position : ℕ) → depth ≡ 0 → position < 2 ^ depth → position ≡ 0
    at_zero depth position e h = let p : 2 ^ depth ≡ 1 = rw e in omega arith

    -- For a field that reads its own encodings back: every position of the tree that the depth
    -- has a leaf for and whose leaf is a canonical encoding gets a witness, and the witness
    -- verifies the leaf at that position against the root, whatever the other leaves are.
    pub witness-verifies :
        (depth : ℕ) (t : Tree) (position : ℕ) (value : Bytes)
        → position < 2 ^ depth
        → get_elem? t.leaves position ≡ some value
        → IsCanonical fld value
        → (w : Witness) × (witness fld depth t position ≡ some w)
          × (verifies fld value w (root fld depth t) ≡ true)
    unfolding witness Witness.new verifies root_from fold
    witness-verifies depth t position value room at canonical =
        let inside : position < length t.leaves = get_elem?-lt t.leaves position at in
        let leaf : node_at t.leaves 0 position ≡ value =
          unfold occupied_level in get_or-get_elem? t.leaves position _ at in
        let first : (depth ≡ 0 → IsCanonical fld (node_at t.leaves 0 0)) = λ e.
          let p : position ≡ 0 = at_zero depth position e room in
          subst (λ (j : ℕ). IsCanonical fld (node_at t.leaves 0 j)) p
            (subst (IsCanonical fld) (sym leaf) canonical) in
        let w : Witness = record {
          index = position;
          siblings = siblings_from fld t.leaves 0 depth position;
        } in
        let folded : root_from fld value w ≡ root fld depth t =
          ap to_bytes (
            ap (λ (b : Bytes). fold_from fld (from_witness_bytes b) position w.siblings) (sym leaf)
            ∙ fold_from-root depth t position room)
          ∙ root-IsCanonical depth t first in
        (w, ground arith, rw folded (bytes_eq_refl (root fld depth t)))
