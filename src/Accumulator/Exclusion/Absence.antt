-- ===== src/Accumulator/Exclusion/Absence.antt =====
-- nymora-accumulator/src/exclusion.rs: what the absence check rests on, and its two halves read off
-- `absence_witness` and `verifies_absent`.
pub mod Complete
pub mod Sound
use nymora.Prelude.{
  ℕ, ◌+◌, ◌^◌, ◌≤◌, ◌<◌, ◌≡◌, ◌≢◌, sym, ◌∙◌, ap, subst, true, false, none, some, List, [], ◌∷◌,
  ◌++◌, map, arith, length, length-append, get_elem?, get_elem?-lt, get_elem?-map, get_or-get_elem?,
  get_or-none, contains, Bool-cases, Option-cases, inl, inr, bytes_eq_sound, bytes_eq_refl,
  append-nil, append_assoc, lt→ltb, ltb→lt,
}
use nymora.Prelude.Bytes.{Bytes, le_bytes, le_value, le_value-le_bytes}
use nymora.Crypto.Field.{Field, Decodes}
use nymora.Accumulator.Witness.{
  Witness, zero_node, empty_above, empty_node, fold, fold_from, root_from, verifies,
}
use nymora.Accumulator.Tree
use nymora.Accumulator.Tree.{Tree, siblings_from, occupied_level}
use nymora.Accumulator.Tree.Inclusion.{
  witness-verifies, fold_from-root, node_at, length-siblings_from,
}
use nymora.Accumulator.Exclusion.{
  ExclusionSet, AbsenceWitness, truncate_key, gap_leaf, verifies_absent, gaps, count_upto,
  append_gaps, gap_tree, root, absence_witness, ct_less,
}
use nymora.Accumulator.Exclusion.Order.{
  IsDigest, truncate_key-IsDigest, truncate_key_fixed, truncate_key-lt, ct_less-lt,
  le_bytes-IsDigest, to_ordering-value,
}
use nymora.Accumulator.Exclusion.Gaps.{
  IsOrdered, top, gap_bytes, gap_around, gap_excludes, gap-bounded, gaps-numbers, gaps-bounded,
  length-gaps,
}

-- What the check rests on, the hash aside: a field with decidable equality that reads its own
-- encodings back, and whose modulus lies above the ordering domain.
pub record IsEncoding (fld : Field) : Type 0 where
  pub decodes : Decodes fld
  pub decides : Discrete fld.F
  pub narrow :
      (a b : Bytes)
      → IsDigest a
      → IsDigest b
      → le_value a < 2 ^ 253
      → le_value b < 2 ^ 253
      → fld.from_witness_bytes a ≡ fld.from_witness_bytes b
      → a ≡ b

pub digest_value : (n : ℕ) → n < 2 ^ 253 → le_value (le_bytes 32 n) ≡ n
digest_value n h = le_value-le_bytes 32 n (omega arith)

module _ (fld : Field) where
  open fld use {F, to_bytes, from_witness_bytes, hash}

  abbrev pub leaf_bytes : Bytes × Bytes → Bytes
  leaf_bytes (low, high) = to_bytes (gap_leaf fld low high)

  append-leaves :
      (depth : ℕ) (t : Tree) (v : Bytes)
      → depth < 64
      → length t.leaves < 2 ^ depth
      → (Tree.append depth t v).1.leaves ≡ t.leaves ++ v ∷ []
  unfolding Tree.append
  append-leaves depth t v small room = ground arith

  leaves-append_gaps :
      (depth : ℕ) (t : Tree) (gs : List (Bytes × Bytes))
      → depth < 64
      → length t.leaves + length gs ≤ 2 ^ depth
      → (append_gaps fld depth t gs).leaves ≡ t.leaves ++ map leaf_bytes gs
  unfolding append_gaps
  leaves-append_gaps depth t [] small room = sym (append-nil t.leaves)
  leaves-append_gaps depth t ((low, high) ∷ rest) small room =
      let v : Bytes = to_bytes (gap_leaf fld low high) in
      let e : (Tree.append depth t v).1.leaves ≡ t.leaves ++ v ∷ [] =
        append-leaves depth t v small (omega arith) in
      leaves-append_gaps depth (Tree.append depth t v).1 rest small
        (rw e (omega (arith, length-append t.leaves (v ∷ []))))
      ∙ ap (λ (l : List Bytes). l ++ map leaf_bytes rest) e
      ∙ append_assoc t.leaves (v ∷ []) (map leaf_bytes rest)

  pub leaves-gap_tree :
      (depth : ℕ) (s : ExclusionSet)
      → depth < 64
      → length s.ordered + 1 ≤ 2 ^ depth
      → (gap_tree fld depth s).leaves ≡ map leaf_bytes (gaps s)
  unfolding gap_tree
  leaves-gap_tree depth s small room =
      leaves-append_gaps depth Tree.new_tree (gaps s) small (omega (arith, length-gaps s))

  pub absence_witness-found :
      (depth : ℕ) (s : ExclusionSet) (key low high : Bytes) (path : Witness)
      → get_elem? (gaps s) (count_upto (le_value (truncate_key key)) s.ordered) ≡ some (low, high)
      → Tree.witness fld depth
          (gap_tree fld depth s)
          (count_upto (le_value (truncate_key key)) s.ordered)
        ≡ some path
      → absence_witness fld depth s key ≡ some (record { low = low; high = high; path = path })
  unfolding absence_witness
  absence_witness-found depth s key low high path at found = rw (
    to_ordering-value (truncate_key key),
    absence_witness,
    at,
    to_ordering-value (truncate_key key),
    found,
  )

  pub verifies_absent-true :
      (key : Bytes) (w : AbsenceWitness) (r : Bytes)
      → truncate_key w.low ≡ w.low
      → truncate_key w.high ≡ w.high
      → ct_less w.low (truncate_key key) ≡ true
      → ct_less (truncate_key key) w.high ≡ true
      → fold fld (gap_leaf fld w.low w.high) w.path ≡ r
      → verifies_absent fld key w r ≡ true
  unfolding verifies_absent
  verifies_absent-true key w r low high above below folded =
      simp (low, high, above, below, folded, bytes_eq_refl)

  pub verifies_absent-inversion :
      (key : Bytes) (w : AbsenceWitness) (r : Bytes)
      → verifies_absent fld key w r ≡ true
      → (truncate_key w.low ≡ w.low)
        × (truncate_key w.high ≡ w.high)
        × (ct_less w.low (truncate_key key) ≡ true)
        × (ct_less (truncate_key key) w.high ≡ true)
        × (fold fld (gap_leaf fld w.low w.high) w.path ≡ r)
  unfolding verifies_absent
  verifies_absent-inversion key w r h = (
    bytes_eq_sound _ _ (ground arith),
    bytes_eq_sound _ _ (ground arith),
    ground arith,
    ground arith,
    bytes_eq_sound _ _ (ground arith),
  )

  pub less-true :
      {a b : Bytes} → IsDigest a → IsDigest b → le_value a < le_value b → ct_less a b ≡ true
  less-true {a} {b} ha hb lt =
      ct_less-lt a b (ha.width ∙ sym hb.width) ha.bytes hb.bytes ∙ lt→ltb _ _ lt

  pub less-lt :
      {a b : Bytes} → IsDigest a → IsDigest b → ct_less a b ≡ true → le_value a < le_value b
  less-lt {a} {b} ha hb less =
      ltb→lt _ _ (sym (ct_less-lt a b (ha.width ∙ sym hb.width) ha.bytes hb.bytes) ∙ less)
