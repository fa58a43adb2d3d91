-- ===== src/Accumulator/Exclusion/Absence/Complete.antt =====
-- nymora-accumulator/src/exclusion.rs: the witness of an absent key.
use nymora.Prelude.{
  ℕ, ◌+◌, ◌^◌, ◌≤◌, ◌<◌, ◌≡◌, sym, ◌∙◌, ap, true, false, some, arith, length, get_elem?,
  get_elem?-lt, get_elem?-map, contains, bytes_eq_sound,
}
use nymora.Prelude.Bytes.{Bytes, le_bytes, le_value}
use nymora.Crypto.Field.{Field, Decodes}
use nymora.Accumulator.Witness.{fold, root_from, verifies}
use nymora.Accumulator.Tree
use nymora.Accumulator.Tree.{Tree, siblings_from, occupied_level}
use nymora.Accumulator.Tree.Inclusion.{witness-verifies}
use nymora.Accumulator.Exclusion.{
  ExclusionSet, AbsenceWitness, truncate_key, verifies_absent, gaps, count_upto, gap_tree, root,
  absence_witness,
}
use nymora.Accumulator.Exclusion.Order.{
  IsDigest, truncate_key-IsDigest, truncate_key_fixed, truncate_key-lt, le_bytes-IsDigest,
}
use nymora.Accumulator.Exclusion.Gaps.{
  IsOrdered, top, gap_bytes, gap_around, gap-bounded, gaps-numbers, length-gaps,
}
use nymora.Accumulator.Exclusion.Absence.{
  digest_value, leaf_bytes, leaves-gap_tree, absence_witness-found, verifies_absent-true, less-true,
}

module _ (fld : Field) where
  open fld use {F, to_bytes, from_witness_bytes, hash}

  -- For a field that reads its own encodings back and an ordered set whose gaps the tree holds,
  -- every 32-byte key that is not in the set and does not truncate to a sentinel gets a witness,
  -- and the witness verifies its absence.
  pub absence_complete :
      Decodes fld
      → (depth : ℕ) (s : ExclusionSet) (key : Bytes) → depth < 64
      → IsOrdered s
      → length s.ordered + 1 ≤ 2 ^ depth
      → IsDigest key
      → contains (le_value (truncate_key key)) s.ordered ≡ false
      → 0 < le_value (truncate_key key)
      → le_value (truncate_key key) < top
      → (w : AbsenceWitness) × (absence_witness fld depth s key ≡ some w)
        × (verifies_absent fld key w (root fld depth s) ≡ true)
  unfolding root verifies root_from
  absence_complete decodes depth s key small ord room d gone above below =
      let t : ℕ = le_value (truncate_key key) in
      let (a, b, at, la, lb) = gap_around 0 top t s.ordered above below ord.ascending gone in
      let position : ℕ = count_upto t s.ordered in
      let e : get_elem? (gaps s) position ≡ some (gap_bytes (a, b)) =
        rw (gaps-numbers s, get_elem?-map gap_bytes _ position, at) in
      let leaf : get_elem? (gap_tree fld depth s).leaves position
          ≡ some (leaf_bytes fld (gap_bytes (a, b))) =
        rw (
          leaves-gap_tree fld depth s small room,
          get_elem?-map (leaf_bytes fld) (gaps s) position,
          e,
        ) in
      let inside : position < 2 ^ depth =
        omega (arith, get_elem?-lt (gaps s) position e, length-gaps s) in
      let (path, found, ok) =
        witness-verifies fld decodes depth (gap_tree fld depth s) position
          (leaf_bytes fld (gap_bytes (a, b))) inside leaf (ap to_bytes (decodes _)) in
      let w : AbsenceWitness = record { low = le_bytes 32 a; high = le_bytes 32 b; path = path } in
      let va : le_value (le_bytes 32 a) ≡ a = digest_value a (omega (arith, truncate_key-lt d)) in
      let bounded : b < 2 ^ 253 =
        (gap-bounded 0 position a b s.ordered (omega arith) ord.bounded at).1 in
      let vb : le_value (le_bytes 32 b) ≡ b = digest_value b bounded in
      let dt : IsDigest (truncate_key key) = truncate_key-IsDigest d in
      (
        w,
        absence_witness-found fld depth s key (le_bytes 32 a) (le_bytes 32 b) path e found,
        verifies_absent-true fld key w (Tree.root fld depth (gap_tree fld depth s))
            (truncate_key_fixed (le_bytes-IsDigest a) (rw va (omega (arith, truncate_key-lt d))))
            (truncate_key_fixed (le_bytes-IsDigest b) (rw vb bounded))
            (less-true fld (le_bytes-IsDigest a) dt (rw va la))
            (less-true fld dt (le_bytes-IsDigest b) (rw vb lb))
            (ap (λ (x : F). fold fld x path) (sym (decodes _)) ∙ bytes_eq_sound _ _ ok),
      )
