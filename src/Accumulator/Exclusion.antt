-- ===== src/Accumulator/Exclusion.antt =====
-- nymora-accumulator/src/exclusion.rs: the keyed exclusion sets, their gap trees and the absence
-- check. A 32-byte array is a list of bytes; the set keeps each key in ordering (big-endian)
-- form, as the number that those bytes spell, so the order of the collection is that of numbers.
pub mod Order
pub mod Gaps
pub mod Absence
use nymora.Prelude.{
  ℕ, zero, suc, ◌%◌, Bool, true, false, not, ◌&&◌, ◌||◌, Option, none, some, List, [], ◌∷◌, ◌++◌,
  map, reverse, ltb, leb, ◌==◌, if◌then◌else◌, replicate, get_elem?, bytes_eq,
}
use nymora.Prelude.NatSet
use nymora.Prelude.Bytes.{Bytes, be_bytes, be_value}
use nymora.Crypto.Field.{Field}
use nymora.Accumulator.Witness.{Witness, fold, zero_node}
use nymora.Accumulator.Tree
use nymora.Accumulator.Tree.{Tree}

-- `out[i] = f(out[i])`
unfoldable pub update_at : ℕ → (ℕ → ℕ) → Bytes → Bytes
update_at i f [] = []
update_at zero f (b ∷ bs) = f b ∷ bs
update_at (suc i) f (b ∷ bs) = b ∷ update_at i f bs

-- `out[31] &= 0x1f`
unfoldable pub truncate_key : Bytes → Bytes
truncate_key key = update_at 31 (λ b. b % 0x20) key

unfoldable pub upper_sentinel : Bytes
upper_sentinel = replicate 31 0xff ++ 0x1f ∷ []

-- The loop of `ct_less`, from the most significant byte; both flags are updated on every byte.
unfoldable pub ct_less_loop : Bool → Bool → Bytes → Bytes → Bool
ct_less_loop less equal [] bs = less
ct_less_loop less equal (a ∷ as_) [] = less
ct_less_loop less equal (a ∷ as_) (b ∷ bs) =
    ct_less_loop (less || (equal && ltb a b)) (equal && (a == b)) as_ bs

unfoldable pub ct_less : Bytes → Bytes → Bool
ct_less a b = ct_less_loop false true (reverse a) (reverse b)

pub record AbsenceWitness : Type 0 where
  pub low : Bytes
  pub high : Bytes
  pub path : Witness

module _ (fld : Field) where
  open fld use {F, from_witness_bytes, from_u64, hash}

  -- The domain tag of a gap leaf is `field_domain::GAP`, 2.
  unfoldable pub gap_leaf : Bytes → Bytes → F
  gap_leaf low high = hash (from_u64 2 ∷ from_witness_bytes low ∷ from_witness_bytes high ∷ [])

  unfoldable pub verifies_absent : Bytes → AbsenceWitness → Bytes → Bool
  verifies_absent key w root =
      if not (bytes_eq (truncate_key w.low) w.low) || not (bytes_eq (truncate_key w.high) w.high)
      then false
      else let t = truncate_key key in
        let contained = ct_less w.low t && ct_less t w.high in
        let recomputed = fold fld (gap_leaf w.low w.high) w.path in
        contained && bytes_eq recomputed root

pub record ExclusionSet : Type 0 where
  pub ordered : List ℕ

abbrev pub new_set : ExclusionSet
new_set = record { ordered = [] }

-- `to_ordering` and `to_le` reverse the bytes.
unfoldable pub to_ordering : Bytes → ℕ
to_ordering le = be_value (reverse le)

unfoldable pub to_le : ℕ → Bytes
to_le be = reverse (be_bytes 32 be)

unfoldable pub insert : Bytes → ExclusionSet → ExclusionSet
insert key s = record { ordered = NatSet.insert (to_ordering (truncate_key key)) s.ordered }

unfoldable pub keys : ExclusionSet → List Bytes
keys s = map to_le s.ordered

-- `windows(2)`
unfoldable pub windows {ℓ} : {A : Type ℓ} → List A → List (A × A)
windows [] = []
windows (a ∷ []) = []
windows (a ∷ b ∷ rest) = (a, b) ∷ windows (b ∷ rest)

unfoldable pub gaps : ExclusionSet → List (Bytes × Bytes)
gaps s = windows (zero_node ∷ keys s ++ upper_sentinel ∷ [])

-- `range(..=t).count()` of an ordered collection
unfoldable pub count_upto : ℕ → List ℕ → ℕ
count_upto t [] = 0
count_upto t (k ∷ rest) = let more = suc (count_upto t rest) in if leb k t then more else 0

module _ (fld : Field) where
  -- The loop of `tree`; what `append` answers is dropped.
  unfoldable pub append_gaps : ℕ → Tree → List (Bytes × Bytes) → Tree
  append_gaps depth t [] = t
  append_gaps depth t ((low, high) ∷ rest) =
      append_gaps depth (Tree.append depth t (fld.to_bytes (gap_leaf fld low high))).1 rest

  unfoldable pub gap_tree : ℕ → ExclusionSet → Tree
  gap_tree depth s = append_gaps depth Tree.new_tree (gaps s)

  unfoldable pub root : ℕ → ExclusionSet → Bytes
  root depth s = Tree.root fld depth (gap_tree depth s)

  -- `none` where the code panics: no such gap, or a gap that the full tree did not take.
  unfoldable pub absence_witness : ℕ → ExclusionSet → Bytes → Option AbsenceWitness
  absence_witness depth s key =
      let position = count_upto (to_ordering (truncate_key key)) s.ordered in
      elim (get_elem? (gaps s) position) [
        | none ↦ none
        | some (low, high) ↦ elim (Tree.witness fld depth (gap_tree depth s) position) [
          | none ↦ none
          | some path ↦ some (record { low = low; high = high; path = path })
        ]
      ]
