-- ===== src/Accumulator/Witness.antt =====
-- nymora-accumulator/src/witness.rs: inclusion witnesses and the fold that every role performs.
-- The const parameter `DEPTH` is an argument, and `[Node; DEPTH]` is a list of that length.
pub mod Binding
use nymora.Prelude.{
  ℕ, zero, suc, ◌%◌, ◌/◌, ◌^◌, Bool, ◌&&◌, Option, none, some, List, [], ◌∷◌, ltb, leb, ◌==◌,
  if◌then◌else◌, length, replicate, bytes_eq,
}
use nymora.Prelude.Bytes.{Bytes}
use nymora.Crypto.Field.{Field}

pub record Witness : Type 0 where
  pub index : ℕ
  pub siblings : List Bytes

abbrev pub zero_node : Bytes
zero_node = replicate 32 0

-- `Witness::new`: an index that the tree has no leaf for is refused.
unfoldable pub new : ℕ → ℕ → List Bytes → Option Witness
new depth index siblings =
    if ltb depth 64 && leb (2 ^ depth) index
    then none
    else some (record { index = index; siblings = siblings })

module _ (fld : Field) where
  open fld use {F, to_bytes, from_witness_bytes, hash}

  unfoldable pub hash_node : Bytes → Bytes → Bytes
  hash_node left right = to_bytes (hash (from_witness_bytes left ∷ from_witness_bytes right ∷ []))

  -- The loop of `empty_node`, from any node.
  unfoldable pub empty_above : Bytes → ℕ → Bytes
  empty_above node zero = node
  empty_above node (suc level) = empty_above (hash_node node node) level

  unfoldable pub empty_node : ℕ → Bytes
  empty_node level = empty_above zero_node level

  -- The loop of `from_prefix`: the slots past the prefix take the empty value of their level.
  unfoldable pub fill : ℕ → List Bytes → Bytes → List Bytes
  fill zero prefix empty = []
  fill (suc slots) [] empty = empty ∷ fill slots [] (hash_node empty empty)
  fill (suc slots) (node ∷ prefix) empty = node ∷ fill slots prefix (hash_node empty empty)

  unfoldable pub from_prefix : ℕ → ℕ → List Bytes → Option Witness
  from_prefix depth index prefix =
      if ltb depth (length prefix) then none else new depth index (fill depth prefix zero_node)

  -- One level of the fold. The bit set means that this node is the right child.
  unfoldable pub fold_step : F → ℕ → Bytes → F
  fold_step current index sibling =
      if index % 2 == 1
      then hash (from_witness_bytes sibling ∷ current ∷ [])
      else hash (current ∷ from_witness_bytes sibling ∷ [])

  -- The loop of `fold`; the index is halved at each level, so its lowest bit is `index >> level`.
  unfoldable pub fold_from : F → ℕ → List Bytes → F
  fold_from current index [] = current
  fold_from current index (sibling ∷ siblings) =
      fold_from (fold_step current index sibling) (index / 2) siblings

  unfoldable pub fold : F → Witness → Bytes
  fold leaf w = to_bytes (fold_from leaf w.index w.siblings)

  unfoldable pub root_from : Bytes → Witness → Bytes
  root_from value w = fold (from_witness_bytes value) w

  unfoldable pub verifies : Bytes → Witness → Bytes → Bool
  verifies value w root = bytes_eq (root_from value w) root
