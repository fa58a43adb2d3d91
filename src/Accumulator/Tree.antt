-- ===== src/Accumulator/Tree.antt =====
-- nymora-accumulator/src/tree.rs: the operator's append-only Merkle tree of a fixed depth.
-- The vector of occupied levels is the function from the level to its nodes.
pub mod Inclusion
pub mod Prefix
use nymora.Prelude.{
  ℕ, zero, suc, ◌+◌, ◌-◌, ◌%◌, ◌/◌, ◌^◌, Option, none, some, List, [], ◌∷◌, ◌++◌, ltb, leb, ◌==◌,
  if◌then◌else◌, length, get_or,
}
use nymora.Prelude.Bytes.{Bytes}
use nymora.Crypto.Field.{Field}
use nymora.Accumulator.Witness
use nymora.Accumulator.Witness.{Witness, hash_node, empty_node}

pub record Tree : Type 0 where
  pub leaves : List Bytes

abbrev pub new_tree : Tree
new_tree = record { leaves = [] }

-- `None` when the depth is too large to count in a `u64`.
unfoldable pub capacity : ℕ → Option ℕ
capacity depth = if ltb depth 64 then some (2 ^ depth) else none

unfoldable pub is_full : Option ℕ → ℕ → mathlib.Core.Bool.Bool
is_full none position = mathlib.Core.Bool.false
is_full (some max) position = leb max position

unfoldable pub append : ℕ → Tree → Bytes → Option ℕ × Tree
unfolding capacity is_full
append depth t value =
    if is_full (capacity depth) (length t.leaves)
    then (none, t)
    else (some (length t.leaves), record { leaves = t.leaves ++ value ∷ [] })

-- `usize::BITS - n.leading_zeros()`, a bit at a time; 64 rounds read every `usize`.
unfoldable pub bit_length : ℕ → ℕ → ℕ
bit_length zero n = 0
bit_length (suc bits) n = let rest = bit_length bits (n / 2) in if n == 0 then 0 else suc rest

unfoldable pub occupied_height : Tree → ℕ
occupied_height t = if leb (length t.leaves) 1 then 0 else bit_length 64 (length t.leaves - 1)

-- `index ^ 1`
unfoldable pub sibling_index : ℕ → ℕ
sibling_index index = if index % 2 == 0 then index + 1 else index - 1

module _ (fld : Field) where
  -- The nodes above a level: pairs are hashed, and a missing right child is the empty value.
  unfoldable pub pair_up : Bytes → List Bytes → List Bytes
  pair_up empty [] = []
  pair_up empty (left ∷ []) = hash_node fld left empty ∷ []
  pair_up empty (left ∷ right ∷ below) = hash_node fld left right ∷ pair_up empty below

  unfoldable pub occupied_level : List Bytes → ℕ → List Bytes
  occupied_level leaves zero = leaves
  occupied_level leaves (suc level) = pair_up (empty_node fld level) (occupied_level leaves level)

  unfoldable pub root : ℕ → Tree → Bytes
  root depth t = get_or (occupied_level t.leaves depth) 0 (empty_node fld depth)

  -- The loop of `witness`, from `level` on.
  unfoldable pub siblings_from : List Bytes → ℕ → ℕ → ℕ → List Bytes
  siblings_from leaves level zero index = []
  siblings_from leaves level (suc levels) index =
      get_or (occupied_level leaves level) (sibling_index index) (empty_node fld level)
      ∷ siblings_from leaves (suc level) levels (index / 2)

  unfoldable pub witness : ℕ → Tree → ℕ → Option Witness
  witness depth t position =
      if leb (length t.leaves) position
      then none
      else Witness.new depth position (siblings_from t.leaves 0 depth position)
