-- ===== src/Operator/Create.antt =====
-- nymora-protocol/src/operator/mod.rs, `AgoraState::create`: the founding of an agora.
use nymora.Prelude.{
  ℕ, Bool, true, false, not, ◌||◌, Option, none, some, List, [], ◌∷◌, ◌==◌, if◌then◌else◌,
}
use nymora.Prelude.Map
use nymora.Prelude.Map.{Map}
use nymora.Prelude.Bytes.{Bytes}
use nymora.Core.Error.{Outcome, ok, err, ProtocolError}
use nymora.Crypto.Primitives.{Primitives}
use nymora.Accumulator.Tree
use nymora.Accumulator.Exclusion
use nymora.Operator.Log
use nymora.Operator.Log.{TransparencyLog}
use nymora.Operator.State.{AgoraState, ClassPolicy, ClassState, nothing_staged, land, snapshot}
use nymora.Operator.Inbox.{default_inbox_horizon}

pub record Founding : Type 0 where
  pub agora : ℕ
  pub genesis : ℕ
  pub founder : ℕ
  pub classes : List (ℕ × ClassPolicy)
  pub founder_classes : List ℕ
  pub founder_inbox : Bytes

unfoldable pub insert_classes : List (ℕ × ClassPolicy) → Map ClassState → Map ClassState
insert_classes [] m = m
insert_classes ((c, policy) ∷ rest) m = insert_classes rest (
    Map.insert c
      (record { tree = Tree.new_tree; policy = policy; version = 1; occupied = 0; positions = [] })
      m)

-- The loop over the policies: true where it returns `Malformed`.
unfoldable pub is_inconsistent : List (ℕ × ClassPolicy) → Map ClassState → Bool
is_inconsistent [] m = false
is_inconsistent ((c, policy) ∷ rest) m =
    policy.admission_threshold == 0
    || not (Map.has_key policy.voucher_class m)
    || is_inconsistent rest m

-- The loop over the founder's classes; `none` where it returns `Malformed`.
unfoldable pub land_founder : ℕ → ℕ → List ℕ → Map ClassState → Option (Map ClassState)
land_founder depth founder [] m = some m
land_founder depth founder (c ∷ rest) m = elim (Map.lookup c m) [
  | none ↦ none
  | some state ↦
      let (position, state') = land depth founder state in
      elim position [
        | none ↦ none
        | some p ↦ land_founder depth founder rest (Map.insert c state' m)
      ]
]

-- `founding.classes.is_empty()`
unfoldable pub is_empty : List (ℕ × ClassPolicy) → Bool
is_empty [] = true
is_empty (x ∷ xs) = false

module _ (prim : Primitives) (depth : ℕ) where
  -- The state before the first snapshot.
  unfoldable pub founded : Founding → Bytes → Bytes → Option Bytes → Map ClassState → AgoraState
  founded f tag_secret statement_entropy log_seed classes = record {
    agora = f.agora;
    epoch = f.genesis;
    governance_quorum = 1;
    classes = classes;
    revocations = Exclusion.new_set;
    spends = Exclusion.new_set;
    staged = nothing_staged;
    pending = [];
    sessions = [];
    proposals = [];
    challenges = [];
    history = [];
    tag_secret = tag_secret;
    statement_seed = prim.mint_signing_secret statement_entropy;
    log = elim log_seed as (λ _. Option TransparencyLog) [
      | none ↦ none
      | some seed ↦ some (Log.new prim seed)
    ];
    dissolved = false;
    inboxes = Map.insert f.founder (record { key = f.founder_inbox; since = f.genesis }) [];
    staged_inboxes = [];
    revoked_leaves = [];
    inbox_horizon = default_inbox_horizon;
  }

  unfoldable pub create : Founding → Bytes → Bytes → Option Bytes → Outcome AgoraState
  create f tag_secret statement_entropy log_seed =
      let classes = insert_classes f.classes [] in
      if is_empty f.classes
      then err ProtocolError.malformed
      else if is_inconsistent f.classes classes
      then err ProtocolError.malformed
      else elim (land_founder depth f.founder f.founder_classes classes) [
        | none ↦ err ProtocolError.malformed
        | some landed ↦
            ok (snapshot prim depth (founded f tag_secret statement_entropy log_seed landed))
      ]
