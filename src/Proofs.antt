-- ===== src/Proofs.antt =====
-- nymora-circuits/src/{statement,system}.rs and nymora-proofs/src/action.rs: the public inputs of the
-- three statements, the verifying half of the `ProofSystem` boundary, and the per-action checks.
use nymora.Prelude.{ℕ, Bool}
use nymora.Prelude.Bytes.{Bytes}

-- The clause of the one chain circuit that an action adds, with its public values.
pub data Action : Type 0 where
  authorship : Bytes → ℕ → Action
  vouch : ℕ → ℕ → Action
  policy_approval : Bytes → ℕ → Action
  live_auth : Bytes → Bytes → Action
  verification_access : ℕ → Action

-- The roots in force for one class at one epoch.
pub record EpochRoots : Type 0 where
  pub class_root : Bytes
  pub revocation : Bytes
  pub spend : Bytes

pub record ChainPublicInputs : Type 0 where
  pub agora : ℕ
  pub epoch : ℕ
  pub class_root : Bytes
  pub revocation_root : Bytes
  pub spend_root : Bytes
  pub action : Action

pub record MigrationPublicInputs : Type 0 where
  pub agora : ℕ
  pub class_root : Bytes
  pub revocation_root : Bytes
  pub spend_nullifier : ℕ
  pub successor_commitment : ℕ

pub data InboxAction : Type 0 where
  retire renew : InboxAction

pub record InboxPublicInputs : Type 0 where
  pub agora : ℕ
  pub leaf : ℕ
  pub inbox_public_key : Bytes
  pub action : InboxAction

-- A proving backend, as a verifier sees it.
pub record ProofSystem : Type 1 where
  pub Proof : Type 0
  pub MigrationProof : Type 0
  pub InboxProof : Type 0
  pub verify : Proof → ChainPublicInputs → Bool
  pub verify_migration_statement : MigrationProof → MigrationPublicInputs → Bool
  pub verify_inbox_statement : InboxProof → InboxPublicInputs → Bool

unfoldable pub chain_publics : ℕ → ℕ → EpochRoots → Action → ChainPublicInputs
chain_publics agora epoch roots action = record {
  agora = agora;
  epoch = epoch;
  class_root = roots.class_root;
  revocation_root = roots.revocation;
  spend_root = roots.spend;
  action = action;
}

module _ (system : ProofSystem) where
  open system use {Proof, MigrationProof, InboxProof}

  unfoldable pub verify_authorship : Proof → ℕ → ℕ → EpochRoots → Bytes → ℕ → Bool
  verify_authorship proof agora epoch roots message_hash claimed =
      system.verify proof (chain_publics agora epoch roots (authorship message_hash claimed))

  unfoldable pub verify_vouch : Proof → ℕ → ℕ → EpochRoots → ℕ → ℕ → Bool
  verify_vouch proof agora epoch roots session_id claimed =
      system.verify proof (chain_publics agora epoch roots (vouch session_id claimed))

  unfoldable pub verify_policy_approval : Proof → ℕ → ℕ → EpochRoots → Bytes → ℕ → Bool
  verify_policy_approval proof agora epoch roots proposal_id claimed =
      system.verify proof (chain_publics agora epoch roots (policy_approval proposal_id claimed))

  unfoldable pub verify_verification_access : Proof → ℕ → ℕ → EpochRoots → ℕ → Bool
  verify_verification_access proof agora epoch roots challenge =
      system.verify proof (chain_publics agora epoch roots (verification_access challenge))

  unfoldable pub verify_migration : MigrationProof → ℕ → Bytes → Bytes → ℕ → ℕ → Bool
  verify_migration proof agora class_root revocation_root spend successor =
      system.verify_migration_statement proof (record {
        agora = agora;
        class_root = class_root;
        revocation_root = revocation_root;
        spend_nullifier = spend;
        successor_commitment = successor;
      })

  unfoldable pub verify_inbox : InboxProof → ℕ → ℕ → Bytes → InboxAction → Bool
  verify_inbox proof agora leaf inbox action =
      system.verify_inbox_statement proof
        (record { agora = agora; leaf = leaf; inbox_public_key = inbox; action = action })
