-- ===== src/Operator/Quorum.antt =====
-- nymora-protocol/src/operator/quorum.rs and decision.rs: propose, approve, execute.
pub mod Effect
pub mod Executes
pub mod Approves
use nymora.Prelude.{
  ℕ, ◌+◌, Bool, not, ◌||◌, Option, none, some, List, [], ◌∷◌, ◌++◌, ltb, ◌==◌, if◌then◌else◌,
  contains, length,
}
use nymora.Prelude.Map
use nymora.Prelude.NatSet
use nymora.Prelude.Bytes.{Bytes, le_bytes, be_bytes, be_value}
use nymora.Core.Error.{ok, err, LocalReason, ProtocolError}
use nymora.Core.Domain.{Domain}
use nymora.Crypto.Primitives.{Primitives}
use nymora.Crypto.Hash
use nymora.Proofs.{ProofSystem, verify_policy_approval}
use nymora.Operator.Log
use nymora.Operator.Log.{TransparencyLog}
use nymora.Operator.State.{
  AgoraState, ClassState, Decision, policy, revocation, dissolution, inbox_horizon, class, dissolve,
  live, roots_in,
}
use nymora.Operator.State.Exec.{Exec, pure, reads, gets, modify, or_reject, reject_if, ◌>>=◌, ◌>>◌}
use nymora.Operator.Envelope.{Envelope}
use nymora.Operator.Boundary.{advance_epoch}
use nymora.Operator.Inbox.{min_inbox_horizon}

-- `Decision::domain`
unfoldable pub decision_domain : Decision → Domain
decision_domain (policy _ _ _) = Domain.proposal_policy
decision_domain (revocation _) = Domain.proposal_revocation
decision_domain dissolution = Domain.proposal_dissolution
decision_domain (inbox_horizon _) = Domain.proposal_horizon

-- `Decision::absorb_content`
unfoldable pub decision_values : Decision → List Bytes
decision_values (policy c threshold quorum) =
    be_bytes 32 c ∷ le_bytes 4 threshold ∷ le_bytes 4 quorum ∷ []
decision_values (revocation leaf) = be_bytes 32 leaf ∷ []
decision_values dissolution = []
decision_values (inbox_horizon boundaries) = le_bytes 8 boundaries ∷ []

-- What `subject_id` absorbs after the domain, in order.
unfoldable pub subject_values : ℕ → ℕ → ℕ → Decision → Bytes → List Bytes
subject_values agora opened approving_class decision nonce =
    be_bytes 32 agora ∷ le_bytes 8 opened ∷ be_bytes 32 approving_class ∷ decision_values decision
    ++ nonce ∷ []

-- `subject_id`
unfoldable pub subject_id : Primitives → ℕ → ℕ → ℕ → Decision → Bytes → Bytes
subject_id prim agora opened approving_class decision nonce = Hash.finalize prim (
    Hash.absorb_all (subject_values agora opened approving_class decision nonce)
      (Hash.new (decision_domain decision)))

-- `if … { return Err(ProtocolError::Malformed) }`
abbrev pub malformed_if : Bool → Exec (Unit {0})
malformed_if b s = (if b then err ProtocolError.malformed else ok tt, s)

-- The two guards of `propose` on the decision itself.
unfoldable pub check_decision : Decision → Exec (Unit {0})
check_decision (policy c threshold quorum) = do
  reads (class c)
  malformed_if (threshold == 0 || quorum == 0)
check_decision (inbox_horizon boundaries) = malformed_if (ltb boundaries min_inbox_horizon)
check_decision (revocation leaf) = pure tt
check_decision dissolution = pure tt

unfoldable pub propose : Primitives → Decision → ℕ → Bytes → Exec ℕ
propose prim decision approving_class nonce = do
  reads live
  reads (class approving_class)
  check_decision decision
  subject ← gets (λ s. be_value (subject_id prim s.agora s.epoch approving_class decision nonce))
  modify (λ s. record s {
    proposals =
        Map.insert subject
          (record {
            decision = decision;
            approving_class = approving_class;
            opened = s.epoch;
            nonce = nonce;
            approvals = [];
          })
          s.proposals;
  })
  pure subject

pub record ProposalView : Type 0 where
  pub decision : Decision
  pub approving_class : ℕ
  pub opened : ℕ
  pub nonce : Bytes

-- `proposal`
unfoldable pub proposal_view : ℕ → AgoraState → Option ProposalView
proposal_view subject s = elim (Map.lookup subject s.proposals) [
  | none ↦ none
  | some p ↦ some (record {
    decision = p.decision;
    approving_class = p.approving_class;
    opened = p.opened;
    nonce = p.nonce;
  })
]

-- `approvals.insert(nullifier)` on the open proposal, refused where it is there already.
unfoldable pub record_approval : ℕ → ℕ → Exec (Unit {0})
record_approval subject nullifier = do
  proposal ←
      or_reject (Map.lookup subject (← gets (λ s. s.proposals))) LocalReason.epoch_out_of_range
  reject_if (contains nullifier proposal.approvals) LocalReason.duplicate_nullifier
  modify (λ s. record s {
    proposals =
        Map.insert subject
          (record proposal { approvals = NatSet.insert nullifier proposal.approvals }) s.proposals;
  })

unfoldable pub approve : (system : ProofSystem) → ℕ → system.Proof → ℕ → Exec (Unit {0})
approve system subject proof nullifier = do
  reads live
  agora ← gets (λ s. s.agora)
  epoch ← gets (λ s. s.epoch)
  proposal ←
      or_reject (Map.lookup subject (← gets (λ s. s.proposals))) LocalReason.epoch_out_of_range
  roots ← reads (roots_in epoch proposal.approving_class)
  reject_if
      (not (verify_policy_approval system proof agora epoch roots (be_bytes 32 subject) nullifier))
      LocalReason.proof_invalid
  record_approval subject nullifier

pub data Executed : Type 0 where
  policy_activated : ℕ → Executed
  revoked : Envelope → Executed
  dissolved : Executed
  horizon_changed : ℕ → Executed

-- The class with its new threshold and its next version.
unfoldable pub activate : ℕ → ClassState → ClassState
activate threshold state = record state {
  policy = record state.policy { admission_threshold = threshold };
  version = state.version + 1;
}

-- The `Decision::Policy` arm of `execute`.
unfoldable pub execute_policy : Primitives → ℕ → ℕ → ℕ → Exec Executed
execute_policy prim c threshold quorum = do
  state ← or_reject (Map.lookup c (← gets (λ s. s.classes))) LocalReason.policy_denied
  let version = state.version + 1
  modify (λ s. record s {
    classes = Map.insert c (activate threshold state) s.classes;
    governance_quorum = quorum;
    log = elim s.log as (λ _. Option TransparencyLog) [
      | none ↦ none
      | some log ↦ some (Log.append prim (Log.policy_changed s.epoch c version) log)
    ];
  })
  pure (policy_activated version)

unfoldable pub execute_decision : Primitives → ℕ → Decision → Exec Executed
execute_decision prim depth (policy c threshold quorum) = execute_policy prim c threshold quorum
execute_decision prim depth (revocation leaf) = do
  modify (λ s. record s {
    staged = record s.staged { revocations = s.staged.revocations ++ leaf ∷ [] };
  })
  envelope ← advance_epoch prim depth
  pure (revoked envelope)
execute_decision prim depth dissolution = do modify (dissolve prim depth); pure dissolved
execute_decision prim depth (inbox_horizon boundaries) = do
  modify (λ s. record s { inbox_horizon = boundaries })
  pure (horizon_changed boundaries)

unfoldable pub execute : Primitives → ℕ → ℕ → Exec Executed
execute prim depth subject = do
  reads live
  quorum ← gets (λ s. s.governance_quorum)
  proposal ←
      or_reject (Map.lookup subject (← gets (λ s. s.proposals))) LocalReason.epoch_out_of_range
  reject_if (ltb (length proposal.approvals) quorum) LocalReason.threshold_not_met
  modify (λ s. record s { proposals = Map.remove subject s.proposals })
  execute_decision prim depth proposal.decision
