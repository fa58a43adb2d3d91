-- ===== src/Operator/Quorum/Executes.antt =====
-- What the execution of a decided proposal requires and brings about, and that a proposal is
-- executed once.
use nymora.Prelude.{ℕ, ◌≤◌, ◌≡◌, false, some, length}
use nymora.Prelude.Map
use nymora.Crypto.Primitives.{Primitives}
use nymora.Operator.State.{AgoraState, Proposal}
use nymora.Operator.Quorum.{execute, execute_decision}

module _ (prim : Primitives) (depth : ℕ) where
  -- The state that the decision of a proposal is executed in.
  abbrev without : ℕ → AgoraState → AgoraState
  without subject s = record s { proposals = Map.remove subject s.proposals }

  record Decided (subject : ℕ) (s : AgoraState) : Type 0 where
    pub proposal : Proposal
    pub here : s.dissolved ≡ false
    pub found : Map.lookup subject s.proposals ≡ some proposal
    pub met : s.governance_quorum ≤ length proposal.approvals
    pub decided :
        execute prim depth subject s
        ≡ execute_decision prim depth proposal.decision (without subject s)
