-- ===== src/Operator/Trace.antt =====
-- The operator as a machine: the calls a host can make of `AgoraState`, and the state after them.
pub mod Dissolved
pub mod Quiet
pub mod History
pub mod Reachable
pub mod Members
use nymora.Prelude.{ℕ, List, [], ◌∷◌}
use nymora.Prelude.Bytes.{Bytes}
use nymora.Core.Error.{Outcome, ok, err, panic}
use nymora.Crypto.Primitives.{Primitives}
use nymora.Proofs.{ProofSystem, InboxAction}
use nymora.Operator.State.{AgoraState, Decision}
use nymora.Operator.Boundary.{advance_epoch}
use nymora.Operator.Vouch.{credentials_init, start_vouch, vouch_attest, vouch_finalize}
use nymora.Operator.Quorum.{propose, approve, execute}
use nymora.Operator.Access.{issue_challenge, redeem_access}
use nymora.Operator.Migrate.{migrate}
use nymora.Operator.Inbox.{inbox_certificate}

-- The outcome without its value.
abbrev pub forget : {A : Type 0} → Outcome A → Outcome (Unit {0})
forget (ok _) = ok tt
forget (err e) = err e
forget panic = panic

module _ (prim : Primitives) (system : ProofSystem) (depth : ℕ) where
  -- The `&mut self` methods, with their arguments.
  pub data Call : Type 0 where
    init_credentials : ℕ → Bytes → Call
    start : ℕ → ℕ → ℕ → Call
    attest : ℕ → system.Proof → ℕ → Call
    finalize : ℕ → Call
    raise_decision : Decision → ℕ → Bytes → Call
    approve_decision : ℕ → system.Proof → ℕ → Call
    execute_subject : ℕ → Call
    challenge : ℕ → Call
    redeem : ℕ → system.Proof → ℕ → Call
    migrate_leaf : ℕ → system.MigrationProof → ℕ → ℕ → Bytes → Call
    instruct_inbox : ℕ → Bytes → InboxAction → system.InboxProof → Call
    advance : Call

  -- The state that a call leaves, whatever it answers.
  unfoldable pub run : Call → AgoraState → AgoraState
  run (init_credentials commitment inbox) s = (credentials_init commitment inbox s).1
  run (start candidate target id) s = (start_vouch depth candidate target id s).1
  run (attest session proof nullifier) s = (vouch_attest system session proof nullifier s).1
  run (finalize session) s = (vouch_finalize depth session s).1
  run (raise_decision decision c nonce) s = (propose prim decision c nonce s).1
  run (approve_decision subject proof nullifier) s = (approve system subject proof nullifier s).1
  run (execute_subject subject) s = (execute prim depth subject s).1
  run (challenge entropy) s = (issue_challenge entropy s).1
  run (redeem c proof entropy) s = (redeem_access system c proof entropy s).1
  run (migrate_leaf c proof spend successor inbox) s =
      (migrate system depth c proof spend successor inbox s).1
  run (instruct_inbox leaf inbox action proof) s =
      (inbox_certificate system leaf inbox action proof s).1
  run advance s = (advance_epoch prim depth s).1

  -- Whether a call answers, or how it fails.
  unfoldable pub answer : Call → AgoraState → Outcome (Unit {0})
  answer (init_credentials commitment inbox) s = forget (credentials_init commitment inbox s).0
  answer (start candidate target id) s = forget (start_vouch depth candidate target id s).0
  answer (attest session proof nullifier) s =
      forget (vouch_attest system session proof nullifier s).0
  answer (finalize session) s = forget (vouch_finalize depth session s).0
  answer (raise_decision decision c nonce) s = forget (propose prim decision c nonce s).0
  answer (approve_decision subject proof nullifier) s =
      forget (approve system subject proof nullifier s).0
  answer (execute_subject subject) s = forget (execute prim depth subject s).0
  answer (challenge entropy) s = forget (issue_challenge entropy s).0
  answer (redeem c proof entropy) s = forget (redeem_access system c proof entropy s).0
  answer (migrate_leaf c proof spend successor inbox) s =
      forget (migrate system depth c proof spend successor inbox s).0
  answer (instruct_inbox leaf inbox action proof) s =
      forget (inbox_certificate system leaf inbox action proof s).0
  answer advance s = forget (advance_epoch prim depth s).0

  unfoldable pub run_all : List Call → AgoraState → AgoraState
  run_all [] s = s
  run_all (call ∷ calls) s = run_all calls (run call s)
