-- ===== src/Operator/Trace/Quiet.antt =====
-- What every call but `execute` and `advance_epoch` leaves alone.
use nymora.Prelude.{ℕ, ◌≡◌, arith}
use nymora.Prelude.Bytes.{Bytes}
use nymora.Crypto.Primitives.{Primitives}
use nymora.Proofs.{ProofSystem, InboxAction, retire, renew}
use nymora.Operator.State.{AgoraState, Decision, policy}
use nymora.Operator.Vouch.{
  credentials_init, start_vouch, vouch_attest, record_nullifier, vouch_finalize, stage_admission,
  admission_at,
}
use nymora.Operator.Quorum.{propose, check_decision, approve, record_approval}
use nymora.Operator.Access.{issue_challenge, redeem_access, consume_challenge}
use nymora.Operator.Migrate.{migrate}
use nymora.Operator.Inbox.{inbox_certificate, apply_action}

pub record Quiet (s t : AgoraState) : Type 0 where
  pub agora : t.agora ≡ s.agora
  pub epoch : t.epoch ≡ s.epoch
  pub governance_quorum : t.governance_quorum ≡ s.governance_quorum
  pub classes : t.classes ≡ s.classes
  pub revocations : t.revocations ≡ s.revocations
  pub spends : t.spends ≡ s.spends
  pub history : t.history ≡ s.history
  pub tag_secret : t.tag_secret ≡ s.tag_secret
  pub statement_seed : t.statement_seed ≡ s.statement_seed
  pub log : t.log ≡ s.log
  pub dissolved : t.dissolved ≡ s.dissolved
  pub revoked_leaves : t.revoked_leaves ≡ s.revoked_leaves
  pub inbox_horizon : t.inbox_horizon ≡ s.inbox_horizon

module _ (system : ProofSystem) (depth : ℕ) where
  pub credentials_init-Quiet :
      (c : ℕ) (i : Bytes) (s : AgoraState) → Quiet s (credentials_init c i s).1
  unfolding credentials_init
  credentials_init-Quiet c i s = ground arith

  pub start_vouch-Quiet : (a b c : ℕ) (s : AgoraState) → Quiet s (start_vouch depth a b c s).1
  unfolding start_vouch
  start_vouch-Quiet a b c s = ground arith

  pub vouch_attest-Quiet :
      (a : ℕ) (p : system.Proof) (n : ℕ) (s : AgoraState) → Quiet s (vouch_attest system a p n s).1
  unfolding vouch_attest record_nullifier
  vouch_attest-Quiet a p n s = ground arith

  pub stage_admission-Quiet : (c l : ℕ) (s : AgoraState) → Quiet s (stage_admission depth c l s).1
  unfolding stage_admission admission_at
  stage_admission-Quiet c l s = ground arith

  pub vouch_finalize-Quiet : (a : ℕ) (s : AgoraState) → Quiet s (vouch_finalize depth a s).1
  unfolding vouch_finalize stage_admission admission_at
  vouch_finalize-Quiet a s = ground arith

  pub propose-Quiet :
      (prim : Primitives) (d : Decision) (c : ℕ) (n : Bytes) (s : AgoraState)
      → Quiet s (propose prim d c n s).1
  unfolding propose check_decision
  propose-Quiet prim (policy a b e) c n s = ground arith
  propose-Quiet prim d c n s = ground arith

  pub approve-Quiet :
      (a : ℕ) (p : system.Proof) (n : ℕ) (s : AgoraState) → Quiet s (approve system a p n s).1
  unfolding approve record_approval
  approve-Quiet a p n s = ground arith

  pub issue_challenge-Quiet : (a : ℕ) (s : AgoraState) → Quiet s (issue_challenge a s).1
  unfolding issue_challenge
  issue_challenge-Quiet a s = ground arith

  pub redeem_access-Quiet :
      (c : ℕ) (p : system.Proof) (n : ℕ) (s : AgoraState) → Quiet s (redeem_access system c p n s).1
  unfolding redeem_access consume_challenge
  redeem_access-Quiet c p n s = ground arith

  pub migrate-Quiet :
      (c : ℕ) (p : system.MigrationProof) (n l : ℕ) (i : Bytes) (s : AgoraState)
      → Quiet s (migrate system depth c p n l i s).1
  unfolding migrate stage_admission admission_at
  migrate-Quiet c p n l i s = ground arith

  pub inbox_certificate-Quiet :
      (l : ℕ) (i : Bytes) (a : InboxAction) (p : system.InboxProof) (s : AgoraState)
      → Quiet s (inbox_certificate system l i a p s).1
  unfolding inbox_certificate apply_action
  inbox_certificate-Quiet l i retire p s = ground arith
  inbox_certificate-Quiet l i renew p s = ground arith
