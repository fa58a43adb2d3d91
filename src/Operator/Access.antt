-- ===== src/Operator/Access.antt =====
-- nymora-protocol/src/operator/access.rs: the member gate, and what it serves.
pub mod Gate
use nymora.Prelude.{ℕ, Bool, not, List, ltb, ◌==◌, if◌then◌else◌, contains}
use nymora.Prelude.NatSet
use nymora.Prelude.Bytes.{Bytes}
use nymora.Core.Error.{Outcome, ok, err, panic, refuse, because, LocalReason}
use nymora.Crypto.Primitives.{Primitives}
use nymora.Crypto.Inbox.{derive_tag_key}
use nymora.Proofs.{ProofSystem, EpochRoots, verify_verification_access, verify_authorship}
use nymora.Accumulator.Exclusion
use nymora.Operator.State.{AgoraState, live, roots_in}
use nymora.Operator.State.Exec.{Exec, pure, reads, gets, modify, reject_if, ◌>>=◌, ◌>>◌}

-- A capability for one epoch.
pub record MemberAccess : Type 0 where
  pub epoch : ℕ

unfoldable pub issue_challenge : ℕ → Exec ℕ
issue_challenge entropy = do
  reads live
  modify (λ s. record s { challenges = NatSet.insert entropy s.challenges })
  pure entropy

-- `if !self.challenges.remove(&challenge.0) { … }`
unfoldable pub consume_challenge : ℕ → Exec (Unit {0})
consume_challenge challenge = do
  known ← gets (λ s. contains challenge s.challenges)
  modify (λ s. record s { challenges = NatSet.remove challenge s.challenges })
  reject_if (not known) LocalReason.epoch_out_of_range

-- `admit`
unfoldable pub admit : MemberAccess → AgoraState → Outcome (Unit {0})
admit access s = elim (live s) [
  | err e ↦ err e
  | panic ↦ panic
  | ok _ ↦
      if access.epoch == s.epoch then ok tt else refuse (because LocalReason.epoch_out_of_range)
]

-- The `&self` methods behind the gate: `admit(access)?`, then the rest.
abbrev pub gated {ℓ} : {A : Type ℓ} → MemberAccess → AgoraState → Outcome A → Outcome A
gated access s served = elim (admit access s) [ err e ↦ err e | panic ↦ panic | ok _ ↦ served ]

unfoldable pub roots_at : MemberAccess → ℕ → ℕ → AgoraState → Outcome EpochRoots
roots_at access c epoch s = gated access s (roots_in epoch c s)

unfoldable pub tag_key_at : Primitives → MemberAccess → ℕ → AgoraState → Outcome Bytes
tag_key_at prim access epoch s = gated access s (
    if ltb s.epoch epoch
    then refuse (because LocalReason.epoch_out_of_range)
    else ok (derive_tag_key prim s.tag_secret s.agora epoch))

unfoldable pub revocation_keys : MemberAccess → AgoraState → Outcome (List Bytes)
revocation_keys access s = gated access s (ok (Exclusion.keys s.revocations))

unfoldable pub spend_keys : MemberAccess → AgoraState → Outcome (List Bytes)
spend_keys access s = gated access s (ok (Exclusion.keys s.spends))

module _ (system : ProofSystem) where
  unfoldable pub redeem_access : ℕ → system.Proof → ℕ → Exec MemberAccess
  redeem_access c proof challenge = do
    reads live
    consume_challenge challenge
    epoch ← gets (λ s. s.epoch)
    agora ← gets (λ s. s.agora)
    roots ← reads (roots_in epoch c)
    reject_if (not (verify_verification_access system proof agora epoch roots challenge))
        LocalReason.proof_invalid
    pure (record { epoch = epoch })

  unfoldable pub verify_attestation :
      MemberAccess → ℕ → ℕ → system.Proof → Bytes → ℕ → AgoraState → Outcome Bool
  verify_attestation access c epoch proof message nullifier s =
      gated access s (elim (roots_in epoch c s) [
        | err e ↦ err e
        | panic ↦ panic
        | ok roots ↦ ok (verify_authorship system proof s.agora epoch roots message nullifier)
      ])
