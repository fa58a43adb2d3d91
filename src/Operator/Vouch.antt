-- ===== src/Operator/Vouch.antt =====
-- nymora-protocol/src/operator/vouch.rs: candidate intake, attestation and threshold admission.
pub mod Admitted
pub mod Attested
use nymora.Prelude.{
  ℕ, ◌+◌, Bool, false, not, ◌&&◌, ◌||◌, none, some, List, [], ◌∷◌, ◌++◌, ltb, ◌==◌, if◌then◌else◌,
  contains, length,
}
use nymora.Prelude.Map
use nymora.Prelude.NatSet
use nymora.Prelude.Bytes.{Bytes}
use nymora.Core.Error.{ok, refuse, opaque, LocalReason}
use nymora.Core.Epoch
use nymora.Proofs.{ProofSystem, verify_vouch}
use nymora.Operator.State.{class, live, position_of, remaining_capacity, roots_in, staged_count}
use nymora.Operator.State.Exec.{Exec, pure, reads, gets, modify, or_reject, reject_if, ◌>>=◌, ◌>>◌}

-- What a staged admission answers: the first epoch of the leaf, and its position.
pub record Admission : Type 0 where
  pub active_from : ℕ
  pub position : ℕ

unfoldable pub credentials_init : ℕ → Bytes → Exec (Unit {0})
credentials_init commitment inbox = do
  reads live
  modify (λ s. record s {
    pending = NatSet.insert commitment s.pending;
    staged_inboxes = Map.insert commitment inbox s.staged_inboxes;
  })

-- `if … { return Err(Rejection::opaque().into()) }`
abbrev pub reject_opaque_if : Bool → Exec (Unit {0})
reject_opaque_if b s = (if b then refuse opaque else ok tt, s)

unfoldable pub start_vouch : ℕ → ℕ → ℕ → ℕ → Exec ℕ
start_vouch depth candidate target id = do
  reads live
  reject_if (not (contains candidate (← gets (λ s. s.pending)))) LocalReason.unknown_credential
  state ← reads (class target)
  reject_if (Map.has_key candidate state.positions) LocalReason.policy_denied
  reject_opaque_if ((← gets (remaining_capacity depth target)) == 0)
  modify (λ s. record s {
    sessions =
        Map.insert id (record { candidate = candidate; target = target; nullifiers = [] })
          s.sessions;
  })
  pure id

-- `nullifiers.insert(nullifier)` on the open session, refused where it is there already.
unfoldable pub record_nullifier : ℕ → ℕ → Exec (Unit {0})
record_nullifier session nullifier = do
  open_session ←
      or_reject (Map.lookup session (← gets (λ s. s.sessions))) LocalReason.epoch_out_of_range
  reject_if (contains nullifier open_session.nullifiers) LocalReason.duplicate_nullifier
  modify (λ s. record s {
    sessions =
        Map.insert session
          (record open_session { nullifiers = NatSet.insert nullifier open_session.nullifiers })
          s.sessions;
  })

module _ (system : ProofSystem) where
  unfoldable pub vouch_attest : ℕ → system.Proof → ℕ → Exec (Unit {0})
  vouch_attest session proof nullifier = do
    reads live
    agora ← gets (λ s. s.agora)
    epoch ← gets (λ s. s.epoch)
    open_session ←
        or_reject (Map.lookup session (← gets (λ s. s.sessions))) LocalReason.epoch_out_of_range
    state ← reads (class open_session.target)
    roots ← reads (roots_in epoch state.policy.voucher_class)
    reject_if (not (verify_vouch system proof agora epoch roots session nullifier))
        LocalReason.proof_invalid
    record_nullifier session nullifier

-- `staged.admissions.iter().any(…)`
unfoldable pub is_staged : ℕ → ℕ → List (ℕ × ℕ) → Bool
is_staged c leaf [] = false
is_staged c leaf ((d, m) ∷ rest) = (d == c && m == leaf) || is_staged c leaf rest

-- `self.epoch.next().ok_or(Rejection::opaque())?`, after the push.
unfoldable pub admission_at : ℕ → Exec Admission
admission_at position s = elim (Epoch.next s.epoch) [
  | none ↦ (refuse opaque, s)
  | some next ↦ (ok (record { active_from = next; position = position }), s)
]

unfoldable pub stage_admission : ℕ → ℕ → ℕ → Exec Admission
stage_admission depth c leaf = do
  reject_opaque_if ((← gets (remaining_capacity depth c)) == 0)
  state ← reads (class c)
  admissions ← gets (λ s. s.staged.admissions)
  reject_if (Map.has_key leaf state.positions || is_staged c leaf admissions)
      LocalReason.policy_denied
  modify (λ s. record s { staged = record s.staged { admissions = admissions ++ (c, leaf) ∷ [] } })
  admission_at (position_of (state.occupied + staged_count c admissions))

unfoldable pub vouch_finalize : ℕ → ℕ → Exec Admission
vouch_finalize depth session = do
  reads live
  open_session ←
      or_reject (Map.lookup session (← gets (λ s. s.sessions))) LocalReason.epoch_out_of_range
  modify (λ s. record s { sessions = Map.remove session s.sessions })
  state ← reads (class open_session.target)
  reject_if (ltb (length open_session.nullifiers) state.policy.admission_threshold)
      LocalReason.threshold_not_met
  modify (λ s. record s { pending = NatSet.remove open_session.candidate s.pending })
  stage_admission depth open_session.target open_session.candidate
