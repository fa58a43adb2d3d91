-- ===== src/Operator/Migrate.antt =====
-- nymora-protocol/src/operator/migrate.rs: the acceptance path of a planned migration.
pub mod Spend
use nymora.Prelude.{ℕ, Bool, false, not, ◌||◌, List, [], ◌∷◌, ◌++◌, contains, bytes_eq}
use nymora.Prelude.Map
use nymora.Prelude.Bytes.{Bytes, be_bytes}
use nymora.Core.Error.{LocalReason}
use nymora.Proofs.{ProofSystem, verify_migration}
use nymora.Accumulator.Exclusion
use nymora.Accumulator.Exclusion.{truncate_key}
use nymora.Operator.State.{class, live, roots_in}
use nymora.Operator.State.Exec.{Exec, pure, reads, gets, modify, reject_if, ◌>>=◌, ◌>>◌}
use nymora.Operator.Vouch.{Admission, stage_admission}

-- `keys().any(|key| key == truncated)`
unfoldable pub any_key : Bytes → List Bytes → Bool
any_key truncated [] = false
any_key truncated (key ∷ rest) = bytes_eq key truncated || any_key truncated rest

module _ (system : ProofSystem) where
  unfoldable pub migrate : ℕ → ℕ → system.MigrationProof → ℕ → ℕ → Bytes → Exec Admission
  migrate depth c proof spend successor inbox = do
    reads live
    let truncated = truncate_key (be_bytes 32 spend)
    spent ← gets (λ s. Exclusion.keys s.spends)
    staged ← gets (λ s. s.staged.spends)
    reject_if (any_key truncated spent || contains spend staged) LocalReason.duplicate_nullifier
    state ← reads (class c)
    reject_if (Map.has_key successor state.positions) LocalReason.policy_denied
    epoch ← gets (λ s. s.epoch)
    agora ← gets (λ s. s.agora)
    roots ← reads (roots_in epoch c)
    reject_if
        (not
          (verify_migration system proof agora roots.class_root roots.revocation spend successor))
        LocalReason.proof_invalid
    admission ← stage_admission depth c successor
    modify (λ s. record s {
      staged = record s.staged { spends = s.staged.spends ++ spend ∷ [] };
      staged_inboxes = Map.insert successor inbox s.staged_inboxes;
    })
    pure admission
