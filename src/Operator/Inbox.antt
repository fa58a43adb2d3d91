-- ===== src/Operator/Inbox.antt =====
-- nymora-protocol/src/operator/inbox.rs: the inbox registry's two instructions.
use nymora.Prelude.{ℕ, Bool, false, not, ◌||◌, [], ◌∷◌, contains, bytes_eq}
use nymora.Prelude.Map
use nymora.Prelude.Map.{Map}
use nymora.Prelude.Bytes.{Bytes}
use nymora.Core.Error.{LocalReason}
use nymora.Proofs.{ProofSystem, InboxAction, retire, renew, verify_inbox}
use nymora.Operator.State.{ClassState, live}
use nymora.Operator.State.Exec.{Exec, reads, gets, modify, or_reject, reject_if, ◌>>=◌, ◌>>◌}

abbrev pub default_inbox_horizon : ℕ
default_inbox_horizon = 365

abbrev pub min_inbox_horizon : ℕ
min_inbox_horizon = 7

-- `classes.values().any(|class| class.positions.contains_key(&leaf))`
unfoldable pub is_landed : ℕ → Map ClassState → Bool
is_landed leaf [] = false
is_landed leaf ((c, state) ∷ rest) = Map.has_key leaf state.positions || is_landed leaf rest

unfoldable pub apply_action : ℕ → Bytes → InboxAction → Exec (Unit {0})
apply_action leaf inbox retire = do
  registered ← or_reject (Map.lookup leaf (← gets (λ s. s.inboxes))) LocalReason.unknown_credential
  reject_if (not (bytes_eq registered.key inbox)) LocalReason.unknown_credential
  modify (λ s. record s { inboxes = Map.remove leaf s.inboxes })
apply_action leaf inbox renew = do
  landed ← gets (λ s. is_landed leaf s.classes)
  revoked ← gets (λ s. contains leaf s.revoked_leaves)
  reject_if (not landed || revoked) LocalReason.unknown_credential
  modify (λ s. record s {
    inboxes = Map.insert leaf (record { key = inbox; since = s.epoch }) s.inboxes;
  })

module _ (system : ProofSystem) where
  unfoldable pub inbox_certificate : ℕ → Bytes → InboxAction → system.InboxProof → Exec (Unit {0})
  inbox_certificate leaf inbox action proof = do
    reads live
    agora ← gets (λ s. s.agora)
    reject_if (not (verify_inbox system proof agora leaf inbox action)) LocalReason.proof_invalid
    apply_action leaf inbox action
