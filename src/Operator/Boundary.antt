-- ===== src/Operator/Boundary.antt =====
-- nymora-protocol/src/operator/mod.rs, `advance_epoch`: staged mutations land, the roots are
-- fixed, everything open expires, and the envelope is produced.
pub mod Cases
pub mod Lands
use nymora.Prelude.{ℕ, none, some, List, [], ◌∷◌}
use nymora.Prelude.Map
use nymora.Prelude.NatSet
use nymora.Prelude.Bytes.{be_bytes}
use nymora.Core.Error.{ok, err, ProtocolError}
use nymora.Core.Epoch
use nymora.Crypto.Primitives.{Primitives}
use nymora.Crypto.Inbox
use nymora.Accumulator.Exclusion
use nymora.Operator.State.{AgoraState, nothing_staged, land, live, snapshot}
use nymora.Operator.State.Exec.{Exec, pure, reads, gets, modify, ◌>>=◌, ◌>>◌}
use nymora.Operator.Envelope.{Envelope, envelope_now}

-- `if let Some(key) = self.staged_inboxes.remove(&leaf) { self.inboxes.insert(…) }`
unfoldable pub move_inbox : ℕ → ℕ → AgoraState → AgoraState
move_inbox next leaf s = elim (Map.lookup leaf s.staged_inboxes) [
  | none ↦ s
  | some key ↦ record s {
    staged_inboxes = Map.remove leaf s.staged_inboxes;
    inboxes = Map.insert leaf (record { key = key; since = next }) s.inboxes;
  }
]

-- One round of the admission loop.
unfoldable pub land_admission : ℕ → ℕ → ℕ → ℕ → Exec (Unit {0})
land_admission depth next c leaf s = elim (Map.lookup c s.classes) [
  | none ↦ (err ProtocolError.unavailable, s)
  | some state ↦
      let (position, state') = land depth leaf state in
      elim position [
        | none ↦ (err ProtocolError.unavailable, s)
        | some p ↦
            (ok tt, move_inbox next leaf (record s { classes = Map.insert c state' s.classes }))
      ]
]

unfoldable pub land_admissions : ℕ → ℕ → List (ℕ × ℕ) → Exec (Unit {0})
land_admissions depth next [] = pure tt
land_admissions depth next ((c, leaf) ∷ rest) = do
  land_admission depth next c leaf
  land_admissions depth next rest

unfoldable pub land_spends : List ℕ → AgoraState → AgoraState
land_spends [] s = s
land_spends (nullifier ∷ rest) s =
    land_spends rest (record s { spends = Exclusion.insert (be_bytes 32 nullifier) s.spends })

module _ (prim : Primitives) (depth : ℕ) where
  unfoldable pub land_revocations : List ℕ → AgoraState → AgoraState
  land_revocations [] s = s
  land_revocations (leaf ∷ rest) s = land_revocations rest (record s {
    revocations = Exclusion.insert (Inbox.revocation_key prim leaf) s.revocations;
    revoked_leaves = NatSet.insert leaf s.revoked_leaves;
  })

  -- The assignments after the loops.
  unfoldable pub open_epoch : ℕ → AgoraState → AgoraState
  open_epoch next s =
      snapshot prim depth
        (record s { epoch = next; sessions = []; proposals = []; challenges = [] })

  -- `self.epoch.next().ok_or(ProtocolError::Unavailable)?`
  unfoldable pub next_epoch : Exec ℕ
  next_epoch s = elim (Epoch.next s.epoch) [
    | none ↦ (err ProtocolError.unavailable, s)
    | some next ↦ (ok next, s)
  ]

  unfoldable pub advance_epoch : Exec Envelope
  advance_epoch = do
    reads live
    staged ← gets (λ s. s.staged)
    modify (λ s. record s { staged = nothing_staged })
    next ← next_epoch
    land_admissions depth next staged.admissions
    modify (land_spends staged.spends)
    modify (land_revocations staged.revocations)
    modify (open_epoch next)
    reads (envelope_now prim depth)
