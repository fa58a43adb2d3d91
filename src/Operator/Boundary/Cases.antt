-- ===== src/Operator/Boundary/Cases.antt =====
-- The ways in which `advance_epoch` ends, and what the landing loops leave alone.
use nymora.Prelude.{
  ℕ, ◌≡◌, refl, inl, inr, true, false, none, some, List, [], ◌∷◌, arith, Bool-cases, Option-cases,
}
use nymora.Core.Error.{Outcome, ok, err, panic}
use nymora.Core.Epoch
use nymora.Crypto.Primitives.{Primitives}
use nymora.Prelude.NatSet
use nymora.Prelude.Bytes.{be_bytes}
use nymora.Accumulator.Exclusion
use nymora.Crypto.Inbox
use nymora.Operator.State.{AgoraState, nothing_staged, live}
use nymora.Operator.Envelope.{envelope_now}
use nymora.Operator.Boundary.{
  move_inbox, land_admission, land_admissions, land_spends, land_revocations, open_epoch,
  next_epoch, advance_epoch,
}

-- The state whose staged mutations were taken.
abbrev pub taken : AgoraState → AgoraState
taken s = record s { staged = nothing_staged }

-- The admission loop writes three fields.
abbrev pub AdmissionsOnly : AgoraState → AgoraState → Type 0
AdmissionsOnly s t =
    t ≡ record s { classes = t.classes; inboxes = t.inboxes; staged_inboxes = t.staged_inboxes }

land_admission-AdmissionsOnly :
    (depth next c leaf : ℕ) (s : AgoraState)
    → AdmissionsOnly s (land_admission depth next c leaf s).1
unfolding land_admission move_inbox
land_admission-AdmissionsOnly depth next c leaf s = ground arith

pub land_admissions-AdmissionsOnly :
    (depth next : ℕ) (rows : List (ℕ × ℕ)) (s : AgoraState)
    → AdmissionsOnly s (land_admissions depth next rows s).1
unfolding land_admissions
land_admissions-AdmissionsOnly depth next [] s = refl
land_admissions-AdmissionsOnly depth next ((c, leaf) ∷ rest) s = ground (
  arith,
  land_admission-AdmissionsOnly depth next c leaf s,
  land_admissions-AdmissionsOnly depth next rest (land_admission depth next c leaf s).1,
)

pub land_spends-only :
    (rows : List ℕ) (s : AgoraState)
    → land_spends rows s ≡ record s { spends = (land_spends rows s).spends }
unfolding land_spends
land_spends-only [] s = refl
land_spends-only (n ∷ rest) s =
    land_spends-only rest (record s { spends = Exclusion.insert (be_bytes 32 n) s.spends })

pub land_revocations-only :
    (prim : Primitives) (depth : ℕ) (rows : List ℕ) (s : AgoraState)
    → land_revocations prim depth rows s ≡ record s {
      revocations = (land_revocations prim depth rows s).revocations;
      revoked_leaves = (land_revocations prim depth rows s).revoked_leaves;
    }
unfolding land_revocations
land_revocations-only prim depth [] s = refl
land_revocations-only prim depth (leaf ∷ rest) s = land_revocations-only prim depth rest (record s {
  revocations = Exclusion.insert (Inbox.revocation_key prim leaf) s.revocations;
  revoked_leaves = NatSet.insert leaf s.revoked_leaves;
})

module _ (prim : Primitives) (depth : ℕ) where
  -- The state in which every staged mutation has landed, before the epoch opens.
  unfoldable pub landed : ℕ → AgoraState → AgoraState
  landed next s =
      land_revocations prim depth s.staged.revocations
        (land_spends s.staged.spends (land_admissions depth next s.staged.admissions (taken s)).1)

  -- How a call of `advance_epoch` at `s` ends, by the state `t` that it leaves.
  pub data Ending (s : AgoraState) (t : AgoraState) : Type 0 where
    refused : s.dissolved ≡ true → t ≡ s → Ending s t
    exhausted : Epoch.next s.epoch ≡ none → t ≡ taken s → Ending s t
    stopped :
        (next : ℕ) → t ≡ (land_admissions depth next s.staged.admissions (taken s)).1 → Ending s t
    opened :
        (next : ℕ)
        → Epoch.next s.epoch ≡ some next
        → t ≡ open_epoch prim depth next (landed next s)
        → Ending s t

  after_landing :
      (next : ℕ) (s : AgoraState) (r : Outcome (Unit {0}))
      → Epoch.next s.epoch ≡ some next
      → s.dissolved ≡ false
      → (land_admissions depth next s.staged.admissions (taken s)).0 ≡ r
      → Ending s (advance_epoch prim depth s).1
  unfolding advance_epoch next_epoch live landed
  after_landing next s (ok _) e l h = opened next e (ground arith)
  after_landing next s (err x) e l h = stopped next (ground arith)
  after_landing next s panic e l h = stopped next (ground arith)

  pub advance_epoch-Ending : (s : AgoraState) → Ending s (advance_epoch prim depth s).1
  advance_epoch-Ending s = elim (Bool-cases s.dissolved) [
    | inl gone ↦ refused gone (unfold advance_epoch live in rw gone)
    | inr here ↦ elim (Option-cases (Epoch.next s.epoch)) [
      | inl e ↦ exhausted e (unfold advance_epoch next_epoch live in ground arith)
      | inr (next, e) ↦ after_landing next s _ e here refl
    ]
  ]

  -- Where the landing loop answers, so does the boundary: the envelope of the state it opened.
  pub advance_epoch-opened :
      (next : ℕ) (s : AgoraState)
      → s.dissolved ≡ false
      → Epoch.next s.epoch ≡ some next
      → (land_admissions depth next s.staged.admissions (taken s)).0 ≡ ok tt
      → advance_epoch prim depth s ≡ (
        envelope_now prim depth (open_epoch prim depth next (landed next s)),
        open_epoch prim depth next (landed next s),
      )
  unfolding advance_epoch next_epoch live landed
  advance_epoch-opened next s l e h = ground arith
