-- ===== src/Operator/Boundary/Lands.antt =====
-- What a boundary that answers has done: the epoch, the staged revocations, what is open.
use nymora.Prelude.{
  ℕ, ◌≡◌, refl, sym, ◌∙◌, ap, inl, inr, false, ◌||◌, some, List, [], ◌∷◌, arith, contains,
  Bool-cases, Option-cases,
}
use nymora.Prelude.NatSet
use nymora.Core.Error.{Outcome, ok, err, panic}
use nymora.Core.Epoch
use nymora.Crypto.Primitives.{Primitives}
use nymora.Operator.State.{AgoraState, nothing_staged, live, snapshot}
use nymora.Operator.Envelope.{Envelope, envelope_now}
use nymora.Operator.Boundary.{
  land_admissions, land_spends, land_revocations, open_epoch, next_epoch, advance_epoch,
}
use nymora.Operator.Boundary.Cases.{
  taken, land_admissions-AdmissionsOnly, land_spends-only, land_revocations-only, landed,
}

module _ (prim : Primitives) (depth : ℕ) where
  -- The state and the answer of a boundary that answers.
  pub record Landed (s t : AgoraState) (envelope : Envelope) : Type 0 where
    pub next : ℕ
    pub here : s.dissolved ≡ false
    pub counted : Epoch.next s.epoch ≡ some next
    pub state : t ≡ open_epoch prim depth next (landed prim depth next s)
    pub answered : envelope_now prim depth t ≡ ok envelope

  after_ok :
      (next : ℕ) (s : AgoraState) (envelope : Envelope) (r : Outcome (Unit {0}))
      → Epoch.next s.epoch ≡ some next
      → s.dissolved ≡ false
      → (land_admissions depth next s.staged.admissions (taken s)).0 ≡ r
      → (advance_epoch prim depth s).0 ≡ ok envelope
      → Landed s (advance_epoch prim depth s).1 envelope
  unfolding advance_epoch next_epoch live landed
  after_ok next s envelope (ok _) e l h a = record {
    next = next;
    here = l;
    counted = e;
    state = ground arith;
    answered = ground arith;
  }
  after_ok next s envelope (err x) e l h a = ground arith
  after_ok next s envelope panic e l h a = ground arith

  pub advance_epoch-Landed :
      (s : AgoraState) (envelope : Envelope)
      → (advance_epoch prim depth s).0 ≡ ok envelope
      → Landed s (advance_epoch prim depth s).1 envelope
  unfolding advance_epoch live next_epoch
  advance_epoch-Landed s envelope a = elim (Bool-cases s.dissolved) [
    | inl gone ↦ ground arith
    | inr here ↦ elim (Option-cases (Epoch.next s.epoch)) [
      | inl e ↦ ground arith
      | inr (next, e) ↦ after_ok next s envelope _ e here refl a
    ]
  ]

  land_revocations-lands :
      (rows : List ℕ) (s : AgoraState) (leaf : ℕ)
      → contains leaf (land_revocations prim depth rows s).revoked_leaves
        ≡ (contains leaf s.revoked_leaves || contains leaf rows)
  unfolding land_revocations
  land_revocations-lands [] s leaf = ground arith
  land_revocations-lands (l ∷ rest) s leaf =
      land_revocations-lands rest _ leaf
      ∙ ground (arith, NatSet.contains-insert l leaf s.revoked_leaves)

  -- The staged mutations stay taken.
  landed-staged : (next : ℕ) (s : AgoraState) → (landed prim depth next s).staged ≡ nothing_staged
  unfolding landed
  landed-staged next s =
      let a = (land_admissions depth next s.staged.admissions (taken s)).1 in
      let b = land_spends s.staged.spends a in
      ap (λ t. t.staged) (land_revocations-only prim depth s.staged.revocations b)
      ∙ ap (λ t. t.staged) (land_spends-only s.staged.spends a)
      ∙ ap (λ t. t.staged) (land_admissions-AdmissionsOnly depth next s.staged.admissions (taken s))

  landed-revoked :
      (next : ℕ) (s : AgoraState) (leaf : ℕ)
      → contains leaf (landed prim depth next s).revoked_leaves
        ≡ (contains leaf s.revoked_leaves || contains leaf s.staged.revocations)
  unfolding landed
  landed-revoked next s leaf =
      let a = (land_admissions depth next s.staged.admissions (taken s)).1 in
      let b = land_spends s.staged.spends a in
      land_revocations-lands s.staged.revocations b leaf
      ∙ ap (λ t. contains leaf t.revoked_leaves || contains leaf s.staged.revocations)
          (land_spends-only s.staged.spends a)
      ∙ ap (λ t. contains leaf t.revoked_leaves || contains leaf s.staged.revocations)
          (land_admissions-AdmissionsOnly depth next s.staged.admissions (taken s))

  -- A boundary that answers was called on a live agora and moves it exactly one epoch on; nothing
  -- stays staged, no session, proposal or challenge stays open, the revoked leaves are those from
  -- before and those staged for revocation, and the answer is the envelope of the state it leaves.
  pub advance_epoch-opens :
      (s : AgoraState) (envelope : Envelope)
      → (advance_epoch prim depth s).0 ≡ ok envelope
      → let t : AgoraState = (advance_epoch prim depth s).1 in
        (s.dissolved ≡ false)
        × (Epoch.next s.epoch ≡ some t.epoch)
        × (t.staged ≡ nothing_staged)
        × (t.sessions ≡ [])
        × (t.proposals ≡ [])
        × (t.challenges ≡ [])
        × ((leaf : ℕ)
            → contains leaf t.revoked_leaves
              ≡ (contains leaf s.revoked_leaves || contains leaf s.staged.revocations))
        × (envelope_now prim depth t ≡ ok envelope)
  unfolding open_epoch snapshot
  advance_epoch-opens s envelope h =
      let r = advance_epoch-Landed s envelope h in
      (
        r.here,
        r.counted ∙ ap (λ t. some t.epoch) (sym r.state),
        ap (λ t. t.staged) r.state ∙ landed-staged r.next s,
        ap (λ t. t.sessions) r.state,
        ap (λ t. t.proposals) r.state,
        ap (λ t. t.challenges) r.state,
        λ leaf. ap (λ t. contains leaf t.revoked_leaves) r.state ∙ landed-revoked r.next s leaf,
        r.answered,
      )
