-- ===== src/Operator/Quorum/Approves.antt =====
-- What an approval that answers has checked and written.
use nymora.Prelude.{
  ℕ, suc, ◌≡◌, refl, ap, ◌∙◌, inl, inr, true, false, some, arith, contains, length, Option-cases,
}
use nymora.Prelude.Map
use nymora.Prelude.NatSet
use nymora.Prelude.Bytes.{be_bytes}
use nymora.Core.Error.{Outcome-cases, ok, err, ProtocolError}
use nymora.Proofs.{ProofSystem, EpochRoots, verify_policy_approval}
use nymora.Operator.State.{AgoraState, Proposal, live, roots_in}
use nymora.Operator.Quorum.{approve, record_approval}

module _ (system : ProofSystem) where
  -- What the state held and the proof showed, where an approval answers.
  record Approved (subject : ℕ) (proof : system.Proof) (n : ℕ) (s t : AgoraState) : Type 0 where
    pub before : Proposal
    pub roots : EpochRoots
    pub found : Map.lookup subject s.proposals ≡ some before
    pub published : roots_in s.epoch before.approving_class s ≡ ok roots
    pub proved :
        verify_policy_approval system proof s.agora s.epoch roots (be_bytes 32 subject) n ≡ true
    pub fresh : contains n before.approvals ≡ false
    pub written : t ≡ record s {
      proposals =
          Map.insert subject
            (record before { approvals = NatSet.insert n before.approvals })
            s.proposals;
    }

  approve-Approved :
      (subject : ℕ) (proof : system.Proof) (n : ℕ) (s : AgoraState)
      → (approve system subject proof n s).0 ≡ ok tt
      → Approved subject proof n s (approve system subject proof n s).1
  unfolding approve record_approval live
  approve-Approved subject proof n s h = elim (Option-cases (Map.lookup subject s.proposals)) [
    | inl e ↦ ground arith
    | inr (p, e) ↦ elim (Outcome-cases (roots_in s.epoch p.approving_class s)) [
      | inr (inl (x, r)) ↦ ground arith
      | inr (inr r) ↦ ground arith
      | inl (rs, r) ↦ record {
        before = p;
        roots = rs;
        found = e;
        published = r;
        proved = ground arith;
        fresh = ground arith;
        written = ground arith;
      }
    ]
  ]

  approve-duplicate :
      (subject : ℕ) (proof : system.Proof) (n : ℕ) (s : AgoraState) (p : Proposal)
      → Map.lookup subject s.proposals ≡ some p
      → contains n p.approvals ≡ true
      → approve system subject proof n s ≡ (err ProtocolError.rejected, s)
  unfolding approve record_approval live roots_in
  approve-duplicate subject proof n s p e c = ground arith

  -- An approval that answers was fresh and proved: the proposal was open, the proof verified for it
  -- against the roots of its approving class in the current epoch, the nullifier was not yet
  -- counted; it adds exactly one to the proposal's count and leaves its decision as it was, and a
  -- second approval with the same nullifier is refused and changes nothing, whatever its proof.
  pub approve-once :
      (subject : ℕ) (proof again : system.Proof) (n : ℕ) (s : AgoraState)
      → (approve system subject proof n s).0 ≡ ok tt
      → let t : AgoraState = (approve system subject proof n s).1 in
        ((p : Proposal) × (q : Proposal) × (roots : EpochRoots) × (Map.lookup subject s.proposals
            ≡ some p)
          × (roots_in s.epoch p.approving_class s ≡ ok roots)
          × (verify_policy_approval system proof s.agora s.epoch roots (be_bytes 32 subject) n
              ≡ true)
          × (contains n p.approvals ≡ false)
          × (Map.lookup subject t.proposals ≡ some q)
          × (q.decision ≡ p.decision)
          × (length q.approvals ≡ suc (length p.approvals)))
        × (approve system subject again n t ≡ (err ProtocolError.rejected, t))
  approve-once subject proof again n s h =
      let a = approve-Approved subject proof n s h in
      let q = record a.before { approvals = NatSet.insert n a.before.approvals } in
      let there =
        ap (λ t. Map.lookup subject t.proposals) a.written
        ∙ Map.lookup-insert_same subject q s.proposals in
      (
        (
          a.before,
          q,
          a.roots,
          a.found,
          a.published,
          a.proved,
          a.fresh,
          there,
          refl,
          NatSet.length-insert_fresh n a.before.approvals a.fresh,
        ),
        approve-duplicate subject again n _ q there
            (NatSet.contains-insert_same n a.before.approvals),
      )
