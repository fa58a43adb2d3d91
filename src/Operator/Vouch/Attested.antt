-- ===== src/Operator/Vouch/Attested.antt =====
-- What an attestation and an admission that answer have checked and written.
use nymora.Prelude.{
  ℕ, suc, ◌≡◌, refl, ◌∙◌, ap, inl, inr, true, false, some, arith, contains, length, Bool-cases,
  Option-cases,
}
use nymora.Prelude.Map
use nymora.Prelude.NatSet
use nymora.Core.Error.{Outcome-cases, ok, err, ProtocolError}
use nymora.Proofs.{ProofSystem, EpochRoots, verify_vouch}
use nymora.Operator.State.{AgoraState, ClassState, VouchSession, live, class, roots_in}
use nymora.Operator.Vouch.{vouch_attest, record_nullifier}

module _ (system : ProofSystem) where
  -- What the state held and the proof showed, where an attestation answers.
  record Attested (session : ℕ) (proof : system.Proof) (n : ℕ) (s t : AgoraState) : Type 0 where
    pub before : VouchSession
    pub roots : EpochRoots
    pub target : ClassState
    pub found : Map.lookup session s.sessions ≡ some before
    pub configured : class before.target s ≡ ok target
    pub published : roots_in s.epoch target.policy.voucher_class s ≡ ok roots
    pub proved : verify_vouch system proof s.agora s.epoch roots session n ≡ true
    pub fresh : contains n before.nullifiers ≡ false
    pub written : t ≡ record s {
      sessions =
          Map.insert session
            (record before { nullifiers = NatSet.insert n before.nullifiers })
            s.sessions;
    }

  vouch_attest-Attested :
      (session : ℕ) (proof : system.Proof) (n : ℕ) (s : AgoraState)
      → (vouch_attest system session proof n s).0 ≡ ok tt
      → Attested session proof n s (vouch_attest system session proof n s).1
  unfolding vouch_attest record_nullifier live
  vouch_attest-Attested session proof n s h = elim (Option-cases (Map.lookup session s.sessions)) [
    | inl e ↦ ground arith
    | inr (v, e) ↦ elim (Outcome-cases (class v.target s)) [
      | inr (inl (x, c)) ↦ ground arith
      | inr (inr c) ↦ ground arith
      | inl (st, c) ↦ elim (Outcome-cases (roots_in s.epoch st.policy.voucher_class s)) [
        | inr (inl (x, r)) ↦ ground arith
        | inr (inr r) ↦ ground arith
        | inl (rs, r) ↦ elim (Bool-cases (verify_vouch system proof s.agora s.epoch rs session n)) [
          | inr bad ↦ ground arith
          | inl good ↦ elim (Bool-cases (contains n v.nullifiers)) [
            | inl old ↦ ground arith
            | inr new ↦ record {
              before = v;
              roots = rs;
              target = st;
              found = e;
              configured = c;
              published = r;
              proved = good;
              fresh = new;
              written = ground arith;
            }
          ]
        ]
      ]
    ]
  ]

  vouch_attest-duplicate :
      (session : ℕ) (proof : system.Proof) (n : ℕ) (s : AgoraState) (w : VouchSession)
      → Map.lookup session s.sessions ≡ some w
      → contains n w.nullifiers ≡ true
      → vouch_attest system session proof n s ≡ (err ProtocolError.rejected, s)
  unfolding vouch_attest record_nullifier live class roots_in
  vouch_attest-duplicate session proof n s w e c = ground arith

  -- An attestation that answers was fresh and proved: the session was open, its target class is
  -- configured, the proof verified against the roots that the voucher class of the target's policy
  -- has published for the current epoch, the nullifier was not yet counted;
  -- it adds exactly one to the session's count, and a second attestation with the same nullifier
  -- is refused and changes nothing, whatever its proof.
  pub vouch_attest-once :
      (session : ℕ) (proof again : system.Proof) (n : ℕ) (s : AgoraState)
      → (vouch_attest system session proof n s).0 ≡ ok tt
      → ((v : VouchSession) × (w : VouchSession) × (target : ClassState) × (roots : EpochRoots)
          × (Map.lookup session s.sessions ≡ some v)
          × (class v.target s ≡ ok target)
          × (roots_in s.epoch target.policy.voucher_class s ≡ ok roots)
          × (verify_vouch system proof s.agora s.epoch roots session n ≡ true)
          × (contains n v.nullifiers ≡ false)
          × (Map.lookup session (vouch_attest system session proof n s).1.sessions ≡ some w)
          × (w.candidate ≡ v.candidate)
          × (length w.nullifiers ≡ suc (length v.nullifiers)))
        × (vouch_attest system session again n (vouch_attest system session proof n s).1
            ≡ (err ProtocolError.rejected, (vouch_attest system session proof n s).1))
  vouch_attest-once session proof again n s h =
      let a = vouch_attest-Attested session proof n s h in
      let w = record a.before { nullifiers = NatSet.insert n a.before.nullifiers } in
      let there =
        ap (λ t. Map.lookup session t.sessions) a.written
        ∙ Map.lookup-insert_same session w s.sessions in
      (
        (
          a.before,
          w,
          a.target,
          a.roots,
          a.found,
          a.configured,
          a.published,
          a.proved,
          a.fresh,
          there,
          refl,
          NatSet.length-insert_fresh n a.before.nullifiers a.fresh,
        ),
        vouch_attest-duplicate session again n _ w there
            (NatSet.contains-insert_same n a.before.nullifiers),
      )
