-- ===== src/Operator/Migrate/Spend.antt =====
-- A migration spends its nullifier once.
use nymora.Prelude.{
  ℕ, ◌≡◌, ◌∙◌, ap, inl, inr, true, false, List, [], ◌∷◌, ◌++◌, arith, contains, contains-append,
}
use nymora.Prelude.Map
use nymora.Prelude.Bytes.{Bytes, be_bytes}
use nymora.Core.Error.{Outcome-cases, ok, err, ProtocolError}
use nymora.Proofs.{ProofSystem, EpochRoots, verify_migration}
use nymora.Accumulator.Exclusion
use nymora.Accumulator.Exclusion.{truncate_key}
use nymora.Operator.State.{AgoraState, live, class, roots_in}
use nymora.Operator.Vouch.{Admission, stage_admission}
use nymora.Operator.Vouch.Admitted.{StagedLeaf, stage_admission-StagedLeaf}
use nymora.Operator.Migrate.{any_key, migrate}

module _ (system : ProofSystem) (depth : ℕ) where
  record Migrated (c : ℕ) (proof : system.MigrationProof) (spend successor : ℕ) (inbox : Bytes)
      (s t : AgoraState) (a : Admission) : Type 0 where
    pub roots : EpochRoots
    pub unspent : any_key (truncate_key (be_bytes 32 spend)) (Exclusion.keys s.spends) ≡ false
    pub unstaged : contains spend s.staged.spends ≡ false
    pub published : roots_in s.epoch c s ≡ ok roots
    pub proved :
        verify_migration system proof s.agora roots.class_root roots.revocation spend successor
        ≡ true
    pub staged : (stage_admission depth c successor s).0 ≡ ok a
    pub written : t ≡ (
        let u : AgoraState = (stage_admission depth c successor s).1 in
        record u {
          staged = record u.staged { spends = u.staged.spends ++ spend ∷ [] };
          staged_inboxes = Map.insert successor inbox u.staged_inboxes;
        })

  migrate-Migrated :
      (c : ℕ) (proof : system.MigrationProof) (spend successor : ℕ) (inbox : Bytes) (s : AgoraState)
      (a : Admission)
      → (migrate system depth c proof spend successor inbox s).0 ≡ ok a
      → Migrated c proof spend successor inbox s
          (migrate system depth c proof spend successor inbox s).1
          a
  unfolding migrate live
  migrate-Migrated c proof spend successor inbox s a h = elim (Outcome-cases (class c s)) [
    | inr (inl (x, e)) ↦ ground arith
    | inr (inr e) ↦ ground arith
    | inl (st, e) ↦ elim (Outcome-cases (roots_in s.epoch c s)) [
      | inr (inl (x, r)) ↦ ground arith
      | inr (inr r) ↦ ground arith
      | inl (rs, r) ↦ elim (Outcome-cases (stage_admission depth c successor s).0) [
        | inr (inl (x, g)) ↦ ground arith
        | inr (inr g) ↦ ground arith
        | inl (b, g) ↦ record {
          roots = rs;
          unspent = ground arith;
          unstaged = ground arith;
          published = r;
          proved = ground arith;
          staged = ground arith;
          written = ground arith;
        }
      ]
    ]
  ]

  migrate-staged_spend :
      (c : ℕ) (proof : system.MigrationProof) (spend successor : ℕ) (inbox : Bytes) (s : AgoraState)
      → contains spend s.staged.spends ≡ true
      → migrate system depth c proof spend successor inbox s ≡ (err ProtocolError.rejected, s)
  unfolding migrate live
  migrate-staged_spend c proof spend successor inbox s h = ground arith

  spends-keep :
      (c successor : ℕ) (s : AgoraState) (a : Admission)
      → StagedLeaf depth c successor s (stage_admission depth c successor s).1 a
      → (stage_admission depth c successor s).1.staged.spends ≡ s.staged.spends
  spends-keep c successor s a l = ap (λ t. t.staged.spends) l.written

  appended-there : (n : ℕ) (l : List ℕ) → contains n (l ++ n ∷ []) ≡ true
  appended-there n l = ground (arith, contains-append n l (n ∷ []))

  -- A migration that answers: its proof verified against the roots of the class in the current
  -- epoch, the nullifier was neither among the spent ones nor staged; it appends exactly the
  -- successor to the staged admissions and the nullifier to the staged spends. A second migration
  -- with the same nullifier is refused and changes nothing, whatever its class, proof or successor.
  pub migrate-once :
      (c : ℕ) (proof : system.MigrationProof) (spend successor : ℕ) (inbox : Bytes) (c' : ℕ)
      (proof' : system.MigrationProof) (successor' : ℕ) (inbox' : Bytes) (s : AgoraState)
      (a : Admission)
      → (migrate system depth c proof spend successor inbox s).0 ≡ ok a
      → let t : AgoraState = (migrate system depth c proof spend successor inbox s).1 in
        ((roots : EpochRoots) × (roots_in s.epoch c s ≡ ok roots)
          × (verify_migration system proof s.agora roots.class_root roots.revocation spend successor
              ≡ true))
        × (any_key (truncate_key (be_bytes 32 spend)) (Exclusion.keys s.spends) ≡ false)
        × (contains spend s.staged.spends ≡ false)
        × (t.staged.admissions ≡ s.staged.admissions ++ (c, successor) ∷ [])
        × (t.staged.spends ≡ s.staged.spends ++ spend ∷ [])
        × (migrate system depth c' proof' spend successor' inbox' t
            ≡ (err ProtocolError.rejected, t))
  migrate-once c proof spend successor inbox c' proof' successor' inbox' s a h =
      let m = migrate-Migrated c proof spend successor inbox s a h in
      let l = stage_admission-StagedLeaf depth c successor s a m.staged in
      let spends =
        ap (λ t. t.staged.spends) m.written
        ∙ ap (λ r. r ++ spend ∷ []) (spends-keep c successor s a l) in
      (
        (m.roots, m.published, m.proved),
        m.unspent,
        m.unstaged,
        ap (λ t. t.staged.admissions) m.written ∙ ap (λ t. t.staged.admissions) l.written,
        spends,
        migrate-staged_spend c' proof' spend successor' inbox' _
            (ap (λ r. contains spend r) spends ∙ appended-there spend s.staged.spends),
      )
