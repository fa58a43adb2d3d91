-- ===== src/Operator/Vouch/Admitted.antt =====
-- What an admission that answers has checked, staged and cleared.
use nymora.Prelude.{
  ℕ, ◌+◌, ◌*◌, ◌≤◌, ◌≡◌, sym, ap, ◌∙◌, inl, inr, false, none, some, List, [], ◌∷◌, ◌++◌, arith,
  contains, length, Option-cases,
}
use nymora.Prelude.Map
use nymora.Prelude.NatSet
use nymora.Core.Error.{ok}
use nymora.Core.Epoch
use nymora.Operator.State.{
  AgoraState, ClassState, VouchSession, live, class, position_of, staged_count,
}
use nymora.Operator.Vouch.{Admission, is_staged, vouch_finalize, stage_admission, admission_at}

gone : {V : Type 0} (k : ℕ) (m : Map.Map V) → Map.lookup k (Map.remove k m) ≡ none
gone k m = ground (arith, Map.lookup-remove k k m)

dropped : (k : ℕ) (l : List ℕ) → contains k (NatSet.remove k l) ≡ false
dropped k l = ground (arith, NatSet.contains-remove k k l)

doubled : (n : ℕ) → position_of n ≡ 2 * n
doubled n = omega arith

module _ (depth : ℕ) where
  -- Where a staging answers: the class, what was checked of the leaf, and what was written.
  pub record StagedLeaf (c leaf : ℕ) (s t : AgoraState) (a : Admission) : Type 0 where
    pub target : ClassState
    pub found : Map.lookup c s.classes ≡ some target
    pub absent : Map.has_key leaf target.positions ≡ false
    pub unstaged : is_staged c leaf s.staged.admissions ≡ false
    pub placed : a.position ≡ position_of (target.occupied + staged_count c s.staged.admissions)
    pub active : Epoch.next s.epoch ≡ some a.active_from
    pub written : t ≡ record s {
      staged = record s.staged { admissions = s.staged.admissions ++ (c, leaf) ∷ [] };
    }

  pub stage_admission-StagedLeaf :
      (c leaf : ℕ) (s : AgoraState) (a : Admission)
      → (stage_admission depth c leaf s).0 ≡ ok a
      → StagedLeaf c leaf s (stage_admission depth c leaf s).1 a
  unfolding stage_admission admission_at class
  stage_admission-StagedLeaf c leaf s a h = elim (Option-cases (Map.lookup c s.classes)) [
    | inl e ↦ ground arith
    | inr (st, e) ↦ elim (Option-cases (Epoch.next s.epoch)) [
      | inl n ↦ ground arith
      | inr (next, n) ↦ record {
        target = st;
        found = e;
        absent = ground arith;
        unstaged = ground arith;
        placed = ground arith;
        active = ground arith;
        written = ground arith;
      }
    ]
  ]

  -- The state in which the candidate is staged.
  closed : ℕ → VouchSession → AgoraState → AgoraState
  closed session v s = record s {
    sessions = Map.remove session s.sessions;
    pending = NatSet.remove v.candidate s.pending;
  }

  vouch_finalize-stages :
      (session : ℕ) (s : AgoraState) (a : Admission) (v : VouchSession) (st : ClassState)
      → Map.lookup session s.sessions ≡ some v
      → Map.lookup v.target s.classes ≡ some st
      → (vouch_finalize depth session s).0 ≡ ok a
      → (st.policy.admission_threshold ≤ length v.nullifiers)
        × (vouch_finalize depth session s
            ≡ stage_admission depth v.target v.candidate (closed session v s))
  unfolding vouch_finalize class live closed
  vouch_finalize-stages session s a v st e c h = (ground arith, ground arith)

  -- A finalization that answers: the session was open with at least as many attestations as the
  -- threshold of its target class, whose state did not hold the candidate, staged or landed. It
  -- appends exactly the candidate to the staged admissions, for the next epoch and the position
  -- after every leaf landed or staged in the class; the session is closed and the candidate no
  -- longer pending.
  pub vouch_finalize-threshold :
      (session : ℕ) (s : AgoraState) (a : Admission)
      → (vouch_finalize depth session s).0 ≡ ok a
      → (v : VouchSession) × (target : ClassState) × (Map.lookup session s.sessions ≡ some v)
        × (Map.lookup v.target s.classes ≡ some target)
        × (target.policy.admission_threshold ≤ length v.nullifiers)
        × (Map.has_key v.candidate target.positions ≡ false)
        × (is_staged v.target v.candidate s.staged.admissions ≡ false)
        × (Epoch.next s.epoch ≡ some a.active_from)
        × (a.position ≡ 2 * (target.occupied + staged_count v.target s.staged.admissions))
        × ((vouch_finalize depth session s).1.staged.admissions
            ≡ s.staged.admissions ++ (v.target, v.candidate) ∷ [])
        × (Map.lookup session (vouch_finalize depth session s).1.sessions ≡ none)
        × (contains v.candidate (vouch_finalize depth session s).1.pending ≡ false)
  unfolding vouch_finalize class live closed
  vouch_finalize-threshold session s a h = elim (Option-cases (Map.lookup session s.sessions)) [
    | inl e ↦ ground arith
    | inr (v, e) ↦ elim (Option-cases (Map.lookup v.target s.classes)) [
      | inl c ↦ ground arith
      | inr (st, c) ↦
          let (_, same) = vouch_finalize-stages session s a v st e c h in
          let staged =
            stage_admission-StagedLeaf v.target v.candidate (closed session v s) a
              (ap (λ r. r.0) (sym same) ∙ h) in
          let (met, _) = vouch_finalize-stages session s a v staged.target e staged.found h in
          let after = ap (λ r. r.1) same ∙ staged.written in
          (
            v,
            staged.target,
            e,
            staged.found,
            met,
            staged.absent,
            staged.unstaged,
            staged.active,
            staged.placed
                ∙ doubled (staged.target.occupied + staged_count v.target s.staged.admissions),
            ap (λ t. t.staged.admissions) after,
            ap (λ t. Map.lookup session t.sessions) after ∙ gone session s.sessions,
            ap (λ t. contains v.candidate t.pending) after ∙ dropped v.candidate s.pending,
          )
    ]
  ]
