-- ===== src/Operator/Trace/Reachable.antt =====
-- The classes of every state that an operator can reach from the founding of an agora.
use nymora.Prelude.{
  ℕ, ◌<◌, ◌≡◌, sym, ◌∙◌, ◌⊎◌, ap, subst, inl, inr, none, some, List, [], ◌∷◌, ◌++◌, arith,
  Option-cases,
}
use nymora.Prelude.Map
use nymora.Core.Error.{Outcome-cases}
use nymora.Crypto.Primitives.{Primitives}
use nymora.Proofs.{ProofSystem}
use nymora.Operator.State.{
  AgoraState, ClassState, Decision, policy, revocation, dissolution, inbox_horizon, land, snapshot,
  dissolve,
}
use nymora.Operator.State.Exec.{Exec, ◌>>◌}
use nymora.Operator.State.Landing.{IsPaired}
use nymora.Operator.State.Sound.{IsSound, AllSound, land-IsSound, insert-AllSound, lookup-IsSound}
use nymora.Operator.Boundary.{
  move_inbox, land_admission, land_admissions, land_spends, open_epoch, advance_epoch,
}
use nymora.Operator.Boundary.Cases.{
  taken, land_spends-only, land_revocations-only, landed, Ending, refused, exhausted, stopped,
  opened, advance_epoch-Ending,
}
use nymora.Operator.Quorum.{revoked, activate, execute, execute_policy, execute_decision}
use nymora.Operator.Trace.{
  Call, init_credentials, start, attest, finalize, raise_decision, approve_decision,
  execute_subject, challenge, redeem, migrate_leaf, instruct_inbox, advance, run, run_all,
}
use nymora.Operator.Trace.Quiet
use nymora.Operator.Trace.Quiet.{Quiet}
use nymora.Operator.Trace.History.{bind-pure, execute-cases}

-- A sequence ends in the state of its first part or of its second.
then-either :
    {A B : Type 0} (m : Exec A) (k : Exec B) (s : AgoraState)
    → (((m >> k) s).1 ≡ (m s).1) ⊎ (((m >> k) s).1 ≡ (k (m s).1).1)
then-either m k s = elim (Outcome-cases (m s).0) [
  | inl (a, e) ↦ inr (ground arith)
  | inr (inl (x, e)) ↦ inl (ground arith)
  | inr (inr e) ↦ inl (ground arith)
]

module _ (prim : Primitives) (depth : ℕ) (lo : 0 < depth) (hi : depth < 64) where
  -- Every class of a state is sound.
  unfoldable pub StateSound : AgoraState → Type 0
  StateSound s = AllSound depth s.classes

  land_admission_unknown :
      (next c leaf : ℕ) (s : AgoraState)
      → Map.lookup c s.classes ≡ none
      → (land_admission depth next c leaf s).1 ≡ s
  unfolding land_admission
  land_admission_unknown next c leaf s e = ground arith

  land_admission_classes :
      (next c leaf : ℕ) (s : AgoraState) (state : ClassState)
      → Map.lookup c s.classes ≡ some state
      → ((land_admission depth next c leaf s).1.classes ≡ s.classes)
        ⊎ ((land_admission depth next c leaf s).1.classes
            ≡ Map.insert c (land depth leaf state).1 s.classes)
  unfolding land_admission move_inbox
  land_admission_classes next c leaf s state e = elim (Option-cases (land depth leaf state).0) [
    | inl full ↦ inl (ground arith)
    | inr (p, at) ↦ inr (ground arith)
  ]

  land_admission-StateSound :
      (next c leaf : ℕ) (s : AgoraState)
      → StateSound s
      → StateSound (land_admission depth next c leaf s).1
  unfolding StateSound
  land_admission-StateSound next c leaf s h = elim (Option-cases (Map.lookup c s.classes)) [
    | inl e ↦
        subst (λ (t : AgoraState). StateSound t) (sym (land_admission_unknown next c leaf s e)) h
    | inr (state, e) ↦ elim (land_admission_classes next c leaf s state e) [
      | inl same ↦ subst (AllSound depth) (sym same) h
      | inr written ↦ subst (AllSound depth) (sym written) (
          insert-AllSound depth c (land depth leaf state).1 s.classes
            (land-IsSound depth leaf state lo hi (lookup-IsSound depth c state s.classes h e)) h)
    ]
  ]

  land_admissions-StateSound :
      (next : ℕ) (rows : List (ℕ × ℕ)) (s : AgoraState)
      → StateSound s
      → StateSound (land_admissions depth next rows s).1
  unfolding land_admissions
  land_admissions-StateSound next [] s h = h
  land_admissions-StateSound next ((c, leaf) ∷ rest) s h =
      let now = land_admission-StateSound next c leaf s h in
      let later = land_admissions-StateSound next rest (land_admission depth next c leaf s).1 now in
      elim (then-either (land_admission depth next c leaf) (land_admissions depth next rest) s) [
        | inl stop ↦ subst (λ (t : AgoraState). StateSound t) (sym stop) now
        | inr on ↦ subst (λ (t : AgoraState). StateSound t) (sym on) later
      ]

  landed-StateSound :
      (next : ℕ) (s : AgoraState) → StateSound s → StateSound (landed prim depth next s)
  unfolding landed StateSound
  landed-StateSound next s h =
      let a = (land_admissions depth next s.staged.admissions (taken s)).1 in
      let b = land_spends s.staged.spends a in
      subst (AllSound depth)
        (sym (
          ap (λ t. t.classes) (land_revocations-only prim depth s.staged.revocations b)
          ∙ ap (λ t. t.classes) (land_spends-only s.staged.spends a)))
        (land_admissions-StateSound next s.staged.admissions (taken s) h)

  Ending-StateSound : (s t : AgoraState) → StateSound s → Ending prim depth s t → StateSound t
  unfolding StateSound open_epoch snapshot
  Ending-StateSound s t h (refused _ e) = rw e h
  Ending-StateSound s t h (exhausted _ e) = rw e h
  Ending-StateSound s t h (stopped next e) =
      rw e (land_admissions-StateSound next s.staged.admissions (taken s) h)
  Ending-StateSound s t h (opened next n e) = rw e (landed-StateSound next s h)

  advance_epoch-StateSound :
      (s : AgoraState) → StateSound s → StateSound (advance_epoch prim depth s).1
  advance_epoch-StateSound s h = Ending-StateSound s _ h (advance_epoch-Ending prim depth s)

  execute_policy-classes :
      (c threshold quorum : ℕ) (s : AgoraState)
      → ((execute_policy prim c threshold quorum s).1 ≡ s)
        ⊎ ((before : ClassState) × (Map.lookup c s.classes ≡ some before)
            × ((execute_policy prim c threshold quorum s).1.classes
                ≡ Map.insert c (activate threshold before) s.classes))
  unfolding execute_policy
  execute_policy-classes c threshold quorum s = elim (Option-cases (Map.lookup c s.classes)) [
    | inl e ↦ inl (ground arith)
    | inr (before, e) ↦ inr (before, e, ground arith)
  ]

  activate-IsSound :
      (threshold : ℕ) (c : ClassState) → IsSound depth c → IsSound depth (activate threshold c)
  unfolding activate IsPaired
  activate-IsSound threshold c h = record {
    paired = h.paired;
    within = h.within;
    placed = h.placed;
  }

  execute_decision-StateSound :
      (d : Decision) (s : AgoraState)
      → StateSound s
      → StateSound (execute_decision prim depth d s).1
  unfolding execute_decision StateSound dissolve
  execute_decision-StateSound (policy c threshold quorum) s h =
      elim (execute_policy-classes c threshold quorum s) [
        | inl e ↦ subst (λ (t : AgoraState). StateSound t) (sym e) h
        | inr (before, e, written) ↦ subst (AllSound depth) (sym written) (
            insert-AllSound depth c (activate threshold before) s.classes
              (activate-IsSound threshold before (lookup-IsSound depth c before s.classes h e)) h)
      ]
  execute_decision-StateSound (revocation leaf) s h =
      let s' = record s {
        staged = record s.staged { revocations = s.staged.revocations ++ leaf ∷ [] };
      } in
      subst (λ (t : AgoraState). StateSound t)
        (sym (bind-pure (advance_epoch prim depth) revoked s')) (advance_epoch-StateSound s' h)
  execute_decision-StateSound dissolution s h = h
  execute_decision-StateSound (inbox_horizon n) s h = h

  execute-StateSound :
      (subject : ℕ) (s : AgoraState) → StateSound s → StateSound (execute prim depth subject s).1
  execute-StateSound subject s h = elim (execute-cases prim depth subject s) [
    | inl e ↦ subst (λ (t : AgoraState). StateSound t) (sym e) h
    | inr (p, _, _, e) ↦
        subst (λ (t : AgoraState). StateSound t) (sym e)
          (execute_decision-StateSound p.decision
            (record s { proposals = Map.remove subject s.proposals }) (unfold StateSound in h))
  ]

  quiet : (s t : AgoraState) → StateSound s → Quiet s t → StateSound t
  unfolding StateSound
  quiet s t h q = subst (AllSound depth) (sym q.classes) h

  run-StateSound :
      (system : ProofSystem) (call : Call prim system depth) (s : AgoraState)
      → StateSound s
      → StateSound (run prim system depth call s)
  unfolding run
  run-StateSound y (init_credentials a b) s h =
      quiet s _ h (Quiet.credentials_init-Quiet y depth a b s)
  run-StateSound y (start a b c) s h = quiet s _ h (Quiet.start_vouch-Quiet y depth a b c s)
  run-StateSound y (attest a b c) s h = quiet s _ h (Quiet.vouch_attest-Quiet y depth a b c s)
  run-StateSound y (finalize a) s h = quiet s _ h (Quiet.vouch_finalize-Quiet y depth a s)
  run-StateSound y (raise_decision a b c) s h =
      quiet s _ h (Quiet.propose-Quiet y depth prim a b c s)
  run-StateSound y (approve_decision a b c) s h = quiet s _ h (Quiet.approve-Quiet y depth a b c s)
  run-StateSound y (execute_subject a) s h = execute-StateSound a s h
  run-StateSound y (challenge a) s h = quiet s _ h (Quiet.issue_challenge-Quiet y depth a s)
  run-StateSound y (redeem a b c) s h = quiet s _ h (Quiet.redeem_access-Quiet y depth a b c s)
  run-StateSound y (migrate_leaf a b c d e) s h =
      quiet s _ h (Quiet.migrate-Quiet y depth a b c d e s)
  run-StateSound y (instruct_inbox a b c d) s h =
      quiet s _ h (Quiet.inbox_certificate-Quiet y depth a b c d s)
  run-StateSound y advance s h = advance_epoch-StateSound s h

  pub run_all-StateSound :
      (system : ProofSystem) (calls : List (Call prim system depth)) (s : AgoraState)
      → StateSound s
      → StateSound (run_all prim system depth calls s)
  unfolding run_all
  run_all-StateSound y [] s h = h
  run_all-StateSound y (call ∷ calls) s h =
      run_all-StateSound y calls (run prim y depth call s) (run-StateSound y call s h)
