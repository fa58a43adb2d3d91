-- ===== src/Operator/Trace/History.antt =====
-- What no call of the operator can undo: the roots of the epochs so far, and the revocations.
use nymora.Prelude.{
  ℕ, suc, ◌≤◌, ◌<◌, ◌++◌, ◌≡◌, refl, ◌∙◌, ap, ◌⊎◌, inl, inr, true, none, some, List, [], ◌∷◌, arith,
  contains, length, ltb, Bool-cases, Option-cases,
}
use nymora.Prelude.Map
use nymora.Prelude.NatSet
use nymora.Core.Epoch
use nymora.Crypto.Primitives.{Primitives}
use nymora.Proofs.{ProofSystem}
use nymora.Operator.State.{
  AgoraState, Proposal, Decision, policy, revocation, dissolution, inbox_horizon, live, snapshot,
  dissolve,
}
use nymora.Operator.Boundary.{
  land_admissions, land_spends, land_revocations, open_epoch, advance_epoch,
}
use nymora.Operator.Boundary.Cases.{
  taken, land_admissions-AdmissionsOnly, land_spends-only, land_revocations-only, landed, Ending,
  refused, exhausted, stopped, opened, advance_epoch-Ending,
}
use nymora.Operator.Quorum.{revoked, execute, execute_policy, execute_decision}
use nymora.Operator.State.Exec.{Exec, pure, ◌>>=◌}
use nymora.Operator.Trace.{
  Call, init_credentials, start, attest, finalize, raise_decision, approve_decision,
  execute_subject, challenge, redeem, migrate_leaf, instruct_inbox, advance, run, run_all,
}
use nymora.Operator.Trace.Quiet
use nymora.Operator.Envelope.{inbox_live}
use nymora.Operator.Envelope.Delivery.{inbox_live-revoked}
use nymora.Operator.Trace.Quiet.{Quiet}

-- `t` is `s` or a later state of it: at most one epoch on, nothing of the past changed.
pub record Advances (s t : AgoraState) : Type 0 where
  pub epoch : (t.epoch ≡ s.epoch) ⊎ (t.epoch ≡ suc s.epoch)
  pub history : (e : ℕ) → e ≤ s.epoch → Map.lookup e t.history ≡ Map.lookup e s.history
  pub revoked :
      (leaf : ℕ) → contains leaf s.revoked_leaves ≡ true → contains leaf t.revoked_leaves ≡ true

-- `t` is reached from `s`.
record Keeps (s t : AgoraState) : Type 0 where
  pub forward : s.epoch ≤ t.epoch
  pub history : (e : ℕ) → e ≤ s.epoch → Map.lookup e t.history ≡ Map.lookup e s.history
  pub revoked :
      (leaf : ℕ) → contains leaf s.revoked_leaves ≡ true → contains leaf t.revoked_leaves ≡ true

-- The epoch, the history and the revoked leaves are the same.
SameRecord : AgoraState → AgoraState → Type 0
SameRecord s t =
    (t.epoch ≡ s.epoch) × (t.history ≡ s.history) × (t.revoked_leaves ≡ s.revoked_leaves)

same : (s t : AgoraState) → SameRecord s t → Advances s t
unfolding SameRecord
same s t (e, h, r) = record {
  epoch = inl e;
  history = λ k _. ap (λ m. Map.lookup k m) h;
  revoked = λ leaf c. ap (λ m. contains leaf m) r ∙ c;
}

quiet : (s t : AgoraState) → Quiet s t → Advances s t
unfolding SameRecord
quiet s t q = same s t (q.epoch, q.history, q.revoked_leaves)

land_revocations-keep :
    (prim : Primitives) (depth : ℕ) (rows : List ℕ) (s : AgoraState) (leaf : ℕ)
    → contains leaf s.revoked_leaves ≡ true
    → contains leaf (land_revocations prim depth rows s).revoked_leaves ≡ true
unfolding land_revocations
land_revocations-keep prim depth [] s leaf h = h
land_revocations-keep prim depth (l ∷ rest) s leaf h =
    land_revocations-keep prim depth rest _ leaf
      (ground (arith, NatSet.contains-insert l leaf s.revoked_leaves))

next_suc : (e : ℕ) (n : ℕ) → Epoch.next e ≡ some n → n ≡ suc e
unfolding Epoch.next
next_suc e n h = ground arith

later : (e n k : ℕ) → n ≡ suc e → k ≤ e → k < n
later e n k h l = omega arith

lookup-insert_past :
    {V : Type 0} (n k : ℕ) (v : V) (m : Map.Map V)
    → k < n
    → Map.lookup k (Map.insert n v m) ≡ Map.lookup k m
lookup-insert_past n k v m l = ground (arith, Map.lookup-insert n k v m)

pub bind-pure :
    {A B : Type 0} (m : Exec A) (f : A → B) (s : AgoraState)
    → ((m >>= λ a. pure (f a)) s).1 ≡ (m s).1
bind-pure m f s = ground arith

step_le : (s t : AgoraState) → (t.epoch ≡ s.epoch) ⊎ (t.epoch ≡ suc s.epoch) → s.epoch ≤ t.epoch
step_le s t (inl e) = omega arith
step_le s t (inr e) = omega arith

le_trans : {a b c : ℕ} → a ≤ b → b ≤ c → a ≤ c
le_trans h k = omega arith

module _ (prim : Primitives) (depth : ℕ) where
  -- The landing loops before the revocations keep the record.
  admitted : ℕ → AgoraState → AgoraState
  admitted next s =
      land_spends s.staged.spends (land_admissions depth next s.staged.admissions (taken s)).1

  admissions-SameRecord :
      (next : ℕ) (s : AgoraState)
      → SameRecord s (land_admissions depth next s.staged.admissions (taken s)).1
  unfolding SameRecord
  admissions-SameRecord next s =
      let only = land_admissions-AdmissionsOnly depth next s.staged.admissions (taken s) in
      (ap (λ t. t.epoch) only, ap (λ t. t.history) only, ap (λ t. t.revoked_leaves) only)

  admitted-SameRecord : (next : ℕ) (s : AgoraState) → SameRecord s (admitted next s)
  unfolding SameRecord admitted
  admitted-SameRecord next s =
      let t = (land_admissions depth next s.staged.admissions (taken s)).1 in
      let only = land_spends-only s.staged.spends t in
      let (e, h, r) = admissions-SameRecord next s in
      (
        ap (λ t. t.epoch) only ∙ e,
        ap (λ t. t.history) only ∙ h,
        ap (λ t. t.revoked_leaves) only ∙ r,
      )

  landed-history : (next : ℕ) (s : AgoraState) → (landed prim depth next s).history ≡ s.history
  unfolding landed SameRecord admitted
  landed-history next s =
      ap (λ t. t.history) (land_revocations-only prim depth s.staged.revocations (admitted next s))
      ∙ (admitted-SameRecord next s).1

  landed-revoked :
      (next : ℕ) (s : AgoraState) (leaf : ℕ)
      → contains leaf s.revoked_leaves ≡ true
      → contains leaf (landed prim depth next s).revoked_leaves ≡ true
  unfolding landed SameRecord admitted
  landed-revoked next s leaf c =
      land_revocations-keep prim depth s.staged.revocations (admitted next s) leaf
        (ap (λ m. contains leaf m) (admitted-SameRecord next s).2 ∙ c)

  open_epoch-Advances :
      (next : ℕ) (s : AgoraState)
      → Epoch.next s.epoch ≡ some next
      → Advances s (open_epoch prim depth next (landed prim depth next s))
  unfolding open_epoch snapshot
  open_epoch-Advances next s e = record {
    epoch = inr (next_suc s.epoch next e);
    history = λ k le.
        lookup-insert_past next k _ (landed prim depth next s).history
          (later s.epoch next k (next_suc s.epoch next e) le)
        ∙ ap (λ m. Map.lookup k m) (landed-history next s);
    revoked = landed-revoked next s;
  }

  Ending-Advances : (s t : AgoraState) → Ending prim depth s t → Advances s t
  unfolding SameRecord
  Ending-Advances s t (refused _ e) =
      same s t (ap (λ t. t.epoch) e, ap (λ t. t.history) e, ap (λ t. t.revoked_leaves) e)
  Ending-Advances s t (exhausted _ e) =
      same s t (ap (λ t. t.epoch) e, ap (λ t. t.history) e, ap (λ t. t.revoked_leaves) e)
  Ending-Advances s t (stopped next e) =
      let (a, b, c) = admissions-SameRecord next s in
      same s t
        (ap (λ t. t.epoch) e ∙ a, ap (λ t. t.history) e ∙ b, ap (λ t. t.revoked_leaves) e ∙ c)
  Ending-Advances s t (opened next n e) = rw e (open_epoch-Advances next s n)

  pub advance_epoch-Advances : (s : AgoraState) → Advances s (advance_epoch prim depth s).1
  advance_epoch-Advances s = Ending-Advances s _ (advance_epoch-Ending prim depth s)

  execute_decision-Advances :
      (d : Decision) (s : AgoraState) → Advances s (execute_decision prim depth d s).1
  unfolding execute_decision
  execute_decision-Advances (policy c a b) s =
      same s _ (unfold SameRecord execute_policy in ground arith)
  execute_decision-Advances (revocation leaf) s =
      let s' = record s {
        staged = record s.staged { revocations = s.staged.revocations ++ leaf ∷ [] };
      } in
      let a = advance_epoch-Advances s' in
      rw (bind-pure (advance_epoch prim depth) revoked s')
        (record { epoch = a.epoch; history = a.history; revoked = a.revoked })
  execute_decision-Advances dissolution s = same s _ (unfold SameRecord dissolve in ground arith)
  execute_decision-Advances (inbox_horizon n) s = same s _ (unfold SameRecord in ground arith)

  -- What `execute` leaves: the state it found, or what the decision of a proposal whose quorum
  -- is met leaves.
  pub execute-cases :
      (subject : ℕ) (s : AgoraState)
      → ((execute prim depth subject s).1 ≡ s)
        ⊎ ((p : Proposal) × (Map.lookup subject s.proposals ≡ some p)
            × (s.governance_quorum ≤ length p.approvals)
            × ((execute prim depth subject s).1
                ≡ (execute_decision prim depth p.decision
                    (record s { proposals = Map.remove subject s.proposals })).1))
  unfolding execute live
  execute-cases subject s = elim (Option-cases (Map.lookup subject s.proposals)) [
    | inl e ↦ inl (ground arith)
    | inr (p, e) ↦ elim (Bool-cases (ltb (length p.approvals) s.governance_quorum)) [
      | inl few ↦ inl (ground arith)
      | inr met ↦ elim (Bool-cases s.dissolved) [
        | inl gone ↦ inl (ground arith)
        | inr here ↦ inr (p, e, ground arith, ground arith)
      ]
    ]
  ]

  execute-Advances : (subject : ℕ) (s : AgoraState) → Advances s (execute prim depth subject s).1
  execute-Advances subject s = elim (execute-cases subject s) [
    | inl e ↦ rw e (same s s (unfold SameRecord in (refl, refl, refl)))
    | inr (p, _, _, e) ↦
        let a =
          execute_decision-Advances p.decision
            (record s { proposals = Map.remove subject s.proposals }) in
        rw e (record { epoch = a.epoch; history = a.history; revoked = a.revoked })
  ]

  -- Whatever a call answers, the epoch stays or moves one on, the roots kept for the epochs up to
  -- it stay, and a leaf that is revoked stays revoked.
  pub run-Advances :
      (system : ProofSystem) (call : Call prim system depth) (s : AgoraState)
      → Advances s (run prim system depth call s)
  unfolding run
  run-Advances y (init_credentials a b) s = quiet s _ (Quiet.credentials_init-Quiet y depth a b s)
  run-Advances y (start a b c) s = quiet s _ (Quiet.start_vouch-Quiet y depth a b c s)
  run-Advances y (attest a b c) s = quiet s _ (Quiet.vouch_attest-Quiet y depth a b c s)
  run-Advances y (finalize a) s = quiet s _ (Quiet.vouch_finalize-Quiet y depth a s)
  run-Advances y (raise_decision a b c) s = quiet s _ (Quiet.propose-Quiet y depth prim a b c s)
  run-Advances y (approve_decision a b c) s = quiet s _ (Quiet.approve-Quiet y depth a b c s)
  run-Advances y (execute_subject a) s = execute-Advances a s
  run-Advances y (challenge a) s = quiet s _ (Quiet.issue_challenge-Quiet y depth a s)
  run-Advances y (redeem a b c) s = quiet s _ (Quiet.redeem_access-Quiet y depth a b c s)
  run-Advances y (migrate_leaf a b c d e) s = quiet s _ (Quiet.migrate-Quiet y depth a b c d e s)
  run-Advances y (instruct_inbox a b c d) s =
      quiet s _ (Quiet.inbox_certificate-Quiet y depth a b c d s)
  run-Advances y advance s = advance_epoch-Advances s

  run_all-Keeps :
      (system : ProofSystem) (calls : List (Call prim system depth)) (s : AgoraState)
      → Keeps s (run_all prim system depth calls s)
  unfolding run_all
  run_all-Keeps y [] s = record {
    forward = omega arith;
    history = λ e l. refl;
    revoked = λ leaf h. h;
  }
  run_all-Keeps y (call ∷ calls) s =
      let a = run-Advances y call s in
      let le = step_le s (run prim y depth call s) a.epoch in
      let rest = run_all-Keeps y calls (run prim y depth call s) in
      record {
        forward = le_trans le rest.forward;
        history = λ e l. rest.history e (le_trans l le) ∙ a.history e l;
        revoked = λ leaf h. rest.revoked leaf (a.revoked leaf h);
      }

  -- Over any sequence of calls, answered or refused, the epoch never goes back, and the roots
  -- kept for an epoch that was reached never change.
  pub run_all-history :
      (system : ProofSystem) (calls : List (Call prim system depth)) (s : AgoraState) (e : ℕ)
      → e ≤ s.epoch
      → (s.epoch ≤ (run_all prim system depth calls s).epoch)
        × (Map.lookup e (run_all prim system depth calls s).history ≡ Map.lookup e s.history)
  run_all-history y calls s e l = let k = run_all-Keeps y calls s in (k.forward, k.history e l)

  -- Over any sequence of calls, answered or refused, a revoked leaf stays revoked, and no inbox
  -- of it is ever served.
  pub run_all-revoked :
      (system : ProofSystem) (calls : List (Call prim system depth)) (s : AgoraState) (leaf : ℕ)
      → contains leaf s.revoked_leaves ≡ true
      → (contains leaf (run_all prim system depth calls s).revoked_leaves ≡ true)
        × (inbox_live leaf (run_all prim system depth calls s) ≡ none)
  run_all-revoked y calls s leaf h =
      let gone = (run_all-Keeps y calls s).revoked leaf h in (gone, inbox_live-revoked leaf _ gone)
