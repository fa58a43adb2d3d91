-- ===== src/Operator/Quorum/Effect.antt =====
-- nymora-protocol/src/operator/quorum.rs: what each arm of `execute` brings about.
use nymora.Prelude.{
  ℕ, ◌+◌, ◌≡◌, refl, sym, subst, ◌∙◌, ap, inl, inr, true, ◌||◌, none, some, [], ◌∷◌, ◌++◌, arith,
  contains, ◌==◌, if◌then◌else◌, Option-cases, Option, contains-append,
}
use nymora.Prelude.Map
use nymora.Core.Error.{Outcome-cases, ok}
use nymora.Core.Epoch
use nymora.Crypto.Primitives.{Primitives}
use nymora.Operator.State.{
  AgoraState, ClassState, Decision, Proposal, policy, revocation, dissolution, inbox_horizon,
  nothing_staged, dissolve,
}
use nymora.Operator.Envelope.{inbox_live, Envelope, envelope_now}
use nymora.Operator.Envelope.Delivery.{advance_epoch-unserved}
use nymora.Operator.Log
use nymora.Operator.Log.{TransparencyLog}
use nymora.Operator.Boundary.{advance_epoch}
use nymora.Operator.Boundary.Lands.{advance_epoch-opens}
use nymora.Operator.Quorum.{Executed, activate, execute_decision, execute_policy}

module _ (prim : Primitives) (depth : ℕ) where
  -- What an executed decision has brought about between two states, and its answer: a policy
  -- changes the threshold and the version of its class and the governance quorum; a revocation
  -- closes the epoch and its leaf is among the revoked; a dissolution shuts the agora and drops
  -- all that was open; a horizon is set.
  pub IsEffect : Decision → AgoraState → AgoraState → Executed → Type 0
  IsEffect (policy c threshold quorum) s t x =
      (before : ClassState) × (after : ClassState) × (Map.lookup c s.classes ≡ some before)
      × ((j : ℕ) → Map.lookup j t.classes ≡ (if j == c then some after else Map.lookup j s.classes))
      × (after.policy.admission_threshold ≡ threshold)
      × (after.policy.voucher_class ≡ before.policy.voucher_class)
      × (after.version ≡ before.version + 1)
      × (after.tree ≡ before.tree)
      × (t.governance_quorum ≡ quorum)
      × (t.epoch ≡ s.epoch)
      × (x ≡ Executed.policy_activated (before.version + 1))
  IsEffect (revocation leaf) s t x =
      (envelope : Envelope) × (x ≡ Executed.revoked envelope)
      × (Epoch.next s.epoch ≡ some t.epoch)
      × (contains leaf t.revoked_leaves ≡ true)
      × ((other : ℕ)
          → contains other t.revoked_leaves ≡ (
              contains other s.revoked_leaves
              || (contains other s.staged.revocations || other == leaf)))
      × (inbox_live leaf t ≡ none)
      × (envelope_now prim depth t ≡ ok envelope)
  IsEffect dissolution s t x =
      (x ≡ Executed.dissolved)
      × (t.dissolved ≡ true)
      × (t.sessions ≡ [])
      × (t.challenges ≡ [])
      × (t.staged ≡ nothing_staged)
      × (t.epoch ≡ s.epoch)
  IsEffect (inbox_horizon boundaries) s t x =
      (x ≡ Executed.horizon_changed boundaries)
      × (t.inbox_horizon ≡ boundaries)
      × (t.classes ≡ s.classes)
      × (t.revoked_leaves ≡ s.revoked_leaves)
      × (t.governance_quorum ≡ s.governance_quorum)
      × (t.epoch ≡ s.epoch)

  -- The state with one more leaf staged for revocation.
  abbrev with_revocation : ℕ → AgoraState → AgoraState
  with_revocation leaf s = record s {
    staged = record s.staged { revocations = s.staged.revocations ++ leaf ∷ [] };
  }

  -- The state that an activated policy leaves.
  abbrev activated : ℕ → ℕ → ℕ → ClassState → AgoraState → AgoraState
  activated c threshold quorum before s = record s {
    classes = Map.insert c (activate threshold before) s.classes;
    governance_quorum = quorum;
    log = elim s.log as (λ _. Option TransparencyLog) [
      | none ↦ none
      | some log ↦ some (Log.append prim (Log.policy_changed s.epoch c (before.version + 1)) log)
    ];
  }

  execute_policy-activated :
      (c threshold quorum : ℕ) (before : ClassState) (s : AgoraState)
      → Map.lookup c s.classes ≡ some before
      → execute_policy prim c threshold quorum s ≡ (
        ok (Executed.policy_activated (before.version + 1)),
        activated c threshold quorum before s,
      )
  unfolding execute_policy
  execute_policy-activated c threshold quorum before s e = ground arith

  execute_policy-unknown :
      (c threshold quorum : ℕ) (s : AgoraState) (x : Executed)
      → Map.lookup c s.classes ≡ none
      → (execute_policy prim c threshold quorum s).0 ≡ ok x
      → ⊥
  unfolding execute_policy
  execute_policy-unknown c threshold quorum s x e h = ground arith

  execute_policy-IsEffect :
      (subject c threshold quorum : ℕ) (s : AgoraState) (x : Executed)
      → Map.lookup subject s.proposals ≡ none
      → (execute_policy prim c threshold quorum s).0 ≡ ok x
      → IsEffect (policy c threshold quorum) s (execute_policy prim c threshold quorum s).1 x
        × (Map.lookup subject (execute_policy prim c threshold quorum s).1.proposals ≡ none)
  unfolding IsEffect activate
  execute_policy-IsEffect subject c threshold quorum s x gone h =
      elim (Option-cases (Map.lookup c s.classes)) [
        | inl e ↦ absurd (execute_policy-unknown c threshold quorum s x e h)
        | inr (before, e) ↦
            let done = execute_policy-activated c threshold quorum before s e in
            let after : ClassState = activate threshold before in
            let answer = sym (ap (λ r. r.0) done) ∙ h in
            (
              (
                before,
                after,
                e,
                λ j.
                    ap (λ r. Map.lookup j r.1.classes) done ∙ Map.lookup-insert c j after s.classes,
                refl,
                refl,
                refl,
                refl,
                ap (λ r. r.1.governance_quorum) done,
                ap (λ r. r.1.epoch) done,
                ground arith,
              ),
              ap (λ r. Map.lookup subject r.1.proposals) done ∙ gone,
            )
      ]

  execute_revocation-envelope :
      (leaf : ℕ) (s : AgoraState) (envelope : Envelope)
      → (advance_epoch prim depth (with_revocation leaf s)).0 ≡ ok envelope
      → execute_decision prim depth (revocation leaf) s
        ≡ (ok (Executed.revoked envelope), (advance_epoch prim depth (with_revocation leaf s)).1)
  unfolding execute_decision
  execute_revocation-envelope leaf s envelope a = ground arith

  staged_leaf :
      (leaf : ℕ) (s : AgoraState) → contains leaf (s.staged.revocations ++ leaf ∷ []) ≡ true
  staged_leaf leaf s = ground (arith, contains-append leaf s.staged.revocations (leaf ∷ []))

  staged_or_leaf :
      (leaf other : ℕ) (s : AgoraState)
      → contains other (s.staged.revocations ++ leaf ∷ [])
        ≡ (contains other s.staged.revocations || other == leaf)
  staged_or_leaf leaf other s =
      ground (arith, contains-append other s.staged.revocations (leaf ∷ []))

  revoked_or_staged :
      (leaf : ℕ) (s : AgoraState)
      → (contains leaf s.revoked_leaves || contains leaf (s.staged.revocations ++ leaf ∷ [])) ≡ true
  revoked_or_staged leaf s = ground (arith, staged_leaf leaf s)

  execute_revocation-IsEffect :
      (subject leaf : ℕ) (s : AgoraState) (x : Executed)
      → (execute_decision prim depth (revocation leaf) s).0 ≡ ok x
      → IsEffect (revocation leaf) s (execute_decision prim depth (revocation leaf) s).1 x
        × (Map.lookup subject (execute_decision prim depth (revocation leaf) s).1.proposals ≡ none)
  unfolding IsEffect execute_decision Map.lookup
  execute_revocation-IsEffect subject leaf s x h =
      let u : AgoraState = with_revocation leaf s in
      elim (Outcome-cases (advance_epoch prim depth u).0) [
        | inr (inl (y, a)) ↦ ground arith
        | inr (inr a) ↦ ground arith
        | inl (envelope, a) ↦
            let done = execute_revocation-envelope leaf s envelope a in
            let (_, next, _, _, proposals, _, revoked, answered) =
              advance_epoch-opens prim depth u envelope a in
            let (unserved, _) =
              advance_epoch-unserved prim depth u envelope leaf a (staged_leaf leaf s) in
            let answer : x ≡ Executed.revoked envelope = ground arith in
            subst
              (λ (t : AgoraState).
                IsEffect (revocation leaf) s t x × (Map.lookup subject t.proposals ≡ none))
              (sym (ap (λ r. r.1) done))
              (
                (
                  envelope,
                  answer,
                  next,
                  revoked leaf ∙ revoked_or_staged leaf s,
                  λ other.
                      revoked other
                      ∙ ap (λ b. contains other s.revoked_leaves || b)
                          (staged_or_leaf leaf other s),
                  unserved,
                  answered,
                ),
                ap (Map.lookup subject) proposals,
              )
      ]

  -- The decision's effect, and that it opens no proposal again.
  pub execute_decision-IsEffect :
      (subject : ℕ) (d : Decision) (s : AgoraState) (x : Executed)
      → Map.lookup subject s.proposals ≡ none
      → (execute_decision prim depth d s).0 ≡ ok x
      → IsEffect d s (execute_decision prim depth d s).1 x
        × (Map.lookup subject (execute_decision prim depth d s).1.proposals ≡ none)
  unfolding execute_decision dissolve Map.lookup IsEffect
  execute_decision-IsEffect subject (policy c threshold quorum) s x gone h =
      execute_policy-IsEffect subject c threshold quorum s x gone h
  execute_decision-IsEffect subject (revocation leaf) s x gone h =
      execute_revocation-IsEffect subject leaf s x h
  execute_decision-IsEffect subject dissolution s x gone h =
      ((ground arith, refl, refl, refl, refl, refl), refl)
  execute_decision-IsEffect subject (inbox_horizon boundaries) s x gone h =
      ((ground arith, refl, refl, refl, refl, refl), gone)

  -- An effect is the same from a state with other proposals.
  pub IsEffect-proposals :
      (d : Decision) (m : Map.Map Proposal) (s t : AgoraState) (x : Executed)
      → IsEffect d (record s { proposals = m }) t x
      → IsEffect d s t x
  unfolding IsEffect
  IsEffect-proposals (policy c threshold quorum) m s t x h = h
  IsEffect-proposals (revocation leaf) m s t x h = h
  IsEffect-proposals dissolution m s t x h = h
  IsEffect-proposals (inbox_horizon boundaries) m s t x h = h
