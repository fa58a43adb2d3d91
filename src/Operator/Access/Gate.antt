-- ===== src/Operator/Access/Gate.antt =====
-- The member gate: a capability is for one epoch of a live agora.
use nymora.Prelude.{
  ℕ, ◌≡◌, refl, ◌∙◌, ap, inl, inr, true, false, some, [], ◌∷◌, arith, contains, List,
}
use nymora.Prelude.NatSet
use nymora.Prelude.Bytes.{Bytes}
use nymora.Core.Error.{Outcome-cases, ok, err, ProtocolError}
use nymora.Core.Epoch
use nymora.Crypto.Primitives.{Primitives}
use nymora.Proofs.{ProofSystem, EpochRoots, verify_verification_access}
use nymora.Operator.State.{AgoraState, live, roots_in}
use nymora.Operator.Envelope.{Envelope}
use nymora.Operator.Boundary.{advance_epoch}
use nymora.Operator.Boundary.Lands.{advance_epoch-opens}
use nymora.Operator.Access.{
  MemberAccess, admit, consume_challenge, redeem_access, roots_at, tag_key_at, revocation_keys,
  spend_keys, verify_attestation,
}

-- What the gate refuses, every service behind it refuses.
module _ (prim : Primitives) (system : ProofSystem) (access : MemberAccess) (s : AgoraState) where
  unfoldable pub Shut : Type 0
  Shut =
      (admit access s ≡ err ProtocolError.rejected)
      × ((c e : ℕ) → roots_at access c e s ≡ err ProtocolError.rejected)
      × ((e : ℕ) → tag_key_at prim access e s ≡ err ProtocolError.rejected)
      × (revocation_keys access s ≡ err ProtocolError.rejected)
      × (spend_keys access s ≡ err ProtocolError.rejected)
      × ((c e : ℕ) (proof : system.Proof) (message : Bytes) (nullifier : ℕ)
          → verify_attestation system access c e proof message nullifier s
            ≡ err ProtocolError.rejected)

  shut : (n : ℕ) → access.epoch ≡ n → Epoch.next n ≡ some s.epoch → Shut
  unfolding Shut admit live roots_at tag_key_at revocation_keys spend_keys verify_attestation
      Epoch.next
  shut n e m = (
    ground arith,
    λ c k. ground arith,
    λ k. ground arith,
    ground arith,
    ground arith,
    λ c k proof message nullifier. ground arith,
  )

admit-epoch :
    (access : MemberAccess) (s : AgoraState) → admit access s ≡ ok tt → access.epoch ≡ s.epoch
unfolding admit live
admit-epoch access s h = ground arith

admitted :
    (access : MemberAccess) (s : AgoraState)
    → s.dissolved ≡ false
    → access.epoch ≡ s.epoch
    → admit access s ≡ ok tt
unfolding admit live
admitted access s l e = ground arith

-- A capability that admits does not outlive the epoch: once a boundary answers, the gate refuses
-- it, and so does every read behind the gate, the verification of an attestation included.
pub advance_epoch-Shut :
    (prim : Primitives) (system : ProofSystem) (depth : ℕ) (access : MemberAccess) (s : AgoraState)
    (envelope : Envelope)
    → admit access s ≡ ok tt
    → (advance_epoch prim depth s).0 ≡ ok envelope
    → Shut prim system access (advance_epoch prim depth s).1
advance_epoch-Shut prim system depth access s envelope h a =
    shut prim system access _ s.epoch (admit-epoch access s h)
      (advance_epoch-opens prim depth s envelope a).1

remove-absent : (n : ℕ) (l : List ℕ) → contains n l ≡ false → NatSet.remove n l ≡ l
unfolding NatSet.remove
remove-absent n [] h = refl
remove-absent n (m ∷ l) h = ground (arith, remove-absent n l)

removed : (n : ℕ) (l : List ℕ) → contains n (NatSet.remove n l) ≡ false
removed n l = ground (arith, NatSet.contains-remove n n l)

module _ (system : ProofSystem) where
  record Redeemed (c : ℕ) (proof : system.Proof) (n : ℕ) (s t : AgoraState) (access : MemberAccess)
      : Type 0 where
    pub roots : EpochRoots
    pub here : s.dissolved ≡ false
    pub known : contains n s.challenges ≡ true
    pub published : roots_in s.epoch c s ≡ ok roots
    pub proved : verify_verification_access system proof s.agora s.epoch roots n ≡ true
    pub current : access.epoch ≡ s.epoch
    pub written : t ≡ record s { challenges = NatSet.remove n s.challenges }

  redeem_access-Redeemed :
      (c : ℕ) (proof : system.Proof) (n : ℕ) (s : AgoraState) (access : MemberAccess)
      → (redeem_access system c proof n s).0 ≡ ok access
      → Redeemed c proof n s (redeem_access system c proof n s).1 access
  unfolding redeem_access consume_challenge live roots_in
  redeem_access-Redeemed c proof n s access h = elim (Outcome-cases (roots_in s.epoch c s)) [
    | inr (inl (x, r)) ↦ ground arith
    | inr (inr r) ↦ ground arith
    | inl (rs, r) ↦ record {
      roots = rs;
      here = ground arith;
      known = ground arith;
      published = r;
      proved = ground arith;
      current = ground arith;
      written = ground arith;
    }
  ]

  redeem_access-unknown :
      (c : ℕ) (proof : system.Proof) (n : ℕ) (s : AgoraState)
      → contains n s.challenges ≡ false
      → redeem_access system c proof n s ≡ (err ProtocolError.rejected, s)
  unfolding redeem_access consume_challenge live
  redeem_access-unknown c proof n s h = ground (arith, remove-absent n s.challenges h)

  -- A redemption that answers: the challenge was outstanding and no longer is, the proof verified
  -- for it against the roots of the current epoch, the capability admits in the state it leaves,
  -- and a second redemption of the challenge is refused, whatever its proof.
  pub redeem_access-once :
      (c : ℕ) (proof again : system.Proof) (n : ℕ) (s : AgoraState) (access : MemberAccess)
      → (redeem_access system c proof n s).0 ≡ ok access
      → let t : AgoraState = (redeem_access system c proof n s).1 in
        ((roots : EpochRoots) × (roots_in s.epoch c s ≡ ok roots)
          × (verify_verification_access system proof s.agora s.epoch roots n ≡ true))
        × (contains n s.challenges ≡ true)
        × (contains n t.challenges ≡ false)
        × (admit access t ≡ ok tt)
        × (redeem_access system c again n t ≡ (err ProtocolError.rejected, t))
  redeem_access-once c proof again n s access h =
      let r = redeem_access-Redeemed c proof n s access h in
      let absent = ap (λ t. contains n t.challenges) r.written ∙ removed n s.challenges in
      (
        (r.roots, r.published, r.proved),
        r.known,
        absent,
        ap (λ t. admit access t) r.written
            ∙ admitted access (record s { challenges = NatSet.remove n s.challenges }) r.here
                r.current,
        redeem_access-unknown c again n _ absent,
      )
