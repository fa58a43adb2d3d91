-- ===== src/Operator/Envelope/Delivery.antt =====
-- What an envelope carries for a counterparty to accept, and whom it leaves out.
use nymora.Prelude.{
  ℕ, ◌≡◌, refl, ◌∙◌, ap, true, false, none, List, [], ◌∷◌, ◌++◌, arith, contains, Option, replicate,
  inl, inr,
}
use nymora.Prelude.Bytes.{Bytes}
use nymora.Core.Error.{Outcome-cases, ok}
use nymora.Crypto.Primitives.{Primitives}
use nymora.Bulletin.{accept_envelope, statement_verifies, is_stale, digest}
use nymora.Operator.State.{AgoraState, ClassState, live}
use nymora.Operator.Log.Audit.{SignVerifies}
use nymora.Operator.Boundary.{advance_epoch}
use nymora.Operator.Boundary.Lands.{advance_epoch-opens}
use nymora.Operator.Envelope.{
  Envelope, inbox_live, body_now, ciphertext_for, class_ciphertexts, statement, sign_envelope,
  envelope_now, statement_key, current_envelope,
}

pub inbox_live-revoked :
    (leaf : ℕ) (s : AgoraState) → contains leaf s.revoked_leaves ≡ true → inbox_live leaf s ≡ none
unfolding inbox_live
inbox_live-revoked leaf s h = ground arith

module _ (prim : Primitives) (depth : ℕ) where
  envelope_now-signed :
      (s : AgoraState) (e : Envelope)
      → envelope_now prim depth s ≡ ok e
      → (u : Envelope) × (e ≡ sign_envelope prim depth s u) × (u.epoch ≡ s.epoch)
  unfolding envelope_now sign_envelope statement
  envelope_now-signed s e h = elim (Outcome-cases (body_now prim depth s)) [
    | inl (b, c) ↦ (record e { signature = replicate 64 0 }, ground arith, ground arith)
    | inr (inl (x, c)) ↦ ground arith
    | inr (inr c) ↦ ground arith
  ]

  answered :
      (s : AgoraState) (e : Envelope)
      → current_envelope prim depth s ≡ ok e
      → envelope_now prim depth s ≡ ok e
  unfolding current_envelope live
  answered s e h = ground arith

  accept_envelope-signed :
      SignVerifies prim
      → (s : AgoraState) (u : Envelope) (current : Option ℕ) → is_stale prim current u.epoch ≡ false
      → let e : Envelope = sign_envelope prim depth s u in
        accept_envelope prim
          (statement_key prim depth s)
          (statement prim depth s.agora e)
          e.signature
          current
        ≡ ok tt
  unfolding accept_envelope statement_verifies statement_key sign_envelope statement
  accept_envelope-signed sound s u current fresh = rw fresh (
      rw (sound s.statement_seed (prim.from_id (digest prim (statement prim depth s.agora u))))
        refl)

  -- Where signatures by a secret verify under its public key: the envelope that a live agora
  -- publishes is accepted under its statement key by every member whose current epoch, if any, is
  -- before the agora's.
  pub accept_envelope-current :
      SignVerifies prim
      → (s : AgoraState) (e : Envelope) (current : Option ℕ) → current_envelope prim depth s ≡ ok e
      → is_stale prim current s.epoch ≡ false
      → accept_envelope prim
          (statement_key prim depth s)
          (statement prim depth s.agora e)
          e.signature
          current
        ≡ ok tt
  accept_envelope-current sound s e current h fresh =
      let (u, signed, epoch) = envelope_now-signed s e (answered s e h) in
      rw signed
        (accept_envelope-signed sound s u current (ap (λ k. is_stale prim current k) epoch ∙ fresh))

  -- The rows of a leaf that is not served add nothing to the ciphertexts.
  class_ciphertexts-unserved :
      (s : AgoraState) (secret body_key : Bytes) (c : ℕ) (state : ClassState) (pre : List (ℕ × ℕ))
      (p leaf : ℕ) (post : List (ℕ × ℕ))
      → inbox_live leaf s ≡ none
      → class_ciphertexts prim depth s secret body_key c state (pre ++ (p, leaf) ∷ post)
        ≡ class_ciphertexts prim depth s secret body_key c state (pre ++ post)
  unfolding class_ciphertexts ciphertext_for
  class_ciphertexts-unserved s secret body_key c state [] p leaf post h = ground arith
  class_ciphertexts-unserved s secret body_key c state (x ∷ pre) p leaf post h =
      ground (arith, class_ciphertexts-unserved s secret body_key c state pre p leaf post h)

  -- A leaf staged for revocation is served by nothing from the boundary on: no inbox of it is
  -- live in the state the boundary leaves, and whatever row the ciphertexts of a class hold for
  -- it, they are those without the row.
  pub advance_epoch-unserved :
      (s : AgoraState) (e : Envelope) (leaf : ℕ)
      → (advance_epoch prim depth s).0 ≡ ok e
      → contains leaf s.staged.revocations ≡ true
      → let t : AgoraState = (advance_epoch prim depth s).1 in
        (inbox_live leaf t ≡ none)
        × ((secret body_key : Bytes) (c : ℕ) (state : ClassState) (pre : List (ℕ × ℕ)) (p : ℕ)
              (post : List (ℕ × ℕ))
            → class_ciphertexts prim depth t secret body_key c state (pre ++ (p, leaf) ∷ post)
              ≡ class_ciphertexts prim depth t secret body_key c state (pre ++ post))
  advance_epoch-unserved s e leaf h staged =
      let (_, _, _, _, _, _, revoked, _) = advance_epoch-opens prim depth s e h in
      let gone = inbox_live-revoked leaf _ (revoked leaf ∙ ground arith) in
      (
        gone,
        λ secret body_key c state pre p post.
            class_ciphertexts-unserved _ secret body_key c state pre p leaf post gone,
      )
