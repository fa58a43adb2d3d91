-- ===== src/Credential/Software/Certifies.antt =====
-- The software key store is a key store: it signs the canonical message of each certificate under
-- the root key that it published.
use nymora.Prelude.{
  ℕ, ◌+◌, ◌≤◌, ◌≡◌, refl, sym, ap, ◌∙◌, true, Option, none, some, ◌++◌, arith, subst, length, take,
  drop, take-append, length-append,
}
use nymora.Prelude.Bytes.{Bytes}
use nymora.Core.Error.{Outcome, ok, err, panic}
use nymora.Crypto.Primitives.{Primitives}
use nymora.Wire.Writer.{copy_at}
use nymora.Operator.Log.Audit.{SignVerifies}
use nymora.Credential.Ports.{
  KeyStore, EpochCertPayload, MigrationCertPayload, InboxCertPayload, RootMaterialWritten,
}
use nymora.Credential.Software.{
  put_value, epoch_cert_message, migration_cert_message, inbox_cert_message, root_key, sign_message,
  put_signature, root_written, create_software_root, software,
}

-- A signing request, of one of the three kinds of certificate.
pub data Request : Type 0 where
  certify_epoch : EpochCertPayload → Request
  certify_migration : MigrationCertPayload → Request
  certify_inbox : InboxCertPayload → Request

unfoldable pub agora_of : Request → Bytes
agora_of (certify_epoch p) = p.agora
agora_of (certify_migration p) = p.agora
agora_of (certify_inbox p) = p.agora

unfoldable pub sign_request : KeyStore → Request → Bytes → Outcome ℕ × Bytes
sign_request store (certify_epoch p) out = store.sign_epoch_cert p out
sign_request store (certify_migration p) out = store.sign_migration p out
sign_request store (certify_inbox p) out = store.sign_inbox_cert p out

put_value-inversion :
    (out value out' : Bytes) (n : ℕ)
    → put_value out value ≡ (ok n, out')
    → (n ≡ length value) × (take n out' ≡ value) × (n ≤ length out')
unfolding put_value copy_at
put_value-inversion out value out' n h =
    let size : length value ≡ n = ground arith in
    let bytes : value ++ drop (0 + length value) out ≡ out' = ground arith in
    (
      sym size,
      ap (λ w. take w out') (sym size) ∙ ap (take (length value)) (sym bytes) ∙ take-append value _,
      subst (λ w. n ≤ length w) bytes
          (subst (λ k. n ≤ k) (sym (length-append value _)) (omega arith)),
    )

root_written-inversion :
    (o : Outcome ℕ × Bytes) (binding pk' binding' : Bytes) (w : RootMaterialWritten)
    → root_written o binding ≡ (ok w, pk', binding')
    → o ≡ (ok w.public_key, pk')
unfolding root_written
root_written-inversion (ok n, out) binding pk' binding' w h =
    let made : record { public_key = n; binding = none } ≡ w = made_of h in
    let bytes : out ≡ pk' = λ i. (h i).1 in λ i. (ok (made i).public_key, bytes i)
  where
    made_of :
        {x y : RootMaterialWritten} {p q : Bytes × Bytes}
        → ◌≡◌ {A = Outcome RootMaterialWritten × Bytes × Bytes} (ok x, p.0, p.1) (ok y, q.0, q.1)
        → x ≡ y
    made_of h = ground arith
root_written-inversion (err e, out) binding pk' binding' w h = ground arith
root_written-inversion (panic, out) binding pk' binding' w h = ground arith

module _ (prim : Primitives) (coordinates : Bytes → Option (prim.fld.F × prim.fld.F)) where
  unfoldable pub message_of : Request → Option prim.fld.F
  message_of (certify_epoch p) = epoch_cert_message prim coordinates p
  message_of (certify_migration p) = migration_cert_message prim coordinates p
  message_of (certify_inbox p) = inbox_cert_message prim coordinates p

  signed_with :
      (seed : Bytes) (q : Request) (out : Bytes)
      → sign_request (software prim coordinates seed) q out
        ≡ put_signature prim coordinates
            (sign_message prim coordinates seed (agora_of q) (message_of q))
            out
  unfolding sign_request software agora_of message_of
  signed_with seed (certify_epoch p) out = refl
  signed_with seed (certify_migration p) out = refl
  signed_with seed (certify_inbox p) out = refl

  put_signature-inversion :
      (seed agora : Bytes) (message : Option prim.fld.F) (out out' : Bytes) (n : ℕ)
      → put_signature prim coordinates (sign_message prim coordinates seed agora message) out
        ≡ (ok n, out')
      → (m : prim.fld.F) × (message ≡ some m)
        × (take n out' ≡ prim.sign (root_key prim coordinates seed agora) m)
        × (n ≤ length out')
  unfolding put_signature sign_message
  put_signature-inversion seed agora none out out' n h = ground arith
  put_signature-inversion seed agora (some m) out out' n h =
      let (_, cut, room) =
        put_value-inversion out (prim.sign (root_key prim coordinates seed agora) m) out' n h in
      (m, refl, cut, room)

  -- The software key store keeps the key store's contract: whichever of the three certificates
  -- it signs for an agora, it signs exactly the canonical message of the payload, inside the
  -- caller's buffer, and the signature verifies under the public key that `create_root` writes
  -- where it answers for that agora. A signature by a secret verifies under the secret's public
  -- key.
  pub sign_request-verifies :
      (seed : Bytes) (q : Request) (out out' : Bytes) (n : ℕ) (pk binding pk' binding' : Bytes)
      (w : RootMaterialWritten)
      → SignVerifies prim
      → sign_request (software prim coordinates seed) q out ≡ (ok n, out')
      → (software prim coordinates seed).create_root (agora_of q) pk binding ≡ (ok w, pk', binding')
      → (m : prim.fld.F) × (message_of q ≡ some m)
        × (n ≤ length out')
        × (prim.verify (take w.public_key pk') m (take n out') ≡ true)
  unfolding software create_software_root
  sign_request-verifies seed q out out' n pk binding pk' binding' w verifies h created =
      let (m, canonical, cut, room) =
        put_signature-inversion seed (agora_of q) (message_of q) out out' n
          (sym (signed_with seed q out) ∙ h) in
      let (_, published, _) =
        put_value-inversion pk (prim.public_key (root_key prim coordinates seed (agora_of q))) pk'
          w.public_key (root_written-inversion _ binding pk' binding' w created) in
      (
        m,
        canonical,
        room,
        ap (λ k. prim.verify k m (take n out')) published
            ∙ ap (prim.verify (prim.public_key (root_key prim coordinates seed (agora_of q))) m) cut
            ∙ verifies (root_key prim coordinates seed (agora_of q)) m,
      )
