-- ===== src/Credential/Software.antt =====
-- nymora-ports/src/software.rs: the software key store, and the messages of the three certificates
-- from nymora-crypto/src/signature.rs. The point decoding and its coordinates are a parameter, as
-- in Credential/Derive.
pub mod Certifies
use nymora.Prelude.{
  ℕ, ◌+◌, Bool, false, Option, none, some, List, [], ◌∷◌, ◌++◌, leb, ◌==◌, if◌then◌else◌, length,
}
use nymora.Prelude.Bytes.{Bytes}
use nymora.Core.Domain.{codes}
use nymora.Core.Error.{Outcome, ok, err, panic, ProtocolError}
use nymora.Crypto.Hash.{frame}
use nymora.Crypto.Primitives.{Primitives}
use nymora.Proofs.{InboxAction, retire, renew}
use nymora.Wire.Writer.{copy_at}
use nymora.Credential.Ports.{
  KeyStore, EpochCertPayload, MigrationCertPayload, InboxCertPayload, RootMaterialWritten,
}

pub record Capabilities : Type 0 where
  pub non_exportable : Bool
  pub attests_binding : Bool
  pub requires_user_presence : Bool

-- `SoftwareKeyStore::capabilities`
abbrev pub capabilities : Capabilities
capabilities = record {
  non_exportable = false;
  attests_binding = false;
  requires_user_presence = false;
}

-- `ROOT`
abbrev pub root_separator : Bytes
root_separator = codes "software-key-store/v0/root"

-- `put`: the answer and the buffer.
unfoldable pub put_value : Bytes → Bytes → Outcome ℕ × Bytes
put_value out value =
    if leb (length value) (length out)
    then (ok (length value), copy_at 0 value out)
    else (err ProtocolError.malformed, out)

-- What `create_root` answers, with no binding.
unfoldable pub root_written :
    Outcome ℕ × Bytes → Bytes → Outcome RootMaterialWritten × Bytes × Bytes
root_written (ok len, out) binding =
    (ok (record { public_key = len; binding = none }), out, binding)
root_written (err e, out) binding = (err e, out, binding)
root_written (panic, out) binding = (panic, out, binding)

-- `InboxAction::tag`
unfoldable pub action_tag : InboxAction → ℕ
action_tag retire = 0
action_tag renew = 1

module _ (prim : Primitives) (coordinates : Bytes → Option (prim.fld.F × prim.fld.F)) where
  open prim use {fld, from_id}

  -- `field_domain::EPOCH_CERT`
  unfoldable pub epoch_cert_message : EpochCertPayload → Option fld.F
  epoch_cert_message payload = elim (coordinates payload.epoch_public_key) [
    | none ↦ none
    | some (x, y) ↦ some (
        fld.hash (fld.from_u64 4 ∷ from_id payload.agora ∷ fld.from_u64 payload.epoch ∷ x ∷ y ∷ []))
  ]

  -- `field_domain::MIGRATION_CERT`
  unfoldable pub migration_cert_message : MigrationCertPayload → Option fld.F
  migration_cert_message payload = elim (coordinates payload.successor_public_key) [
    | none ↦ none
    | some (x, y) ↦ some (fld.hash (fld.from_u64 5 ∷ from_id payload.agora ∷ x ∷ y ∷ []))
  ]

  -- `field_domain::INBOX_CERT`
  unfoldable pub inbox_cert_message : InboxCertPayload → Option fld.F
  inbox_cert_message payload =
      if length payload.inbox_public_key == 32
      then some (
          fld.hash (
            fld.from_u64 9
            ∷ from_id payload.agora
            ∷ fld.from_u64 (action_tag payload.action)
            ∷ from_id payload.inbox_public_key
            ∷ []))
      else none

  -- One master seed, one scalar per agora.
  unfoldable pub root_key : Bytes → Bytes → Bytes
  root_key seed agora =
      prim.mint_signing_secret (prim.sha256 (frame root_separator ++ (frame seed ++ frame agora)))

  unfoldable pub sign_message : Bytes → Bytes → Option fld.F → Outcome Bytes
  sign_message seed agora none = err ProtocolError.malformed
  sign_message seed agora (some message) = ok (prim.sign (root_key seed agora) message)

  -- The signature of a message, written into the caller's buffer.
  unfoldable pub put_signature : Outcome Bytes → Bytes → Outcome ℕ × Bytes
  put_signature (ok value) signature = put_value signature value
  put_signature (err e) signature = (err e, signature)
  put_signature panic signature = (panic, signature)

  unfoldable pub create_software_root :
      Bytes → Bytes → Bytes → Bytes → Outcome RootMaterialWritten × Bytes × Bytes
  create_software_root seed agora public_key binding =
      root_written (put_value public_key (prim.public_key (root_key seed agora))) binding

  -- `impl KeyStore for SoftwareKeyStore`
  unfoldable pub software : Bytes → KeyStore
  software seed = record {
    create_root = create_software_root seed;
    sign_epoch_cert = λ payload signature.
        put_signature (sign_message seed payload.agora (epoch_cert_message payload)) signature;
    sign_migration = λ payload signature.
        put_signature (sign_message seed payload.agora (migration_cert_message payload)) signature;
    sign_inbox_cert = λ payload signature.
        put_signature (sign_message seed payload.agora (inbox_cert_message payload)) signature;
  }
