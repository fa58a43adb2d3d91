-- ===== src/Credential/Migration.antt =====
-- nymora-protocol/src/credential.rs: planned migration, on the old device and on the successor's.
pub mod Destroy
pub mod Authorize
pub mod Lineage
pub mod Complete
use nymora.Prelude.{ℕ, Option, none, some, List, [], ◌∷◌, bytes_eq, not, if◌then◌else◌}
use nymora.Prelude.Bytes.{Bytes}
use nymora.Core.Error.{Outcome, ok, err, panic, ProtocolError}
use nymora.Crypto.Primitives.{Primitives}
use nymora.Crypto.Inbox.{mint_inbox_secret}
use nymora.Crypto.Inbox
use nymora.Wire.Handoff
use nymora.Wire.Handoff.{MigrationHandoff}
use nymora.Credential.Ports.{
  SecureStorage, KeyStore, Slot, RootMaterialWritten, MigrationCertPayload, InboxCertPayload,
}
use nymora.Proofs.{InboxAction}
use nymora.Credential.Session.{
  Action, pure, lift, ◌>>=◌, ◌>>◌, ok_or, destroy, load_value, load_secret32, load_cursor,
}
use nymora.Credential.Epochs.{slice, written, discard_expired}
use nymora.Credential.Create.{inbox_public_key, store_credential_material}
use nymora.Credential.Derive.{mint_secret, commit, migration}

pub record Migrated : Type 0 where
  pub commitment : Bytes
  pub spend : Bytes
  pub inbox : Bytes

-- The buffers, as they are before the call.
pub record MigrationBuffers : Type 0 where
  pub root_public_key : Bytes
  pub signature : Bytes
  pub retire_signature : Bytes
  pub handoff : Bytes

unfoldable pub create_successor_root :
    Bytes → KeyStore → Bytes → Bytes → Outcome RootMaterialWritten × Bytes × Bytes
create_successor_root agora key_store public_key binding =
    key_store.create_root agora public_key binding

-- `if handoff.agora != agora { return Err(ProtocolError::Malformed) }`
unfoldable pub check_agora : MigrationHandoff → Bytes → Outcome (Unit {0})
check_agora handoff agora =
    if not (bytes_eq handoff.agora agora) then err ProtocolError.malformed else ok tt

module _ (port : SecureStorage) (agora : Bytes) where
  open port use {State}

  unfoldable pub destroy_epochs : Option ℕ → Action State (Unit {0})
  destroy_epochs none = pure tt
  destroy_epochs (some cursor) = do
    discard_expired port agora cursor
    destroy port agora (Slot.epoch_key cursor)
    destroy port agora (Slot.epoch_cert cursor)
    destroy port agora Slot.epoch_cursor

  unfoldable pub destroy_acting_material : Action State (Unit {0})
  destroy_acting_material = do
    destroy port agora Slot.inbox_key
    cursor ← load_cursor port agora
    destroy_epochs cursor

  module _ (prim : Primitives) where
    -- What the old device signs and hands over: the handoff.
    unfoldable pub sign_handoff :
        KeyStore → Bytes → MigrationBuffers → Action State MigrationHandoff
    sign_handoff key_store successor_public_key buffers = do
      sk_cred ← load_secret32 port agora Slot.credential_key
      r_root ← load_secret32 port agora Slot.root_opening
      found ← load_value port agora Slot.root_public_key buffers.root_public_key
      pk_root ← lift (ok_or found ProtocolError.unavailable)
      inbox ← inbox_public_key port agora prim
      let payload : MigrationCertPayload = record {
        agora = agora;
        successor_public_key = successor_public_key;
      }
      (sig_len, signature) ← lift (written (key_store.sign_migration payload buffers.signature))
      let retirement : InboxCertPayload = record {
        agora = agora;
        action = InboxAction.retire;
        inbox_public_key = inbox;
      }
      (retire_len, retire_signature) ←
          lift (written (key_store.sign_inbox_cert retirement buffers.retire_signature))
      migration_cert ← lift (slice sig_len signature)
      retire_cert ← lift (slice retire_len retire_signature)
      pure (record {
        agora = agora;
        credential_key = sk_cred;
        root_opening = r_root;
        root_public_key = pk_root;
        migration_cert = migration_cert;
        retire_cert = retire_cert;
      })

    -- The length of the handoff and the buffer that holds it.
    unfoldable pub authorize_migration :
        KeyStore → Bytes → MigrationBuffers → Action State (ℕ × Bytes)
    authorize_migration key_store successor_public_key buffers = do
      handoff ← sign_handoff key_store successor_public_key buffers
      encoded ← lift (written (Handoff.encode handoff buffers.handoff))
      destroy_acting_material
      pure encoded

    module _ (coordinates : Bytes → Option (prim.fld.F × prim.fld.F)) where
      unfoldable pub complete_migration :
          MigrationHandoff → Bytes → Bytes → Bytes → Action State Migrated
      complete_migration handoff root_public_key root_opening inbox_key = do
        lift (check_agora handoff agora)
        let r_root = mint_secret root_opening
        commitment ← lift (
            ok_or (commit prim coordinates root_public_key handoff.credential_key r_root agora)
              ProtocolError.malformed)
        consumed_leaf ← lift (
            ok_or
              (commit prim coordinates handoff.root_public_key handoff.credential_key
                handoff.root_opening agora)
              ProtocolError.malformed)
        let spend = migration prim handoff.credential_key consumed_leaf agora
        let sk_inbox = mint_inbox_secret inbox_key
        store_credential_material port agora handoff.credential_key r_root root_public_key sk_inbox
        pure (record {
          commitment = commitment;
          spend = spend;
          inbox = Inbox.inbox_public_key prim sk_inbox;
        })
