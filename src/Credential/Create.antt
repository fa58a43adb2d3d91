-- ===== src/Credential/Create.antt =====
-- nymora-protocol/src/credential.rs: creation of a credential, and its stored material.
pub mod Atomic
pub mod Whole
use nymora.Prelude.{ℕ, Option, none, some, List, [], ◌∷◌, leb, if◌then◌else◌, length, take}
use nymora.Prelude.Bytes.{Bytes}
use nymora.Core.Error.{Outcome, ok, err, panic, ProtocolError}
use nymora.Crypto.Primitives.{Primitives}
use nymora.Crypto.Inbox.{mint_inbox_secret}
use nymora.Crypto.Inbox
use nymora.Credential.Ports.{SecureStorage, KeyStore, Slot, RootMaterialWritten, InboxCertPayload}
use nymora.Proofs.{InboxAction}
use nymora.Credential.Session.{
  Action, pure, lift, raise, ◌>>=◌, ◌>>◌, unwinding, ok_or, put, discard, load_value, load_secret32,
}
use nymora.Credential.Epochs.{slice}
use nymora.Credential.Derive.{mint_secret, commit}

pub record CredentialEntropy : Type 0 where
  pub credential_key : Bytes
  pub root_opening : Bytes
  pub inbox_key : Bytes

pub record Created : Type 0 where
  pub commitment : Bytes
  pub inbox : Bytes
  pub root : RootMaterialWritten

pub record InboxMaterial : Type 0 where
  pub credential_key : Bytes
  pub root_opening : Bytes
  pub root_public_key : Bytes

-- `create_root`, with the public key's buffer after it.
unfoldable pub root_of :
    Outcome RootMaterialWritten × Bytes × Bytes → Outcome (RootMaterialWritten × Bytes)
root_of (ok root, public_key, binding) = ok (root, public_key)
root_of (err e, public_key, binding) = err e
root_of (panic, public_key, binding) = panic

module _ (port : SecureStorage) (agora : Bytes) where
  open port use {State}

  -- The four slots of a credential, the ones already written unwound where a later one fails.
  unfoldable pub store_credential_material : Bytes → Bytes → Bytes → Bytes → Action State (Unit {0})
  store_credential_material sk_cred r_root pk_root sk_inbox = do
    put port agora Slot.credential_key sk_cred
    unwinding (put port agora Slot.root_opening r_root)
        (discard port agora (Slot.credential_key ∷ []))
    unwinding (put port agora Slot.root_public_key pk_root)
        (discard port agora (Slot.root_opening ∷ Slot.credential_key ∷ []))
    unwinding (put port agora Slot.inbox_key sk_inbox)
        (discard port agora (Slot.root_public_key ∷ Slot.root_opening ∷ Slot.credential_key ∷ []))

  unfoldable pub load_inbox_material : Bytes → Action State InboxMaterial
  load_inbox_material buffer = do
    credential_key ← load_secret32 port agora Slot.credential_key
    root_opening ← load_secret32 port agora Slot.root_opening
    found ← load_value port agora Slot.root_public_key buffer
    root_public_key ← lift (ok_or found ProtocolError.unavailable)
    pure (record {
      credential_key = credential_key;
      root_opening = root_opening;
      root_public_key = root_public_key;
    })

  module _ (prim : Primitives) where
    unfoldable pub inbox_public_key : Action State Bytes
    inbox_public_key = do
      secret ← load_secret32 port agora Slot.inbox_key
      pure (Inbox.inbox_public_key prim secret)

    module _ (coordinates : Bytes → Option (prim.fld.F × prim.fld.F)) (key_store : KeyStore) where
      unfoldable pub create : CredentialEntropy → Bytes → Bytes → Action State Created
      create entropy public_key binding = do
        (root, key_buffer) ← lift (root_of (key_store.create_root agora public_key binding))
        pk_root ← lift (slice root.public_key key_buffer)
        let sk_cred = mint_secret entropy.credential_key
        let r_root = mint_secret entropy.root_opening
        commitment ←
            lift
              (ok_or (commit prim coordinates pk_root sk_cred r_root agora) ProtocolError.malformed)
        let sk_inbox = mint_inbox_secret entropy.inbox_key
        store_credential_material sk_cred r_root pk_root sk_inbox
        pure (record {
          commitment = commitment;
          inbox = Inbox.inbox_public_key prim sk_inbox;
          root = root;
        })

-- `sign_inbox_cert`
unfoldable pub sign_inbox_cert : Bytes → KeyStore → InboxAction → Bytes → Bytes → Outcome ℕ × Bytes
sign_inbox_cert agora key_store action inbox signature =
    key_store.sign_inbox_cert (record { agora = agora; action = action; inbox_public_key = inbox })
      signature
