-- ===== src/Credential/Create/Whole.antt =====
-- `create` leaves a whole credential or none.
use nymora.Prelude.{◌≡◌, refl, inl, inr, Option, none, some, arith}
use nymora.Prelude.Bytes.{Bytes}
use nymora.Core.Error.{Outcome, ok, err, panic, ProtocolError}
use nymora.Crypto.Primitives.{Primitives}
use nymora.Crypto.Inbox.{mint_inbox_secret}
use nymora.Crypto.Inbox
use nymora.Credential.Ports.{SecureStorage, KeyStore, Holds, IsSecureStorage, Destroys}
use nymora.Credential.Session.{follow, pure, ok_or}
use nymora.Credential.Session.Steps.{lift_each}
use nymora.Credential.Epochs.{slice}
use nymora.Credential.Derive.{mint_secret, commit}
use nymora.Credential.Create.{
  CredentialEntropy, Created, root_of, store_credential_material, create,
}
use nymora.Credential.Create.Atomic.{
  IsBare, IsComplete, IsAllOrNothing, store_credential_material_atomic,
}

module _ {port : SecureStorage} {held : Holds port} (lawful : IsSecureStorage port held) (a : Bytes)
    (prim : Primitives) (coordinates : Bytes → Option (prim.fld.F × prim.fld.F))
    (key_store : KeyStore) where
  open port use {State}

  -- A credential that was created is stored, and its leaf commits to what is stored; after a
  -- failure nothing of it is.
  unfoldable pub IsWhole : CredentialEntropy → Outcome Created × State → Type 0
  IsWhole entropy (ok created, s) =
      (pk_root : Bytes) × IsComplete held a s (mint_secret entropy.credential_key)
        (mint_secret entropy.root_opening) pk_root (mint_inbox_secret entropy.inbox_key)
      × (commit prim coordinates pk_root (mint_secret entropy.credential_key)
            (mint_secret entropy.root_opening) a
          ≡ some created.commitment)
      × (created.inbox ≡ Inbox.inbox_public_key prim (mint_inbox_secret entropy.inbox_key))
  IsWhole entropy (err e, s) = IsBare held a s
  IsWhole entropy (panic, s) = IsBare held a s

  ok_or-some :
      {A : Type 0} (o : Option A) (e : ProtocolError) (x : A) → ok_or o e ≡ ok x → o ≡ some x
  ok_or-some none e x h = ground arith
  ok_or-some (some y) e x h = ground arith

  stored-IsWhole :
      (entropy : CredentialEntropy) (created : Created) (pk_root : Bytes)
      (o : Outcome (Unit {0}) × State)
      → IsAllOrNothing held a
          (mint_secret entropy.credential_key)
          (mint_secret entropy.root_opening)
          pk_root
          (mint_inbox_secret entropy.inbox_key)
          o
      → commit prim coordinates pk_root
          (mint_secret entropy.credential_key)
          (mint_secret entropy.root_opening)
          a
        ≡ some created.commitment
      → created.inbox ≡ Inbox.inbox_public_key prim (mint_inbox_secret entropy.inbox_key)
      → IsWhole entropy (follow (λ _. pure created) o)
  unfolding IsWhole IsAllOrNothing
  stored-IsWhole entropy created pk_root (ok u, s) (inl (_, whole)) leaf inbox =
      (pk_root, whole, leaf, inbox)
  stored-IsWhole entropy created pk_root (ok u, s) (inr (e, refused, _)) leaf inbox =
      absurd (clash refused)
    where
      clash : {e : ProtocolError} → ◌≡◌ {A = Outcome (Unit {0})} (ok u) (err e) → ⊥
      clash h = ground arith
  stored-IsWhole entropy created pk_root (err x, s) (inl (done, _)) leaf inbox = absurd (clash done)
    where
      clash : ◌≡◌ {A = Outcome (Unit {0})} (err x) (ok tt) → ⊥
      clash h = ground arith
  stored-IsWhole entropy created pk_root (err x, s) (inr (e, _, bare)) leaf inbox = bare
  stored-IsWhole entropy created pk_root (panic, s) (inl (done, _)) leaf inbox = absurd (clash done)
    where
      clash : ◌≡◌ {A = Outcome (Unit {0})} panic (ok tt) → ⊥
      clash h = ground arith
  stored-IsWhole entropy created pk_root (panic, s) (inr (e, _, bare)) leaf inbox = bare

  -- `create`, on a storage that holds no credential of the agora and whose deletes are done, leaves
  -- a whole credential or none: where it succeeds, the four slots hold the minted secrets and the
  -- root public key, and the commitment and the inbox key that it answers are those of the stored
  -- values; where it fails, all four slots are empty.
  pub create-IsWhole :
      (entropy : CredentialEntropy) (public_key binding : Bytes) (s : State)
      → Destroys port
      → IsBare held a s
      → IsWhole entropy (create port a prim coordinates key_store entropy public_key binding s)
  unfolding create IsWhole
  create-IsWhole entropy public_key binding s all bare =
      let sk_cred = mint_secret entropy.credential_key in
      let r_root = mint_secret entropy.root_opening in
      let sk_inbox = mint_inbox_secret entropy.inbox_key in
      lift_each (IsWhole entropy) _ (root_of (key_store.create_root a public_key binding)) s
        (λ made _.
          lift_each (IsWhole entropy) _ (slice made.0.public_key made.1) s
            (λ pk_root _.
              lift_each (IsWhole entropy) _
                (ok_or (commit prim coordinates pk_root sk_cred r_root a) ProtocolError.malformed) s
                (λ commitment leaf.
                  stored-IsWhole entropy _ pk_root
                    (store_credential_material port a sk_cred r_root pk_root sk_inbox s)
                    (store_credential_material_atomic lawful a sk_cred r_root pk_root sk_inbox s all
                      bare)
                    (ok_or-some _ ProtocolError.malformed commitment leaf) refl)
                (λ e. bare) bare)
            (λ e. bare) bare)
        (λ e. bare) bare
