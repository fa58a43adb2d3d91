-- ===== src/Credential/Migration/Complete.antt =====
-- `complete_migration`: the successor spends the predecessor's leaf, and the leaf that it asks for
-- commits to the same secret.
use nymora.Prelude.{ℕ, ◌≡◌, refl, sym, ap, ◌∙◌, Option, some, arith, length, take, bytes_eq, false}
use nymora.Prelude.Bytes.{Bytes}
use nymora.Core.Error.{Outcome, ok, err, ProtocolError}
use nymora.Crypto.Primitives.{Primitives}
use nymora.Crypto.Hash.Framing.{IsSlice}
use nymora.Crypto.Inbox.{mint_inbox_secret}
use nymora.Wire.Handoff
use nymora.Wire.Handoff.{MigrationHandoff}
use nymora.Credential.Ports.{SecureStorage, KeyStore, Holds, IsSecureStorage, Fits}
use nymora.Credential.Session.{lift, ok_or}
use nymora.Credential.Session.Steps.{after_first}
use nymora.Credential.Derive.{mint_secret, commit, migration}
use nymora.Credential.Create.{store_credential_material}
use nymora.Credential.Create.Atomic.{IsComplete}
use nymora.Credential.Migration.{
  MigrationBuffers, Migrated, check_agora, authorize_migration, complete_migration,
}
use nymora.Credential.Migration.Lineage.{ok_or-some, authorize_migration-decodes}

migrated : {x y : Migrated} → ◌≡◌ {A = Outcome Migrated} (ok x) (ok y) → x ≡ y
migrated h = ground arith

module _ (port : SecureStorage) (a : Bytes) (prim : Primitives)
    (coordinates : Bytes → Option (prim.fld.F × prim.fld.F)) where
  -- A handoff of another agora is refused, and nothing is stored.
  pub complete_migration_elsewhere :
      (m : MigrationHandoff) (pk opening inbox : Bytes) (s : port.State)
      → bytes_eq m.agora a ≡ false
      → complete_migration port a prim coordinates m pk opening inbox s
        ≡ (err ProtocolError.malformed, s)
  unfolding complete_migration check_agora
  complete_migration_elsewhere m pk opening inbox s other = rw (other) refl

  -- The spend consumes the leaf that the handoff opens, and the new leaf commits to the same secret
  -- under the successor's own root key and opening.
  pub complete_migration-leaves :
      (m : MigrationHandoff) (pk opening inbox : Bytes) (s : port.State) (made : Migrated)
      → (complete_migration port a prim coordinates m pk opening inbox s).0 ≡ ok made
      → (commit prim coordinates pk m.credential_key (mint_secret opening) a ≡ some made.commitment)
        × (leaf : Bytes) × (commit prim coordinates m.root_public_key m.credential_key
              m.root_opening a
            ≡ some leaf)
        × (made.spend ≡ migration prim m.credential_key leaf a)
  unfolding complete_migration
  complete_migration-leaves m pk opening inbox s made h =
      after_first (lift (check_agora m a)) _ s h λ _ _ h1.
        after_first
          (lift (
            ok_or (commit prim coordinates pk m.credential_key (mint_secret opening) a)
              ProtocolError.malformed))
          _ s h1
          λ commitment o2 h2.
            after_first
              (lift (
                ok_or (commit prim coordinates m.root_public_key m.credential_key m.root_opening a)
                  ProtocolError.malformed))
              _ s h2
              λ leaf o3 h3.
                after_first
                  (store_credential_material port a m.credential_key (mint_secret opening) pk
                    (mint_inbox_secret inbox))
                  _ s h3
                  λ _ _ h4.
                    let same = migrated h4 in
                    (
                      ok_or-some _ ProtocolError.malformed commitment o2
                          ∙ ap (λ x. some x.commitment) same,
                      leaf,
                      ok_or-some _ ProtocolError.malformed leaf o3,
                      ap (λ x. x.spend) (sym same),
                    )

-- A planned migration end to end. The old device stores a credential whose leaf is `leaf` and
-- authorizes; the successor, on a storage of its own, completes with what the written handoff
-- decodes to. Then the spend that it submits is the migration nullifier of the same secret and
-- of exactly that leaf, and its own commitment is to the same secret. The old storage keeps its
-- contract, the agora is 32 bytes, the root public key is a slice, and the key store writes its
-- signatures into the buffers it is given.
pub migration_lineage :
    (port : SecureStorage) (held : Holds port) (successor_port : SecureStorage) (a : Bytes)
    (prim : Primitives) (coordinates : Bytes → Option (prim.fld.F × prim.fld.F))
    (key_store : KeyStore) (buffers : MigrationBuffers) (s : port.State) (t : successor_port.State)
    (encoded : ℕ × Bytes) (sk r pk inbox leaf successor_pk opening inbox_entropy : Bytes)
    (m : MigrationHandoff) (made : Migrated)
    → IsSecureStorage port held
    → Fits key_store.sign_migration
    → Fits key_store.sign_inbox_cert
    → length a ≡ 32
    → IsSlice pk
    → IsComplete held a s sk r pk inbox
    → commit prim coordinates pk sk r a ≡ some leaf
    → (authorize_migration port a prim key_store successor_pk buffers s).0 ≡ ok encoded
    → Handoff.decode (take encoded.0 encoded.1) ≡ ok m
    → (complete_migration successor_port a prim coordinates m successor_pk opening inbox_entropy
        t).0
      ≡ ok made
    → (made.spend ≡ migration prim sk leaf a)
      × (commit prim coordinates successor_pk sk (mint_secret opening) a ≡ some made.commitment)
migration_lineage port held successor_port a prim coordinates key_store buffers s t encoded sk r pk
      inbox leaf successor_pk opening inbox_entropy m made lawful fits fits' wide narrow complete
      opens authorized received completed =
    let (m', decoded, _, same_sk, same_r, same_pk) =
      authorize_migration-decodes lawful a prim key_store successor_pk buffers s encoded sk r pk
        inbox fits fits' wide narrow complete authorized in
    let same : m' ≡ m = handoff (sym decoded ∙ received) in
    let (new, old, opened, spent) =
      complete_migration-leaves successor_port a prim coordinates m successor_pk opening
        inbox_entropy t made completed in
    let key : m.credential_key ≡ sk = ap (λ x. x.credential_key) (sym same) ∙ same_sk in
    let old_leaf : old ≡ leaf = value (
      sym opened
      ∙ ap (λ k. commit prim coordinates m.root_public_key k m.root_opening a) key
      ∙ ap (λ p. commit prim coordinates p sk m.root_opening a)
          (ap (λ x. x.root_public_key) (sym same) ∙ same_pk)
      ∙ ap (λ o. commit prim coordinates pk sk o a) (ap (λ x. x.root_opening) (sym same) ∙ same_r)
      ∙ opens) in
    (
      spent ∙ ap (λ k. migration prim k old a) key ∙ ap (λ l. migration prim sk l a) old_leaf,
      ap (λ k. commit prim coordinates successor_pk k (mint_secret opening) a) (sym key) ∙ new,
    )
  where
    value : {x y : Bytes} → some x ≡ some y → x ≡ y
    value h = ground arith

    handoff : {x y : MigrationHandoff} → ◌≡◌ {A = Outcome MigrationHandoff} (ok x) (ok y) → x ≡ y
    handoff h = ground arith
