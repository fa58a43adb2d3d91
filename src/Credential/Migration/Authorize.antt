-- ===== src/Credential/Migration/Authorize.antt =====
-- `authorize_migration`: nothing is destroyed before the handoff is encoded, and then everything
-- that acts for the member is.
use nymora.Prelude.{ℕ, ◌^◌, ◌<◌, ◌≡◌, refl, sym, ap, ◌∙◌, ◌⊎◌, inl, inr, none, some}
use nymora.Prelude.Bytes.{Bytes, le_bytes}
use nymora.Core.Error.{Outcome-cases, ok, ProtocolError}
use nymora.Crypto.Primitives.{Primitives}
use nymora.Wire.Handoff
use nymora.Wire.Handoff.{MigrationHandoff}
use nymora.Credential.Ports.{SecureStorage, KeyStore, Slot, Holds, IsSecureStorage}
use nymora.Credential.Session.{follow, lift, pure, ◌>>◌, load_value, load_secret32, ok_or}
use nymora.Credential.Session.Steps.{then_err, then_panic, then_inversion, then_stays}
use nymora.Credential.Epochs.{written, slice}
use nymora.Credential.Epochs.Swept.{IsTidy}
use nymora.Credential.Create.{inbox_public_key}
use nymora.Credential.Migration.{
  MigrationBuffers, destroy_acting_material, sign_handoff, authorize_migration,
}
use nymora.Credential.Migration.Destroy.{destroy_acting_material-clears}

module _ {port : SecureStorage} {held : Holds port} (lawful : IsSecureStorage port held) (a : Bytes)
    (prim : Primitives) (key_store : KeyStore) where
  open port use {State}

  -- Nothing on the way to the handoff changes the storage.
  sign_handoff_stays :
      (successor : Bytes) (buffers : MigrationBuffers) (s : State)
      → (sign_handoff port a prim key_store successor buffers s).1 ≡ s
  unfolding sign_handoff load_secret32 load_value inbox_public_key
  sign_handoff_stays successor buffers s =
      then_stays (load_secret32 port a Slot.credential_key) _ s refl λ _ _.
        then_stays (load_secret32 port a Slot.root_opening) _ s refl λ _ _.
          then_stays (load_value port a Slot.root_public_key buffers.root_public_key) _ s refl
            λ found _. then_stays (lift (ok_or found ProtocolError.unavailable)) _ s refl λ _ _.
              then_stays (inbox_public_key port a prim) _ s
                (then_stays (load_secret32 port a Slot.inbox_key) _ s refl λ _ _. refl)
                λ inbox _.
                  then_stays (lift (written (key_store.sign_migration _ buffers.signature))) _ s
                    refl
                    λ signed _.
                      then_stays
                        (lift (written (key_store.sign_inbox_cert _ buffers.retire_signature))) _ s
                        refl
                        λ retired _.
                          then_stays (lift (slice signed.0 signed.1)) _ s refl λ _ _.
                            then_stays (lift (slice retired.0 retired.1)) _ s refl λ _ _. refl

  -- Nothing is deleted unless every signature succeeded and the handoff was encoded: either
  -- `authorize_migration` leaves storage exactly as it was, or the handoff was signed and
  -- encoded.
  pub authorize_migration_last :
      (successor : Bytes) (buffers : MigrationBuffers) (s : State)
      → ((authorize_migration port a prim key_store successor buffers s).1 ≡ s)
        ⊎ ((handoff : MigrationHandoff) × (encoded : ℕ × Bytes) × (sign_handoff port a prim
                key_store successor buffers s
              ≡ (ok handoff, s))
            × (written (Handoff.encode handoff buffers.handoff) ≡ ok encoded))
  unfolding authorize_migration
  authorize_migration_last successor buffers s =
      let signing = sign_handoff port a prim key_store successor buffers in
      let stays = sign_handoff_stays successor buffers s in
      elim (Outcome-cases (signing s).0) [
        | inr (inl (e, refused)) ↦ inl (ap (λ r. r.1) (then_err signing _ s refused) ∙ stays)
        | inr (inr stopped) ↦ inl (ap (λ r. r.1) (then_panic signing _ s stopped) ∙ stays)
        | inl (handoff, signed) ↦
            let same : signing s ≡ (ok handoff, s) = λ i. (signed i, stays i) in
            elim (Outcome-cases (written (Handoff.encode handoff buffers.handoff))) [
              | inl (encoded, e) ↦ inr (handoff, encoded, same, e)
              | inr (inl (e, refused)) ↦ inl (
                  ap (λ r. r.1)
                    (ap (follow _) same
                      ∙ then_err (lift (written (Handoff.encode handoff buffers.handoff)))
                          (λ encoded. destroy_acting_material port a >> pure encoded) s refused))
              | inr (inr stopped) ↦ inl (
                  ap (λ r. r.1)
                    (ap (follow _) same
                      ∙ then_panic (lift (written (Handoff.encode handoff buffers.handoff)))
                          (λ encoded. destroy_acting_material port a >> pure encoded) s stopped))
            ]
      ]

  -- A migration that was authorized signed and encoded a handoff, and destroyed.
  pub authorize_migration-inversion :
      (successor : Bytes) (buffers : MigrationBuffers) (s : State) (encoded : ℕ × Bytes)
      → (authorize_migration port a prim key_store successor buffers s).0 ≡ ok encoded
      → (handoff : MigrationHandoff) × (sign_handoff port a prim key_store successor buffers s
          ≡ (ok handoff, s))
        × (written (Handoff.encode handoff buffers.handoff) ≡ ok encoded)
        × ((destroy_acting_material port a s).0 ≡ ok tt)
        × ((authorize_migration port a prim key_store successor buffers s).1
            ≡ (destroy_acting_material port a s).1)
  unfolding authorize_migration
  authorize_migration-inversion successor buffers s encoded h =
      let signing = sign_handoff port a prim key_store successor buffers in
      let (handoff, o1, e1) = then_inversion signing _ s h in
      let same : signing s ≡ (ok handoff, s) =
        λ i. (o1 i, sign_handoff_stays successor buffers s i) in
      let e1' = ap (follow _) same in
      let encoding = written (Handoff.encode handoff buffers.handoff) in
      let (out, o2, e2) =
        then_inversion (lift encoding) (λ encoded. destroy_acting_material port a >> pure encoded) s
          (sym (ap (λ r. r.0) e1') ∙ h) in
      let (_, o3, e3) =
        then_inversion (destroy_acting_material port a) (λ _. pure out) s
          (sym (ap (λ r. r.0) (e1' ∙ e2)) ∙ h) in
      let whole = e1' ∙ e2 ∙ e3 in
      (handoff, same, o2 ∙ sym (ap (λ r. r.0) whole) ∙ h, o3, ap (λ r. r.1) whole)

  -- On a storage that keeps its contract, holds a cursor, and where no epoch but the cursor's
  -- has a key or a certificate: a migration that is authorized leaves the old device no inbox
  -- key, no cursor, and no key or certificate of any `u64` epoch.
  pub authorize_migration-clears :
      (c : ℕ) (successor : Bytes) (buffers : MigrationBuffers) (s : State) (encoded : ℕ × Bytes)
      (e : ℕ)
      → c < 2 ^ 64
      → held s a Slot.epoch_cursor ≡ some (le_bytes 8 c)
      → IsTidy held a s
      → (authorize_migration port a prim key_store successor buffers s).0 ≡ ok encoded
      → e < 2 ^ 64
      → (held (authorize_migration port a prim key_store successor buffers s).1 a Slot.inbox_key
          ≡ none)
        × (held
              (authorize_migration port a prim key_store successor buffers s).1
              a
              Slot.epoch_cursor
            ≡ none)
        × (held
              (authorize_migration port a prim key_store successor buffers s).1
              a
              (Slot.epoch_key e)
            ≡ none)
        × (held
              (authorize_migration port a prim key_store successor buffers s).1
              a
              (Slot.epoch_cert e)
            ≡ none)
  unfolding authorize_migration
  authorize_migration-clears c successor buffers s encoded e small cursor tidy h wide =
      let (_, _, _, done, same) = authorize_migration-inversion successor buffers s encoded h in
      let (inbox, gone, key, cert) =
        destroy_acting_material-clears lawful a c s small cursor tidy done e wide in
      (
        ap (λ t. held t a Slot.inbox_key) same ∙ inbox,
        ap (λ t. held t a Slot.epoch_cursor) same ∙ gone,
        ap (λ t. held t a (Slot.epoch_key e)) same ∙ key,
        ap (λ t. held t a (Slot.epoch_cert e)) same ∙ cert,
      )
