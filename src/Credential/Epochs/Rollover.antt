-- ===== src/Credential/Epochs/Rollover.antt =====
-- What a rollover promises: a refused one changes nothing, one that succeeds leaves the current
-- epoch's material and no other's.
use nymora.Prelude.{
  ℕ, ◌^◌, ◌<◌, ◌≡◌, ◌≢◌, refl, sym, ap, ◌∙◌, ◌⊎◌, inl, inr, some, ◌++◌, arith, take,
}
use nymora.Prelude.Bytes.{Bytes, le_bytes}
use nymora.Core.Error.{Outcome, ok, err, ProtocolError}
use nymora.Crypto.Hash.{frame}
use nymora.Crypto.Hash.Framing.{IsSlice}
use nymora.Crypto.Primitives.{Primitives}
use nymora.Credential.Ports.{SecureStorage, KeyStore, Slot, Holds, IsSecureStorage, Fits}
use nymora.Credential.Slots.{slot_key, slot_cert, elsewhere}
use nymora.Credential.Session.{lift, load_cursor}
use nymora.Credential.Session.Steps.{then_err, then_stays}
use nymora.Credential.Record.{
  sign_epoch_record, sign_epoch_record-frames, decode_record, decode_record-frames,
}
use nymora.Credential.Epochs.{slice, written, check_roll, discard_expired, roll_epoch}
use nymora.Credential.Epochs.Swept.{IsTidy, swept_empty}
use nymora.Credential.Epochs.Roll.{keep_epoch-Keeps, keep_epoch-inversion, roll_epoch-inversion}

written-err : (o : Outcome ℕ × Bytes) {e : ProtocolError} → o.0 ≡ err e → written o ≡ err e
unfolding written
written-err (o, out) h = rw h refl

slice-take : (len : ℕ) (out c : Bytes) → slice len out ≡ ok c → take len out ≡ c
unfolding slice
slice-take len out c h = ground arith

module _ {port : SecureStorage} {held : Holds port} (lawful : IsSecureStorage port held) (a : Bytes)
    (prim : Primitives) (key_store : KeyStore) where
  open port use {State}

  -- The certificate is signed before anything is destroyed: where the buffer is too small or the
  -- key store refuses, `roll_epoch` leaves storage exactly as it was.
  pub roll_epoch-refused :
      (current : ℕ) (entropy buffer : Bytes) (s : State) (e : ProtocolError)
      → (sign_epoch_record a key_store current
          (prim.public_key (prim.mint_signing_secret entropy))
          buffer).0
        ≡ err e
      → (roll_epoch port a prim key_store current entropy buffer s).1 ≡ s
  unfolding roll_epoch load_cursor
  roll_epoch-refused current entropy buffer s e refused =
      let signing =
        sign_epoch_record a key_store current (prim.public_key (prim.mint_signing_secret entropy))
          buffer in
      then_stays (load_cursor port a) _ s refl λ c _.
        then_stays (lift (check_roll port a c current)) _ s refl
          λ _ _. ap (λ r. r.1) (then_err (lift (written signing)) _ s (written-err signing refused))

  -- Where `roll_epoch` succeeds, the storage holds the minted secret as the key of `current`, the
  -- cursor is `current`, and the stored certificate record decodes to the secret's public key and
  -- a signature. The storage keeps its contract, the public key is a slice, and the key store
  -- writes its signatures into the buffers it is given.
  pub roll_epoch-stores :
      (current : ℕ) (entropy buffer : Bytes) (s : State)
      → Fits key_store.sign_epoch_cert
      → IsSlice (prim.public_key (prim.mint_signing_secret entropy))
      → (roll_epoch port a prim key_store current entropy buffer s).0 ≡ ok tt
      → (held
            (roll_epoch port a prim key_store current entropy buffer s).1
            a
            (Slot.epoch_key current)
          ≡ some (prim.mint_signing_secret entropy))
        × (held (roll_epoch port a prim key_store current entropy buffer s).1 a Slot.epoch_cursor
            ≡ some (le_bytes 8 current))
        × (certificate : Bytes) × (signature : Bytes) × (held
              (roll_epoch port a prim key_store current entropy buffer s).1
              a
              (Slot.epoch_cert current)
            ≡ some certificate)
        × (decode_record certificate
            ≡ ok (record {
              public_key = prim.public_key (prim.mint_signing_secret entropy);
              signature = signature;
            }))
  roll_epoch-stores current entropy buffer s fits narrow h =
      let secret = prim.mint_signing_secret entropy in
      let pk = prim.public_key secret in
      let (len, out, signed, _, e) =
        roll_epoch-inversion lawful a prim key_store current entropy buffer s h in
      let s1 = (discard_expired port a current s).1 in
      let (key, cursor, certificate, cut, cert) =
        keep_epoch-inversion lawful a current secret len out s1 (sym (ap (λ r. r.0) e) ∙ h) in
      let (signature, frames, _, sig_narrow) =
        sign_epoch_record-frames a key_store current pk buffer len out fits signed in
      let same : certificate ≡ frame pk ++ frame signature =
        sym (slice-take len out certificate cut) ∙ frames in
      (
        ap (λ r. held r.1 a (Slot.epoch_key current)) e ∙ key,
        ap (λ r. held r.1 a Slot.epoch_cursor) e ∙ cursor,
        certificate,
        signature,
        ap (λ r. held r.1 a (Slot.epoch_cert current)) e ∙ cert,
        ap decode_record same ∙ decode_record-frames pk signature narrow sig_narrow,
      )

  roll_epoch_tidies :
      (current : ℕ) (entropy buffer : Bytes) (s : State)
      → current < 2 ^ 64
      → IsTidy held a s
      → (roll_epoch port a prim key_store current entropy buffer s).0 ≡ ok tt
      → IsTidy held a (roll_epoch port a prim key_store current entropy buffer s).1
  unfolding IsTidy
  roll_epoch_tidies current entropy buffer s small tidy h e wide =
      let secret = prim.mint_signing_secret entropy in
      let (len, out, _, swept, whole) =
        roll_epoch-inversion lawful a prim key_store current entropy buffer s h in
      let s1 = (discard_expired port a current s).1 in
      elim (same_or_not e current) [
        | inl here ↦
            let (_, cursor, _, _, _) =
              keep_epoch-inversion lawful a current secret len out s1
                (sym (ap (λ r. r.0) whole) ∙ h) in
            inr (
              ap (λ r. held r.1 a Slot.epoch_cursor) whole
              ∙ cursor
              ∙ ap (λ n. some (le_bytes 8 n)) (sym here))
        | inr other ↦
            let (key, cert) =
              swept_empty lawful a current e s small wide other (tidy e wide) swept in
            inl (
              ap (λ r. held r.1 a (Slot.epoch_key e)) whole
                  ∙ keep_epoch-Keeps lawful a current secret (len, out) a (Slot.epoch_key e)
                      (λ p. other (sym (slot_key p.1))) (elsewhere λ h. cc) (elsewhere λ h. cc) s1
                  ∙ key,
              ap (λ r. held r.1 a (Slot.epoch_cert e)) whole
                  ∙ keep_epoch-Keeps lawful a current secret (len, out) a (Slot.epoch_cert e)
                      (elsewhere λ h. cc) (λ p. other (sym (slot_cert p.1))) (elsewhere λ h. cc) s1
                  ∙ cert,
            )
      ]
    where
      same_or_not : (x y : ℕ) → (x ≡ y) ⊎ (x ≢ y)
      same_or_not x y = ground arith

  -- On a storage that keeps its contract, and where no epoch but the cursor's has a key or a
  -- certificate: a rollover to a `u64` epoch that succeeds moves the cursor to `current`, stores
  -- the minted secret as its key and the signed buffer as its certificate, and again no epoch but
  -- the cursor's has a key or a certificate.
  pub roll_epoch-IsTidy :
      (current : ℕ) (entropy buffer : Bytes) (s : State)
      → current < 2 ^ 64
      → IsTidy held a s
      → (roll_epoch port a prim key_store current entropy buffer s).0 ≡ ok tt
      → let t : State = (roll_epoch port a prim key_store current entropy buffer s).1 in
        let secret : Bytes = prim.mint_signing_secret entropy in
        IsTidy held a t
        × (held t a Slot.epoch_cursor ≡ some (le_bytes 8 current))
        × (held t a (Slot.epoch_key current) ≡ some secret)
        × (len : ℕ) × (out : Bytes) × (certificate : Bytes) × (sign_epoch_record a key_store current
              (prim.public_key secret)
              buffer
            ≡ (ok len, out))
        × (slice len out ≡ ok certificate)
        × (held t a (Slot.epoch_cert current) ≡ some certificate)
  roll_epoch-IsTidy current entropy buffer s small tidy h =
      let secret = prim.mint_signing_secret entropy in
      let (len, out, signed, _, e) =
        roll_epoch-inversion lawful a prim key_store current entropy buffer s h in
      let s1 = (discard_expired port a current s).1 in
      let (key, cursor, certificate, cut, cert) =
        keep_epoch-inversion lawful a current secret len out s1 (sym (ap (λ r. r.0) e) ∙ h) in
      (
        roll_epoch_tidies current entropy buffer s small tidy h,
        ap (λ r. held r.1 a Slot.epoch_cursor) e ∙ cursor,
        ap (λ r. held r.1 a (Slot.epoch_key current)) e ∙ key,
        len,
        out,
        certificate,
        signed,
        cut,
        ap (λ r. held r.1 a (Slot.epoch_cert current)) e ∙ cert,
      )
