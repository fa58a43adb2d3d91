-- ===== src/Credential/Epochs/Roll.antt =====
-- `roll_epoch`: what a rollover stores, what a refused one leaves, and the invariant of the keys.
use nymora.Prelude.{ℕ, ◌≡◌, refl, sym, ap, ◌∙◌, inl, inr, some, [], ◌∷◌, arith}
use nymora.Prelude.Bytes.{Bytes, le_bytes}
use nymora.Core.Error.{Outcome, ok, err, panic}
use nymora.Crypto.Primitives.{Primitives}
use nymora.Credential.Ports.{SecureStorage, KeyStore, Slot, Holds, IsSecureStorage, IsElsewhere}
use nymora.Credential.Slots.{elsewhere}
use nymora.Credential.Session.{lift, put, unwinding, discard, load_cursor}
use nymora.Credential.Session.Steps.{
  then_inversion, unwinding-inversion, Keeps, then-Keeps, unwinding-Keeps,
}
use nymora.Credential.Record.{sign_epoch_record}
use nymora.Credential.Epochs.{slice, written, check_roll, keep_epoch, discard_expired, roll_epoch}

written-ok :
    (o : Outcome ℕ × Bytes) {len : ℕ} {out : Bytes} → written o ≡ ok (len, out) → o ≡ (ok len, out)
unfolding written
written-ok (ok n, out) h = ground arith
written-ok (err e, out) h = ground arith
written-ok (panic, out) h = ground arith

module _ {port : SecureStorage} {held : Holds port} (lawful : IsSecureStorage port held)
    (a : Bytes) where
  open port use {State}

  stored :
      (k : Slot) (v : Bytes) (s : State)
      → (port.store a k v s).0 ≡ ok tt
      → held (port.store a k v s).1 a k ≡ some v
  stored k v s h = elim (lawful.stores a k v s) [
    | inl (_, there) ↦ there
    | inr (e, r, _) ↦ ground arith
  ]

  put-Keeps :
      (k : Slot) (v : Bytes) (b : Bytes) (j : Slot)
      → IsElsewhere a k b j
      → Keeps held b j (put port a k v)
  put-Keeps k v b j away s = lawful.store_elsewhere a k v s b j away

  pub keep_epoch-Keeps :
      (current : ℕ) (secret : Bytes) (signed : ℕ × Bytes) (b : Bytes) (j : Slot)
      → IsElsewhere a (Slot.epoch_key current) b j
      → IsElsewhere a (Slot.epoch_cert current) b j
      → IsElsewhere a Slot.epoch_cursor b j
      → Keeps held b j (keep_epoch port a current secret signed)
  unfolding keep_epoch discard
  keep_epoch-Keeps current secret (len, out) b j key cert cursor =
      then-Keeps held b j (put port a (Slot.epoch_key current) secret) _
        (put-Keeps _ secret b j key)
        λ _.
          then-Keeps held b j (lift (slice len out)) _ (λ s. refl)
            λ certificate.
              then-Keeps held b j
                (unwinding (put port a (Slot.epoch_cert current) certificate)
                  (discard port a (Slot.epoch_key current ∷ [])))
                _
                (unwinding-Keeps held b j (put port a (Slot.epoch_cert current) certificate)
                  (discard port a (Slot.epoch_key current ∷ [])) (put-Keeps _ certificate b j cert)
                  (λ s. lawful.delete_elsewhere a _ s b j key))
                (λ _. put-Keeps _ (le_bytes 8 current) b j cursor)

  pub keep_epoch-inversion :
      (current : ℕ) (secret : Bytes) (len : ℕ) (out : Bytes) (s : State)
      → (keep_epoch port a current secret (len, out) s).0 ≡ ok tt
      → (held (keep_epoch port a current secret (len, out) s).1 a (Slot.epoch_key current)
          ≡ some secret)
        × (held (keep_epoch port a current secret (len, out) s).1 a Slot.epoch_cursor
            ≡ some (le_bytes 8 current))
        × (certificate : Bytes) × (slice len out ≡ ok certificate)
        × (held (keep_epoch port a current secret (len, out) s).1 a (Slot.epoch_cert current)
            ≡ some certificate)
  unfolding keep_epoch
  keep_epoch-inversion current secret len out s h =
      let m1 = put port a (Slot.epoch_key current) secret in
      let s1 = (m1 s).1 in
      let undo = discard port a (Slot.epoch_key current ∷ []) in
      let last = put port a Slot.epoch_cursor (le_bytes 8 current) in
      let (_, o1, e1) = then_inversion m1 _ s h in
      let (certificate, o2, e2) =
        then_inversion (lift (slice len out)) _ s1 (sym (ap (λ r. r.0) e1) ∙ h) in
      let m3 = put port a (Slot.epoch_cert current) certificate in
      let (_, o3, e3) =
        then_inversion (unwinding m3 undo) (λ _. last) s1 (sym (ap (λ r. r.0) (e1 ∙ e2)) ∙ h) in
      let (o4, e4) = unwinding-inversion m3 undo s1 o3 in
      let s2 = (m3 s1).1 in
      let whole : keep_epoch port a current secret (len, out) s ≡ last s2 =
        e1 ∙ e2 ∙ e3 ∙ ap (λ r. last r.1) e4 in
      let done : (last s2).0 ≡ ok tt = sym (ap (λ r. r.0) whole) ∙ h in
      let at_end : (j : Slot) (v : Bytes)
          → held (last s2).1 a j ≡ some v
          → held (keep_epoch port a current secret (len, out) s).1 a j ≡ some v =
        λ j v p. ap (λ r. held r.1 a j) whole ∙ p in
      (
        at_end _ _ (
            put-Keeps _ _ a _ (elsewhere λ h. cc) s2
            ∙ put-Keeps _ _ a _ (elsewhere λ h. cc) s1
            ∙ stored _ secret s o1),
        at_end _ _ (stored _ _ s2 done),
        certificate,
        o2,
        at_end _ _ (put-Keeps _ _ a _ (elsewhere λ h. cc) s2 ∙ stored _ certificate s1 o4),
      )

  module _ (prim : Primitives) (key_store : KeyStore) where
    pub roll_epoch-inversion :
        (current : ℕ) (entropy buffer : Bytes) (s : State)
        → (roll_epoch port a prim key_store current entropy buffer s).0 ≡ ok tt
        → (len : ℕ) × (out : Bytes) × (sign_epoch_record a key_store current
              (prim.public_key (prim.mint_signing_secret entropy))
              buffer
            ≡ (ok len, out))
          × ((discard_expired port a current s).0 ≡ ok tt)
          × (roll_epoch port a prim key_store current entropy buffer s
              ≡ keep_epoch port a current
                  (prim.mint_signing_secret entropy)
                  (len, out)
                  (discard_expired port a current s).1)
    unfolding roll_epoch load_cursor
    roll_epoch-inversion current entropy buffer s h =
        let signing =
          sign_epoch_record a key_store current (prim.public_key (prim.mint_signing_secret entropy))
            buffer in
        let (c, o1, e1) = then_inversion (load_cursor port a) _ s h in
        let (_, o2, e2) =
          then_inversion (lift (check_roll port a c current)) _ s (sym (ap (λ r. r.0) e1) ∙ h) in
        let ((len, out), o3, e3) =
          then_inversion (lift (written signing)) _ s (sym (ap (λ r. r.0) (e1 ∙ e2)) ∙ h) in
        let (_, o4, e4) =
          then_inversion (discard_expired port a current)
            (λ _. keep_epoch port a current (prim.mint_signing_secret entropy) (len, out)) s
            (sym (ap (λ r. r.0) (e1 ∙ e2 ∙ e3)) ∙ h) in
        (len, out, written-ok signing o3, o4, e1 ∙ e2 ∙ e3 ∙ e4)
