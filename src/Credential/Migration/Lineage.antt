-- ===== src/Credential/Migration/Lineage.antt =====
-- A planned migration end to end: the handoff that the old device hands over reads back as its own
-- material, and the successor spends the leaf that this material opens.
use nymora.Prelude.{
  ℕ, ◌^◌, ◌<◌, ◌≤◌, ◌≡◌, refl, sym, ap, ◌∙◌, inl, inr, Option, none, some, arith, subst, length,
  take, length-take,
}
use nymora.Prelude.Bytes.{Bytes}
use nymora.Core.Error.{Outcome, ok, err, panic, ProtocolError}
use nymora.Crypto.Primitives.{Primitives}
use nymora.Crypto.Hash.Framing.{IsSlice}
use nymora.Wire.Writer.{encode_into}
use nymora.Wire.Handoff
use nymora.Wire.Handoff.{MigrationHandoff}
use nymora.Wire.Handoff.RoundTrip
use nymora.Credential.Ports.{SecureStorage, KeyStore, Slot, Holds, IsSecureStorage, Fits}
use nymora.Credential.Session.{lift, load_value, load_secret32, ok_or}
use nymora.Credential.Session.Calls.{load_secret32-cases, load_value-cases}
use nymora.Credential.Session.Steps.{after_first}
use nymora.Credential.Epochs.{written, slice}
use nymora.Credential.Create.{inbox_public_key}
use nymora.Credential.Create.Atomic.{IsComplete}
use nymora.Credential.Migration.{MigrationBuffers, sign_handoff, authorize_migration}
use nymora.Credential.Migration.Authorize.{authorize_migration-inversion}

written-ok : (o : Outcome ℕ × Bytes) {w : ℕ × Bytes} → written o ≡ ok w → o ≡ (ok w.0, w.1)
unfolding written
written-ok (ok n, out) h = ground arith
written-ok (err e, out) h = ground arith
written-ok (panic, out) h = ground arith

slice-take : (len : ℕ) (out c : Bytes) → slice len out ≡ ok c → c ≡ take len out
unfolding slice
slice-take len out c h = ground arith

-- A signature cut from the buffer it was written into.
cut-IsSlice :
    {P : Type 0} (sign : P → Bytes → Outcome ℕ × Bytes) (p : P) (buffer : Bytes) (w : ℕ × Bytes)
    (c : Bytes)
    → Fits sign
    → written (sign p buffer) ≡ ok w
    → slice w.0 w.1 ≡ ok c
    → IsSlice c
cut-IsSlice sign p buffer (n, out) c fits signed cut =
    let (short, wide) = fits p buffer n out (written-ok (sign p buffer) signed) in
    let size : length (take n out) ≡ n = length-take n out short in
    subst IsSlice (sym (slice-take n out c cut)) (subst (λ k. k < 2 ^ 64) (sym size) wide)

pub ok_or-some :
    {A : Type 0} (o : Option A) (e : ProtocolError) (x : A) → ok_or o e ≡ ok x → o ≡ some x
ok_or-some none e x h = ground arith
ok_or-some (some y) e x h = ground arith

-- An encoding that answers had room.
encode_handoff-room :
    (m : MigrationHandoff) (buffer out : Bytes) (n : ℕ)
    → Handoff.encode m buffer ≡ (ok n, out)
    → Handoff.encoded_len m ≤ length buffer
unfolding Handoff.encode encode_into
encode_handoff-room m buffer out n h = ground arith

module _ {port : SecureStorage} {held : Holds port} (lawful : IsSecureStorage port held)
    (a : Bytes) where
  open port use {State}

  secret_held :
      (k : Slot) (s : State) (v : Bytes)
      → (load_secret32 port a k s).0 ≡ ok v
      → (held s a k ≡ some v) × (length v ≡ 32)
  secret_held k s v h = elim (load_secret32-cases lawful a k s) [
    | inl (w, there, wide, e) ↦
        let same : w ≡ v = value (sym (ap (λ r. r.0) e) ∙ h) in
        (there ∙ ap some same, sym (ap (λ x. length x) same) ∙ wide)
    | inr (e, r) ↦ let k = sym (ap (λ o. o.0) r) ∙ h in ground arith
  ]
    where
      value : {x y : Bytes} → ◌≡◌ {A = Outcome Bytes} (ok x) (ok y) → x ≡ y
      value h = ground arith

  value_held :
      (k : Slot) (buffer : Bytes) (s : State) (v : Bytes)
      → (load_value port a k buffer s).0 ≡ ok (some v)
      → held s a k ≡ some v
  value_held k buffer s v h = elim (load_value-cases lawful a k buffer s) [
    | inl (unset, e) ↦ let k = sym (ap (λ o. o.0) e) ∙ h in ground arith
    | inr (inl (w, there, e)) ↦ there ∙ value (sym (ap (λ r. r.0) e) ∙ h)
    | inr (inr (e, r)) ↦ let k = sym (ap (λ o. o.0) r) ∙ h in ground arith
  ]
    where
      value :
          {x y : Bytes}
          → ◌≡◌ {A = Outcome (Option Bytes)} (ok (some x)) (ok (some y))
          → some x ≡ some y
      value h = ground arith

  module _ (prim : Primitives) (key_store : KeyStore) where
    -- The handoff carries what the storage holds, in the widths that its encoding asks for.
    sign_handoff-carries :
        (successor : Bytes) (buffers : MigrationBuffers) (s : State) (m : MigrationHandoff)
        → Fits key_store.sign_migration
        → Fits key_store.sign_inbox_cert
        → (sign_handoff port a prim key_store successor buffers s).0 ≡ ok m
        → (m.agora ≡ a)
          × ((held s a Slot.credential_key ≡ some m.credential_key)
              × (length m.credential_key ≡ 32))
          × ((held s a Slot.root_opening ≡ some m.root_opening) × (length m.root_opening ≡ 32))
          × (held s a Slot.root_public_key ≡ some m.root_public_key)
          × IsSlice m.migration_cert
          × IsSlice m.retire_cert
    unfolding sign_handoff load_secret32 load_value inbox_public_key
    sign_handoff-carries successor buffers s m fits fits' h =
        after_first (load_secret32 port a Slot.credential_key) _ s h λ sk o1 h1.
          after_first (load_secret32 port a Slot.root_opening) _ s h1 λ r o2 h2.
            after_first (load_value port a Slot.root_public_key buffers.root_public_key) _ s h2
              λ found o3 h3.
                after_first (lift (ok_or found ProtocolError.unavailable)) _ s h3 λ pk o4 h4.
                  after_first (inbox_public_key port a prim) _ s h4 λ inbox _ h5.
                    after_first (lift (written (key_store.sign_migration _ buffers.signature))) _ _
                      h5
                      λ signed o6 h6.
                        after_first
                          (lift (written (key_store.sign_inbox_cert _ buffers.retire_signature))) _
                          _ h6
                          λ retired o7 h7.
                            after_first (lift (slice signed.0 signed.1)) _ _ h7 λ mc o8 h8.
                              after_first (lift (slice retired.0 retired.1)) _ _ h8 λ rc o9 h9.
                                subst Carried (handoff h9) (
                                  refl,
                                  secret_held Slot.credential_key s sk o1,
                                  secret_held Slot.root_opening s r o2,
                                  value_held Slot.root_public_key buffers.root_public_key s pk (
                                      o3
                                      ∙ ap ok (ok_or-some found ProtocolError.unavailable pk o4)),
                                  cut-IsSlice key_store.sign_migration _ buffers.signature signed mc
                                      fits o6 o8,
                                  cut-IsSlice key_store.sign_inbox_cert _ buffers.retire_signature
                                      retired rc fits' o7 o9,
                                )
      where
        Carried : MigrationHandoff → Type 0
        Carried m =
            (m.agora ≡ a)
            × ((held s a Slot.credential_key ≡ some m.credential_key)
                × (length m.credential_key ≡ 32))
            × ((held s a Slot.root_opening ≡ some m.root_opening) × (length m.root_opening ≡ 32))
            × (held s a Slot.root_public_key ≡ some m.root_public_key)
            × IsSlice m.migration_cert
            × IsSlice m.retire_cert

        handoff :
            {x y : MigrationHandoff} → ◌≡◌ {A = Outcome MigrationHandoff} (ok x) (ok y) → x ≡ y
        handoff h = ground arith

    -- The handoff that an authorized migration writes reads back as the old device's own material:
    -- the buffer, cut to the answered length, decodes to a handoff of this agora that carries the
    -- stored secrets and root public key. The agora is 32 bytes, the root public key is a slice and
    -- the key store writes its signatures into the buffers it is given.
    pub authorize_migration-decodes :
        (successor : Bytes) (buffers : MigrationBuffers) (s : State) (encoded : ℕ × Bytes)
        (sk r pk inbox : Bytes)
        → Fits key_store.sign_migration
        → Fits key_store.sign_inbox_cert
        → length a ≡ 32
        → IsSlice pk
        → IsComplete held a s sk r pk inbox
        → (authorize_migration port a prim key_store successor buffers s).0 ≡ ok encoded
        → (m : MigrationHandoff) × (Handoff.decode (take encoded.0 encoded.1) ≡ ok m)
          × (m.agora ≡ a)
          × (m.credential_key ≡ sk)
          × (m.root_opening ≡ r)
          × (m.root_public_key ≡ pk)
    authorize_migration-decodes successor buffers s (n, out) sk r pk inbox fits fits' wide narrow
          complete h =
        let (m, signed, encoded, _, _) =
          authorize_migration-inversion lawful a prim key_store successor buffers s (n, out) h in
        let (here, (c, cw), (o, ow), p, mc, rc) =
          sign_handoff-carries successor buffers s m fits fits' (ap (λ r. r.0) signed) in
        let made : Handoff.encode m buffers.handoff ≡ (ok n, out) =
          written-ok (Handoff.encode m buffers.handoff) encoded in
        let same_pk : pk ≡ m.root_public_key = value (sym complete.root_public_key ∙ p) in
        let (size, back) =
          Handoff.RoundTrip.decode-encode_handoff m buffers.handoff
            (record {
              agora = ap (λ x. length x) here ∙ wide;
              credential_key = cw;
              root_opening = ow;
              root_public_key = subst IsSlice same_pk narrow;
              migration_cert = mc;
              retire_cert = rc;
            })
            (encode_handoff-room m buffers.handoff out n made) in
        let length_is : Handoff.encoded_len m ≡ n = number (sym size ∙ ap (λ r. r.0) made) in
        (
          m,
          ap (λ w. Handoff.decode (take w out)) (sym length_is)
              ∙ ap (λ w. Handoff.decode (take (Handoff.encoded_len m) w)) (sym (ap (λ r. r.1) made))
              ∙ back,
          here,
          value (sym c ∙ complete.credential_key),
          value (sym o ∙ complete.root_opening),
          sym same_pk,
        )
      where
        value : {x y : Bytes} → some x ≡ some y → x ≡ y
        value h = ground arith

        number : {x y : ℕ} → ◌≡◌ {A = Outcome ℕ} (ok x) (ok y) → x ≡ y
        number h = ground arith
