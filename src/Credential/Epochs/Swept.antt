-- ===== src/Credential/Epochs/Swept.antt =====
-- What a sweep leaves of an epoch that is not the current one: nothing, on a tidy storage.
use nymora.Prelude.{
  ℕ, ◌^◌, ◌≤◌, ◌<◌, ◌≡◌, ◌≢◌, sym, ap, ◌∙◌, ◌⊎◌, inl, inr, Bool-cases, Option, none, some,
  Option-cases, arith, subst, ltb, ltb→lt, ltb-false,
}
use nymora.Prelude.Bytes.{Bytes, le_value, le_bytes, le_value-le_bytes}
use nymora.Core.Error.{ok}
use nymora.Credential.Ports.{SecureStorage, Slot, Holds, IsSecureStorage, IsElsewhere}
use nymora.Credential.Slots.{slot_key, slot_cert, elsewhere}
use nymora.Credential.Session.{follow}
use nymora.Credential.Session.Calls.{load_cursor-cases}
use nymora.Credential.Epochs.{max_epoch_gap, discard_from, discard_expired}
use nymora.Credential.Epochs.Sweep.{sweep-Keeps}
use nymora.Credential.Epochs.Expired.{
  discard_expired-keeps, discard_expired-clears, discard_expired-inversion,
}

-- No key and no certificate of an epoch other than the cursor's: the material of every epoch that
-- has ended is gone.
unfoldable pub IsTidy : {S : Type 0} → (S → Bytes → Slot → Option Bytes) → Bytes → S → Type 0
IsTidy held a s =
    (e : ℕ)
    → e < 2 ^ 64
    → ((held s a (Slot.epoch_key e) ≡ none) × (held s a (Slot.epoch_cert e) ≡ none))
      ⊎ (held s a Slot.epoch_cursor ≡ some (le_bytes 8 e))

module _ {port : SecureStorage} {held : Holds port} (lawful : IsSecureStorage port held)
    (a : Bytes) where
  open port use {State}

  -- With no cursor there is nothing to sweep.
  discard_expired_unset :
      (current : ℕ) (s : State)
      → held s a Slot.epoch_cursor ≡ none
      → (discard_expired port a current s).0 ≡ ok tt
      → (discard_expired port a current s).1 ≡ s
  unfolding discard_expired discard_from
  discard_expired_unset current s unset h = elim (load_cursor-cases lawful a s) [
    | inl (_, e) ↦ ap (λ r. (follow (λ c. discard_from port a c current) r).1) e
    | inr (inl (v, there, e)) ↦ absurd (present (sym there ∙ unset))
    | inr (inr (x, e)) ↦ ap (λ r. (follow (λ c. discard_from port a c current) r).1) e
  ]
    where
      present : {v : Bytes} → some v ≡ none → ⊥
      present h = ground arith

  -- What a sweep that succeeded leaves of an epoch whose slots were empty, or that was the cursor's.
  pub swept_empty :
      (current e : ℕ) (s : State)
      → current < 2 ^ 64
      → e < 2 ^ 64
      → e ≢ current
      → ((held s a (Slot.epoch_key e) ≡ none) × (held s a (Slot.epoch_cert e) ≡ none))
        ⊎ (held s a Slot.epoch_cursor ≡ some (le_bytes 8 e))
      → (discard_expired port a current s).0 ≡ ok tt
      → (held (discard_expired port a current s).1 a (Slot.epoch_key e) ≡ none)
        × (held (discard_expired port a current s).1 a (Slot.epoch_cert e) ≡ none)
  swept_empty current e s small wide other (inr cursor) h =
      let back : le_value (le_bytes 8 e) ≡ e = le_value-le_bytes 8 e (omega arith) in
      let (behind, _) = discard_expired-inversion lawful a current s (le_bytes 8 e) cursor h in
      discard_expired-clears lawful a current s (le_bytes 8 e) e small cursor h (omega arith)
        (omega arith)
  swept_empty current e s small wide other (inl (key, cert)) h = elim (Bool-cases (ltb e current)) [
    | inr later ↦
        let high : current ≤ e = ltb-false e current later in
        (
          discard_expired-keeps lawful a current s a (Slot.epoch_key e) small
                (λ d lo hi. (other_key hi high, elsewhere λ h. cc))
              ∙ key,
          discard_expired-keeps lawful a current s a (Slot.epoch_cert e) small
                (λ d lo hi. (elsewhere (λ h. cc), other_cert hi high))
              ∙ cert,
        )
    | inl ended ↦ elim (Option-cases (held s a Slot.epoch_cursor)) [
      | inl unset ↦
          let same = sym (discard_expired_unset current s unset h) in
          (
            subst (λ t. held t a (Slot.epoch_key e) ≡ none) same key,
            subst (λ t. held t a (Slot.epoch_cert e) ≡ none) same cert,
          )
      | inr (v, cursor) ↦
          let (behind, swept) = discard_expired-inversion lawful a current s v cursor h in
          elim (Bool-cases (ltb e (le_value v))) [
            | inl before ↦
                let low : e < le_value v = ltb→lt e (le_value v) before in
                (
                  ap (λ r. held r.1 a (Slot.epoch_key e)) swept
                      ∙ sweep-Keeps lawful a max_epoch_gap (le_value v) current small a
                          (Slot.epoch_key e) (λ d lo hi. (past_key low lo, elsewhere λ h. cc)) s
                      ∙ key,
                  ap (λ r. held r.1 a (Slot.epoch_cert e)) swept
                      ∙ sweep-Keeps lawful a max_epoch_gap (le_value v) current small a
                          (Slot.epoch_cert e) (λ d lo hi. (elsewhere (λ h. cc), past_cert low lo)) s
                      ∙ cert,
                )
            | inr since ↦
                discard_expired-clears lawful a current s v e small cursor h
                  (ltb-false e (le_value v) since) (ltb→lt e current ended)
          ]
    ]
  ]
    where
      other_key :
          {d : ℕ}
          → d < current
          → current ≤ e
          → IsElsewhere a (Slot.epoch_key d) a (Slot.epoch_key e)
      other_key {d = d} hi high p = let same : d ≡ e = slot_key p.1 in omega arith

      other_cert :
          {d : ℕ}
          → d < current
          → current ≤ e
          → IsElsewhere a (Slot.epoch_cert d) a (Slot.epoch_cert e)
      other_cert {d = d} hi high p = let same : d ≡ e = slot_cert p.1 in omega arith

      past_key : {d n : ℕ} → e < n → n ≤ d → IsElsewhere a (Slot.epoch_key d) a (Slot.epoch_key e)
      past_key {d = d} low lo p = let same : d ≡ e = slot_key p.1 in omega arith

      past_cert :
          {d n : ℕ} → e < n → n ≤ d → IsElsewhere a (Slot.epoch_cert d) a (Slot.epoch_cert e)
      past_cert {d = d} low lo p = let same : d ≡ e = slot_cert p.1 in omega arith
