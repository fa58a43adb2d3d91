-- ===== src/Credential/Epochs/Sweep.antt =====
-- The sweep of ended epochs: what it destroys, what it leaves, and that it ends.
use nymora.Prelude.{
  ℕ, zero, suc, ◌+◌, ◌%◌, ◌^◌, ◌≤◌, ◌<◌, ◌≡◌, refl, sym, ap, ◌∙◌, ◌⊎◌, inl, inr, true, false,
  Bool-cases, none, arith, ltb, ltb→lt, lt→ltb, subst,
}
use nymora.Prelude.Bytes.{Bytes}
use nymora.Core.Error.{ok}
use nymora.Credential.Ports.{SecureStorage, Slot, Holds, IsSecureStorage, IsElsewhere}
use nymora.Credential.Slots.{slot_key, slot_cert}
use nymora.Credential.Session.{◌>>◌, destroy}
use nymora.Credential.Session.Steps.{then_inversion, Keeps, then-Keeps}
use nymora.Credential.Epochs.{sweep}

-- A slot that is not an epoch key or certificate of an epoch in `from ≤ e < to`.
abbrev pub IsSpared : Bytes → ℕ → ℕ → Bytes → Slot → Type 0
IsSpared a from to b j =
    (e : ℕ)
    → from ≤ e
    → e < to
    → IsElsewhere a (Slot.epoch_key e) b j × IsElsewhere a (Slot.epoch_cert e) b j

module _ {port : SecureStorage} {held : Holds port} (lawful : IsSecureStorage port held)
    (a : Bytes) where
  open port use {State}

  pub sweep-next :
      (fuel epoch current : ℕ) (s : State)
      → current < 2 ^ 64
      → ltb epoch current ≡ true
      → sweep port a (suc fuel) epoch current s
        ≡ (destroy port a (Slot.epoch_key epoch)
              >> (destroy port a (Slot.epoch_cert epoch) >> sweep port a fuel (epoch + 1) current))
            s
  unfolding sweep
  sweep-next fuel epoch current s small more =
      let next : (epoch + 1) % 2 ^ 64 ≡ epoch + 1 = omega (arith, ltb→lt epoch current more) in
      rw (sweep, more, next) refl

  pub sweep-done :
      (fuel epoch current : ℕ) (s : State)
      → ltb epoch current ≡ false
      → sweep port a fuel epoch current s ≡ (ok tt, s)
  unfolding sweep
  sweep-done zero epoch current s done = rw (sweep, done) refl
  sweep-done (suc fuel) epoch current s done = rw (sweep, done) refl

  pub sweep-Keeps :
      (fuel epoch current : ℕ)
      → current < 2 ^ 64
      → (b : Bytes) (j : Slot) → IsSpared a epoch current b j
      → Keeps held b j (sweep port a fuel epoch current)
  unfolding sweep
  sweep-Keeps zero epoch current small b j spared s = refl
  sweep-Keeps (suc fuel) epoch current small b j spared s = elim (Bool-cases (ltb epoch current)) [
    | inl more ↦
        let (key, cert) = spared epoch (omega arith) (ltb→lt epoch current more) in
        ap (λ r. held r.1 b j) (sweep-next fuel epoch current s small more)
        ∙ then-Keeps held b j (destroy port a (Slot.epoch_key epoch)) _
            (λ s. lawful.delete_elsewhere a _ s b j key)
            (λ _.
              then-Keeps held b j (destroy port a (Slot.epoch_cert epoch)) _
                (λ s. lawful.delete_elsewhere a _ s b j cert)
                (λ _.
                  sweep-Keeps fuel (epoch + 1) current small b j
                    (λ e low high. spared e (omega arith) high)))
            s
    | inr done ↦ ap (λ r. held r.1 b j) (sweep-done (suc fuel) epoch current s done)
  ]

  deleted :
      (k : Slot) (s : State) → (port.delete a k s).0 ≡ ok tt → held (port.delete a k s).1 a k ≡ none
  deleted k s h = elim (lawful.deletes a k s) [ inl (_, gone) ↦ gone | inr (e, r) ↦ ground arith ]

  -- The two deletes of a round of the loop, and the rest of it.
  round-inversion :
      (fuel epoch current : ℕ) (s : State)
      → current < 2 ^ 64
      → ltb epoch current ≡ true
      → (sweep port a (suc fuel) epoch current s).0 ≡ ok tt
      → (s' : State) × (held s' a (Slot.epoch_key epoch) ≡ none)
        × (held s' a (Slot.epoch_cert epoch) ≡ none)
        × (sweep port a (suc fuel) epoch current s ≡ sweep port a fuel (epoch + 1) current s')
  round-inversion fuel epoch current s small more h =
      let next = sweep-next fuel epoch current s small more in
      let rest = destroy port a (Slot.epoch_cert epoch) >> sweep port a fuel (epoch + 1) current in
      let (u, first, e1) =
        then_inversion (destroy port a (Slot.epoch_key epoch)) (λ _. rest) s
          (sym (ap (λ r. r.0) next) ∙ h) in
      let s1 = (destroy port a (Slot.epoch_key epoch) s).1 in
      let (u2, second, e2) =
        then_inversion (destroy port a (Slot.epoch_cert epoch))
          (λ _. sweep port a fuel (epoch + 1) current) s1 (sym (ap (λ r. r.0) (next ∙ e1)) ∙ h) in
      let s2 = (destroy port a (Slot.epoch_cert epoch) s1).1 in
      (
        s2,
        lawful.delete_elsewhere a (Slot.epoch_cert epoch) s1 a (Slot.epoch_key epoch)
              (λ p. cert_key p.1)
            ∙ deleted _ s first,
        deleted _ s1 second,
        next ∙ e1 ∙ e2,
      )
    where
      cert_key : {e d : ℕ} → Slot.epoch_cert e ≡ Slot.epoch_key d → ⊥
      cert_key h = cc

  pub sweep-clears :
      (fuel epoch current : ℕ) (s : State)
      → current < 2 ^ 64
      → (sweep port a fuel epoch current s).0 ≡ ok tt
      → (e : ℕ) → epoch ≤ e
      → e < current
      → (held (sweep port a fuel epoch current s).1 a (Slot.epoch_key e) ≡ none)
        × (held (sweep port a fuel epoch current s).1 a (Slot.epoch_cert e) ≡ none)
  unfolding sweep
  sweep-clears zero epoch current s small h e low high = ground arith
  sweep-clears (suc fuel) epoch current s small h e low high =
      let more : ltb epoch current ≡ true = lt→ltb epoch current (omega arith) in
      let (s', key, cert, same) = round-inversion fuel epoch current s small more h in
      subst (λ r. (held r.1 a (Slot.epoch_key e) ≡ none) × (held r.1 a (Slot.epoch_cert e) ≡ none))
        (sym same)
        (elim (earlier low) [
          | inl here ↦ (
            sweep-Keeps fuel (epoch + 1) current small a (Slot.epoch_key e)
                  (λ d lo hi. ((λ p. apart_key here lo p.1), (λ p. cert_key p.1))) s'
                ∙ ap (λ x. held s' a (Slot.epoch_key x)) (sym here)
                ∙ key,
            sweep-Keeps fuel (epoch + 1) current small a (Slot.epoch_cert e)
                  (λ d lo hi. ((λ p. key_cert p.1), (λ p. apart_cert here lo p.1))) s'
                ∙ ap (λ x. held s' a (Slot.epoch_cert x)) (sym here)
                ∙ cert,
          )
          | inr later ↦
              sweep-clears fuel (epoch + 1) current s' small (sym (ap (λ r. r.0) same) ∙ h) e later
                high
        ])
    where
      earlier : {x y : ℕ} → x ≤ y → (x ≡ y) ⊎ (x + 1 ≤ y)
      earlier h = ground arith

      cert_key : {e d : ℕ} → Slot.epoch_cert e ≡ Slot.epoch_key d → ⊥
      cert_key h = cc

      key_cert : {e d : ℕ} → Slot.epoch_key e ≡ Slot.epoch_cert d → ⊥
      key_cert h = cc

      apart_key : {x e d : ℕ} → x ≡ e → x + 1 ≤ d → Slot.epoch_key d ≡ Slot.epoch_key e → ⊥
      apart_key h lo p = let same : _ ≡ _ = slot_key p in omega arith

      apart_cert : {x e d : ℕ} → x ≡ e → x + 1 ≤ d → Slot.epoch_cert d ≡ Slot.epoch_cert e → ⊥
      apart_cert h lo p = let same : _ ≡ _ = slot_cert p in omega arith
