-- ===== src/Credential/Migration/Destroy.antt =====
-- What an authorized migration destroys on the old device, and when.
use nymora.Prelude.{
  ℕ, ◌^◌, ◌<◌, ◌≡◌, ◌≢◌, refl, sym, ap, ◌∙◌, ◌⊎◌, inl, inr, Option, none, some, arith, subst,
}
use nymora.Prelude.Bytes.{Bytes, le_value, le_bytes, le_value-le_bytes}
use nymora.Core.Error.{Outcome, ok, err, ProtocolError}
use nymora.Credential.Ports.{SecureStorage, Slot, Holds, IsSecureStorage, IsElsewhere}
use nymora.Credential.Slots.{slot_key, slot_cert, elsewhere}
use nymora.Credential.Session.{follow, ◌>>◌, destroy, load_cursor}
use nymora.Credential.Session.Calls.{load_cursor-cases}
use nymora.Credential.Session.Steps.{then_ok, then_inversion, Keeps, then-Keeps}
use nymora.Credential.Epochs.{discard_expired}
use nymora.Credential.Epochs.Expired.{discard_expired-keeps}
use nymora.Credential.Epochs.Swept.{IsTidy, swept_empty}
use nymora.Credential.Migration.{destroy_epochs, destroy_acting_material}

module _ {port : SecureStorage} {held : Holds port} (lawful : IsSecureStorage port held)
    (a : Bytes) where
  open port use {State}

  deleted :
      (k : Slot) (s : State) → (port.delete a k s).0 ≡ ok tt → held (port.delete a k s).1 a k ≡ none
  deleted k s h = elim (lawful.deletes a k s) [ inl (_, gone) ↦ gone | inr (e, r) ↦ ground arith ]

  destroy_keeps : (k j : Slot) (s : State) → k ≢ j → held (port.delete a k s).1 a j ≡ held s a j
  destroy_keeps k j s apart = lawful.delete_elsewhere a k s a j (elsewhere apart)

  -- Where the epochs are destroyed, the cursor is gone, with its epoch's key and certificate, and
  -- the slots of every other epoch are as the sweep left them.
  destroy_epochs-inversion :
      (cursor : ℕ) (s : State)
      → (destroy_epochs port a (some cursor) s).0 ≡ ok tt
      → ((discard_expired port a cursor s).0 ≡ ok tt)
        × (held (destroy_epochs port a (some cursor) s).1 a Slot.epoch_cursor ≡ none)
        × (held (destroy_epochs port a (some cursor) s).1 a (Slot.epoch_key cursor) ≡ none)
        × (held (destroy_epochs port a (some cursor) s).1 a (Slot.epoch_cert cursor) ≡ none)
  unfolding destroy_epochs
  destroy_epochs-inversion cursor s h =
      let (_, o1, e1) = then_inversion (discard_expired port a cursor) _ s h in
      let s1 = (discard_expired port a cursor s).1 in
      let (_, o2, e2) =
        then_inversion (destroy port a (Slot.epoch_key cursor)) _ s1 (sym (ap (λ r. r.0) e1) ∙ h) in
      let s2 = (port.delete a (Slot.epoch_key cursor) s1).1 in
      let last = destroy port a Slot.epoch_cursor in
      let (_, o3, e3) =
        then_inversion (destroy port a (Slot.epoch_cert cursor)) (λ _. last) s2
          (sym (ap (λ r. r.0) (e1 ∙ e2)) ∙ h) in
      let s3 = (port.delete a (Slot.epoch_cert cursor) s2).1 in
      let whole = e1 ∙ e2 ∙ e3 in
      let o4 : (last s3).0 ≡ ok tt = sym (ap (λ r. r.0) whole) ∙ h in
      (
        o1,
        ap (λ r. held r.1 a Slot.epoch_cursor) whole ∙ deleted _ s3 o4,
        ap (λ r. held r.1 a (Slot.epoch_key cursor)) whole
            ∙ destroy_keeps _ _ s3 (λ h. cc)
            ∙ destroy_keeps _ _ s2 (λ h. cc)
            ∙ deleted _ s1 o2,
        ap (λ r. held r.1 a (Slot.epoch_cert cursor)) whole
            ∙ destroy_keeps _ _ s3 (λ h. cc)
            ∙ deleted _ s2 o3,
      )

  -- It only deletes epoch slots up to the cursor's, and the cursor.
  destroy_epochs-Keeps :
      (cursor : Option ℕ) (b : Bytes) (j : Slot)
      → ((c : ℕ) → cursor ≡ some c → c < 2 ^ 64)
      → ((e : ℕ) → IsElsewhere a (Slot.epoch_key e) b j × IsElsewhere a (Slot.epoch_cert e) b j)
      → IsElsewhere a Slot.epoch_cursor b j
      → Keeps held b j (destroy_epochs port a cursor)
  unfolding destroy_epochs
  destroy_epochs-Keeps none b j wide epochs cursor = λ s. refl
  destroy_epochs-Keeps (some c) b j wide epochs cursor =
      then-Keeps held b j (discard_expired port a c) _
        (λ s. discard_expired-keeps lawful a c s b j (wide c refl) (λ e lo hi. epochs e))
        λ _.
          then-Keeps held b j (destroy port a (Slot.epoch_key c)) _
            (λ s. lawful.delete_elsewhere a _ s b j (epochs c).0)
            λ _.
              then-Keeps held b j (destroy port a (Slot.epoch_cert c)) _
                (λ s. lawful.delete_elsewhere a _ s b j (epochs c).1)
                λ _. λ s. lawful.delete_elsewhere a _ s b j cursor

  -- A stored cursor is read back, where what follows the read succeeds.
  cursor_is :
      (c : ℕ) (s : State)
      → c < 2 ^ 64
      → held s a Slot.epoch_cursor ≡ some (le_bytes 8 c)
      → (follow (λ x. destroy_epochs port a x) (load_cursor port a s)).0 ≡ ok tt
      → load_cursor port a s ≡ (ok (some c), s)
  cursor_is c s small there h = elim (load_cursor-cases lawful a s) [
    | inl (unset, _) ↦ absurd (present (sym there ∙ unset))
    | inr (inl (v, stored, e)) ↦
        let same : v ≡ le_bytes 8 c = some_value (sym stored ∙ there) in
        e
        ∙ ap (λ x. (ok (some (le_value x)), s)) same
        ∙ ap (λ x. (ok (some x), s)) (le_value-le_bytes 8 c (omega arith))
    | inr (inr (x, e)) ↦
        absurd (refused (sym (ap (λ r. (follow (λ x. destroy_epochs port a x) r).0) e) ∙ h))
  ]
    where
      present : {v : Bytes} → some v ≡ none → ⊥
      present h = ground arith

      some_value : {x y : Bytes} → some x ≡ some y → x ≡ y
      some_value h = ground arith

      refused : {x : ProtocolError} → ◌≡◌ {A = Outcome (Unit {0})} (err x) (ok tt) → ⊥
      refused h = ground arith

  -- On a tidy storage whose cursor is `c`, no epoch slot outlives it.
  destroy_epochs_all :
      (c : ℕ) (s : State)
      → c < 2 ^ 64
      → held s a Slot.epoch_cursor ≡ some (le_bytes 8 c)
      → IsTidy held a s
      → (destroy_epochs port a (some c) s).0 ≡ ok tt
      → (e : ℕ) → e < 2 ^ 64
      → (held (destroy_epochs port a (some c) s).1 a (Slot.epoch_key e) ≡ none)
        × (held (destroy_epochs port a (some c) s).1 a (Slot.epoch_cert e) ≡ none)
  unfolding IsTidy destroy_epochs
  destroy_epochs_all c s small cursor tidy h e wide =
      let (swept, _, key, cert) = destroy_epochs-inversion c s h in
      elim (same_or_not e c) [
        | inl here ↦ (
          ap (λ x. held (destroy_epochs port a (some c) s).1 a (Slot.epoch_key x)) here ∙ key,
          ap (λ x. held (destroy_epochs port a (some c) s).1 a (Slot.epoch_cert x)) here ∙ cert,
        )
        | inr other ↦
            let (key, cert) = swept_empty lawful a c e s small wide other (tidy e wide) swept in
            let s1 = (discard_expired port a c s).1 in
            let e1 = then_ok (discard_expired port a c) (λ _. rest) s swept in
            (
              ap (λ r. held r.1 a (Slot.epoch_key e)) e1
                  ∙ rest_keeps (Slot.epoch_key e) (λ p. other (sym (slot_key p.1)))
                      (elsewhere λ h. cc) (elsewhere λ h. cc) s1
                  ∙ key,
              ap (λ r. held r.1 a (Slot.epoch_cert e)) e1
                  ∙ rest_keeps (Slot.epoch_cert e) (elsewhere λ h. cc)
                      (λ p. other (sym (slot_cert p.1))) (elsewhere λ h. cc) s1
                  ∙ cert,
            )
      ]
    where
      same_or_not : (x y : ℕ) → (x ≡ y) ⊎ (x ≢ y)
      same_or_not x y = ground arith

      rest : State → Outcome (Unit {0}) × State
      rest =
          destroy port a (Slot.epoch_key c)
          >> (destroy port a (Slot.epoch_cert c) >> destroy port a Slot.epoch_cursor)

      rest_keeps :
          (j : Slot)
          → IsElsewhere a (Slot.epoch_key c) a j
          → IsElsewhere a (Slot.epoch_cert c) a j
          → IsElsewhere a Slot.epoch_cursor a j
          → Keeps held a j rest
      rest_keeps j key cert cursor =
          then-Keeps held a j (destroy port a (Slot.epoch_key c)) _
            (λ s. lawful.delete_elsewhere a _ s a j key)
            λ _.
              then-Keeps held a j (destroy port a (Slot.epoch_cert c)) _
                (λ s. lawful.delete_elsewhere a _ s a j cert)
                λ _. λ s. lawful.delete_elsewhere a _ s a j cursor

  -- On a tidy storage whose cursor is `c`, destroying the acting material leaves no inbox key, no
  -- cursor and no epoch slot.
  pub destroy_acting_material-clears :
      (c : ℕ) (s : State)
      → c < 2 ^ 64
      → held s a Slot.epoch_cursor ≡ some (le_bytes 8 c)
      → IsTidy held a s
      → (destroy_acting_material port a s).0 ≡ ok tt
      → (e : ℕ) → e < 2 ^ 64
      → (held (destroy_acting_material port a s).1 a Slot.inbox_key ≡ none)
        × (held (destroy_acting_material port a s).1 a Slot.epoch_cursor ≡ none)
        × (held (destroy_acting_material port a s).1 a (Slot.epoch_key e) ≡ none)
        × (held (destroy_acting_material port a s).1 a (Slot.epoch_cert e) ≡ none)
  unfolding destroy_acting_material IsTidy
  destroy_acting_material-clears c s small cursor tidy h e wide =
      let (_, o1, e1) = then_inversion (destroy port a Slot.inbox_key) _ s h in
      let s1 = (port.delete a Slot.inbox_key s).1 in
      let same : (j : Slot) → Slot.inbox_key ≢ j → held s1 a j ≡ held s a j =
        λ j apart. destroy_keeps Slot.inbox_key j s apart in
      let there : held s1 a Slot.epoch_cursor ≡ some (le_bytes 8 c) = same _ (λ h. cc) ∙ cursor in
      let read : load_cursor port a s1 ≡ (ok (some c), s1) =
        cursor_is c s1 small there (sym (ap (λ r. r.0) e1) ∙ h) in
      let whole = e1 ∙ ap (follow (λ c. destroy_epochs port a c)) read in
      let done : (destroy_epochs port a (some c) s1).0 ≡ ok tt = sym (ap (λ r. r.0) whole) ∙ h in
      let tidy1 : IsTidy held a s1 =
        λ e w. still_tidy e (same _ (λ h. cc)) (same _ (λ h. cc)) (same _ (λ h. cc)) (tidy e w) in
      let (key, cert) = destroy_epochs_all c s1 small there tidy1 done e wide in
      let (_, gone, _, _) = destroy_epochs-inversion c s1 done in
      (
        ap (λ r. held r.1 a Slot.inbox_key) whole
            ∙ destroy_epochs-Keeps (some c) a Slot.inbox_key
                (λ d p. subst (λ x. x < 2 ^ 64) (number p) small)
                (λ e. (elsewhere (λ h. cc), elsewhere (λ h. cc))) (elsewhere λ h. cc) s1
            ∙ deleted _ s o1,
        ap (λ r. held r.1 a Slot.epoch_cursor) whole ∙ gone,
        ap (λ r. held r.1 a (Slot.epoch_key e)) whole ∙ key,
        ap (λ r. held r.1 a (Slot.epoch_cert e)) whole ∙ cert,
      )
    where
      number : {x y : ℕ} → some x ≡ some y → x ≡ y
      number h = ground arith

      still_tidy :
          (e : ℕ)
          → held (port.delete a Slot.inbox_key s).1 a (Slot.epoch_key e)
            ≡ held s a (Slot.epoch_key e)
          → held (port.delete a Slot.inbox_key s).1 a (Slot.epoch_cert e)
            ≡ held s a (Slot.epoch_cert e)
          → held (port.delete a Slot.inbox_key s).1 a Slot.epoch_cursor ≡ held s a Slot.epoch_cursor
          → ((held s a (Slot.epoch_key e) ≡ none) × (held s a (Slot.epoch_cert e) ≡ none))
            ⊎ (held s a Slot.epoch_cursor ≡ some (le_bytes 8 e))
          → ((held (port.delete a Slot.inbox_key s).1 a (Slot.epoch_key e) ≡ none)
              × (held (port.delete a Slot.inbox_key s).1 a (Slot.epoch_cert e) ≡ none))
            ⊎ (held (port.delete a Slot.inbox_key s).1 a Slot.epoch_cursor ≡ some (le_bytes 8 e))
      still_tidy e k c u (inl (key, cert)) = inl (k ∙ key, c ∙ cert)
      still_tidy e k c u (inr cursor) = inr (u ∙ cursor)
