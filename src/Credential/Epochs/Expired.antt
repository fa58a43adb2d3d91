-- ===== src/Credential/Epochs/Expired.antt =====
-- `discard_expired`: the sweep from the cursor ends, destroys what has ended and nothing else.
use nymora.Prelude.{
  ℕ, zero, suc, ◌+◌, ◌^◌, ◌≤◌, ◌<◌, ◌≡◌, ◌≢◌, refl, sym, ap, ◌∙◌, inl, inr, false, Bool-cases,
  Option, none, some, arith, ltb, subst,
}
use nymora.Prelude.Bytes.{Bytes, le_value}
use nymora.Core.Error.{Outcome, Outcome-cases, ok, err, panic, ProtocolError}
use nymora.Credential.Ports.{SecureStorage, Slot, Holds, IsSecureStorage, Destroys}
use nymora.Credential.Session.{follow, lift, destroy, load_cursor}
use nymora.Credential.Session.Calls.{load_cursor-cases}
use nymora.Credential.Session.Steps.{
  then_ok, then_err, then_ends, then_inversion, Keeps, then-Keeps,
}
use nymora.Credential.Epochs.{max_epoch_gap, checked_span, sweep, discard_from, discard_expired}
use nymora.Credential.Epochs.Sweep.{IsSpared, sweep-next, sweep-done, sweep-Keeps, sweep-clears}

checked_span-inversion :
    (cursor current epoch : ℕ)
    → checked_span cursor current ≡ ok epoch
    → (epoch ≡ cursor) × (cursor ≤ current) × (current ≤ cursor + max_epoch_gap)
unfolding checked_span
checked_span-inversion cursor current epoch h = ground arith

checked_span-near :
    (cursor current : ℕ)
    → cursor ≤ current
    → current ≤ cursor + max_epoch_gap
    → checked_span cursor current ≡ ok cursor
unfolding checked_span
checked_span-near cursor current h k = ground arith

checked_span_ends : (cursor current : ℕ) → checked_span cursor current ≢ panic
unfolding checked_span
checked_span_ends cursor current h = ground arith

module _ {port : SecureStorage} {held : Holds port} (lawful : IsSecureStorage port held)
    (a : Bytes) where
  open port use {State}

  answered : ◌≢◌ {A = Outcome (Unit {0})} (ok tt) panic
  answered h = ground arith

  delete_ends : (k : Slot) (s : State) → (port.delete a k s).0 ≢ panic
  delete_ends k s h = elim (lawful.deletes a k s) [
    | inl (r, _) ↦ ground arith
    | inr (e, r) ↦ ground arith
  ]

  -- The fuel is enough: a round for each epoch, and storage does not panic.
  sweep_ends :
      (fuel epoch current : ℕ) (s : State)
      → current < 2 ^ 64
      → current ≤ epoch + fuel
      → (sweep port a fuel epoch current s).0 ≢ panic
  sweep_ends zero epoch current s small enough =
      let done : ltb epoch current ≡ false = ground arith in
      subst (λ r. r.0 ≢ panic) (sym (sweep-done lawful a zero epoch current s done)) answered
  sweep_ends (suc fuel) epoch current s small enough = elim (Bool-cases (ltb epoch current)) [
    | inl more ↦
        subst (λ r. r.0 ≢ panic) (sym (sweep-next lawful a fuel epoch current s small more))
          (then_ends (destroy port a (Slot.epoch_key epoch)) _ s (delete_ends _ s) λ _.
            then_ends (destroy port a (Slot.epoch_cert epoch)) _ _ (delete_ends _ _)
              λ _. sweep_ends fuel (epoch + 1) current _ small (omega arith))
    | inr done ↦
        subst (λ r. r.0 ≢ panic) (sym (sweep-done lawful a (suc fuel) epoch current s done))
          answered
  ]

  sweep_answers :
      (fuel epoch current : ℕ) (s : State)
      → Destroys port
      → current < 2 ^ 64
      → current ≤ epoch + fuel
      → (sweep port a fuel epoch current s).0 ≡ ok tt
  sweep_answers zero epoch current s all small enough =
      let done : ltb epoch current ≡ false = ground arith in
      ap (λ r. r.0) (sweep-done lawful a zero epoch current s done)
  sweep_answers (suc fuel) epoch current s all small enough =
      elim (Bool-cases (ltb epoch current)) [
        | inl more ↦
            ap (λ r. r.0)
              (sweep-next lawful a fuel epoch current s small more
                ∙ then_ok (destroy port a (Slot.epoch_key epoch)) _ s (all _ _ _)
                ∙ then_ok (destroy port a (Slot.epoch_cert epoch)) _ _ (all _ _ _))
            ∙ sweep_answers fuel (epoch + 1) current _ all small (omega arith)
        | inr done ↦ ap (λ r. r.0) (sweep-done lawful a (suc fuel) epoch current s done)
      ]

  discard_from_ends :
      (cursor : Option ℕ) (current : ℕ) (s : State)
      → current < 2 ^ 64
      → (discard_from port a cursor current s).0 ≢ panic
  unfolding discard_from
  discard_from_ends none current s small h = ground arith
  discard_from_ends (some cursor) current s small h =
      elim (Outcome-cases (checked_span cursor current)) [
        | inl (epoch, e) ↦
            let (same, low, high) = checked_span-inversion cursor current epoch e in
            sweep_ends max_epoch_gap epoch current s small (omega arith)
              (sym (ap (λ r. r.0) (then_ok (lift (checked_span cursor current)) _ s e)) ∙ h)
        | inr (inl (x, e)) ↦
            let k =
              sym (
                ap (λ r. r.0)
                  (then_err (lift (checked_span cursor current))
                    (λ epoch. sweep port a max_epoch_gap epoch current) s e))
              ∙ h in
            ground arith
        | inr (inr e) ↦ checked_span_ends cursor current e
      ]

  -- The loop of `discard_expired` ends within its fuel, for a `u64` epoch and on every storage
  -- that keeps its contract, whatever the cursor says and whichever calls fail.
  pub discard_expired_ends :
      (current : ℕ) (s : State) → current < 2 ^ 64 → (discard_expired port a current s).0 ≢ panic
  unfolding discard_expired
  discard_expired_ends current s small =
      then_ends (load_cursor port a) (λ cursor. discard_from port a cursor current) s cursor_ends
        (λ cursor. discard_from_ends cursor current _ small)
    where
      cursor_ends : (load_cursor port a s).0 ≢ panic
      cursor_ends h = elim (load_cursor-cases lawful a s) [
        | inl (_, e) ↦ let k = sym (ap (λ r. r.0) e) ∙ h in ground arith
        | inr (inl (v, _, e)) ↦ let k = sym (ap (λ r. r.0) e) ∙ h in ground arith
        | inr (inr (x, e)) ↦ let k = sym (ap (λ r. r.0) e) ∙ h in ground arith
      ]

  -- Where deletes are done, the cursor can be read, and it is not ahead of the `u64` epoch
  -- `current` and at most `MAX_EPOCH_GAP` behind it: `discard_expired` succeeds.
  pub discard_expired_answers :
      (cursor current : ℕ) (s : State)
      → Destroys port
      → load_cursor port a s ≡ (ok (some cursor), s)
      → current < 2 ^ 64
      → cursor ≤ current
      → current ≤ cursor + max_epoch_gap
      → (discard_expired port a current s).0 ≡ ok tt
  unfolding discard_expired discard_from
  discard_expired_answers cursor current s all read small low high =
      ap (λ r. r.0)
        (ap (follow (λ c. discard_from port a c current)) read
          ∙ then_ok (lift (checked_span cursor current))
              (λ epoch. sweep port a max_epoch_gap epoch current) s
              (checked_span-near cursor current low high))
      ∙ sweep_answers max_epoch_gap cursor current s all small (omega arith)

  -- `discard_expired` leaves every slot that is not a key or certificate of an epoch before
  -- `current`, and every slot of another agora, whether it succeeds or fails.
  pub discard_expired-keeps :
      (current : ℕ) (s : State) (b : Bytes) (j : Slot)
      → current < 2 ^ 64
      → IsSpared a 0 current b j
      → held (discard_expired port a current s).1 b j ≡ held s b j
  unfolding discard_expired discard_from load_cursor
  discard_expired-keeps current s b j small spared =
      then-Keeps held b j (load_cursor port a) (λ cursor. discard_from port a cursor current)
        (λ s. load_cursor-keeps s) (λ cursor s. from cursor s) s
    where
      from : (cursor : Option ℕ) → Keeps held b j (discard_from port a cursor current)
      from none s = refl
      from (some c) s =
          then-Keeps held b j (lift (checked_span c current))
            (λ epoch. sweep port a max_epoch_gap epoch current) (λ s. refl)
            (λ epoch.
              sweep-Keeps lawful a max_epoch_gap epoch current small b j
                (λ e low high. spared e (omega arith) high))
            s

      load_cursor-keeps : (s : State) → held (load_cursor port a s).1 b j ≡ held s b j
      load_cursor-keeps s = refl

  -- From a stored cursor, what succeeded is a sweep of the epochs since.
  pub discard_expired-inversion :
      (current : ℕ) (s : State) (v : Bytes)
      → held s a Slot.epoch_cursor ≡ some v
      → (discard_expired port a current s).0 ≡ ok tt
      → (le_value v ≤ current)
        × (discard_expired port a current s ≡ sweep port a max_epoch_gap (le_value v) current s)
  unfolding discard_expired discard_from
  discard_expired-inversion current s v cursor h = elim (load_cursor-cases lawful a s) [
    | inl (none_there, e) ↦ absurd (present (sym cursor ∙ none_there))
    | inr (inl (w, there, e)) ↦
        let same : w ≡ v = some_value (sym there ∙ cursor) in
        let read : discard_expired port a current s
            ≡ discard_from port a (some (le_value v)) current s =
          ap (follow (λ c. discard_from port a c current)) e
          ∙ ap (λ x. discard_from port a (some (le_value x)) current s) same in
        let (epoch, span, next) =
          then_inversion (lift (checked_span (le_value v) current))
            (λ epoch. sweep port a max_epoch_gap epoch current) s (sym (ap (λ r. r.0) read) ∙ h) in
        let (start, low, high) = checked_span-inversion (le_value v) current epoch span in
        (low, read ∙ next ∙ ap (λ x. sweep port a max_epoch_gap x current s) start)
    | inr (inr (x, e)) ↦
        absurd
          (refused (sym (ap (λ r. r.0) (ap (follow (λ c. discard_from port a c current)) e)) ∙ h))
  ]
    where
      present : {w : Bytes} → some w ≡ none → ⊥
      present h = ground arith

      some_value : {x y : Bytes} → some x ≡ some y → x ≡ y
      some_value h = ground arith

      refused : {x : ProtocolError} → ◌≡◌ {A = Outcome (Unit {0})} (err x) (ok tt) → ⊥
      refused h = ground arith

  -- Where `discard_expired` succeeds from a stored cursor, on a storage that keeps its contract,
  -- no key and no certificate of an epoch from the cursor's to the one before `current` is left.
  pub discard_expired-clears :
      (current : ℕ) (s : State) (v : Bytes) (e : ℕ)
      → current < 2 ^ 64
      → held s a Slot.epoch_cursor ≡ some v
      → (discard_expired port a current s).0 ≡ ok tt
      → le_value v ≤ e
      → e < current
      → (held (discard_expired port a current s).1 a (Slot.epoch_key e) ≡ none)
        × (held (discard_expired port a current s).1 a (Slot.epoch_cert e) ≡ none)
  discard_expired-clears current s v e small cursor h low high =
      let (_, swept) = discard_expired-inversion current s v cursor h in
      subst (λ r. (held r.1 a (Slot.epoch_key e) ≡ none) × (held r.1 a (Slot.epoch_cert e) ≡ none))
        (sym swept)
        (sweep-clears lawful a max_epoch_gap (le_value v) current s small
          (sym (ap (λ r. r.0) swept) ∙ h) e low high)
