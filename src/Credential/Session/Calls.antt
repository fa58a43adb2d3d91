-- ===== src/Credential/Session/Calls.antt =====
-- What each call of a lawful storage can have done.
use nymora.Prelude.{
  ℕ, ◌≡◌, refl, ap, ◌∙◌, ◌⊎◌, inl, inr, Option, none, some, [], ◌++◌, arith, leb, ◌==◌, length,
  drop, replicate, length-append, take-append, append-nil, drop, true, false,
}
use nymora.Prelude.Bytes.{Bytes, le_value}
use nymora.Core.Error.{Outcome, ok, err, ProtocolError}
use nymora.Credential.Ports.{SecureStorage, Slot, Holds, IsSecureStorage}
use nymora.Credential.Session.{
  loaded, loaded_secret32, loaded_cursor, load_value, load_secret32, load_cursor,
}

decide_eq : (m n : ℕ) → (m ≡ n) ⊎ ((m == n) ≡ false)
decide_eq m n = ground arith

-- What a buffer of `n` zeros holds after a value of that size is read into it.
filled :
    (n : ℕ) (v : Bytes)
    → length v ≡ n
    → drop n (replicate {A = ℕ} n 0) ≡ []
    → v ++ drop (length v) (replicate n 0) ≡ v
filled n v e none_left = rw (e, none_left) (append-nil v)

loaded-value : (v rest : Bytes) → loaded (ok (some (length v)), v ++ rest) ≡ ok (some v)
unfolding loaded
loaded-value v rest =
    let room : leb (length v) (length (v ++ rest)) ≡ true = ground (arith, length-append v rest) in
    rw (room, take-append v rest) refl

loaded-error : (o : Outcome (Option ℕ) × Bytes) {e : ProtocolError} → o.0 ≡ err e → loaded o ≡ err e
unfolding loaded
loaded-error (o, out) h = rw h refl

loaded-absent : (o : Outcome (Option ℕ) × Bytes) → o.0 ≡ ok none → loaded o ≡ ok none
unfolding loaded
loaded-absent (o, out) h = rw h refl

secret-value :
    (v : Bytes)
    → length v ≡ 32
    → loaded_secret32 (ok (some (length v)), v ++ drop (length v) (replicate 32 0)) ≡ ok v
unfolding loaded_secret32
secret-value v e = rw (filled 32 v e refl, e) refl

secret-error :
    (o : Outcome (Option ℕ) × Bytes) {e : ProtocolError} → o.0 ≡ err e → loaded_secret32 o ≡ err e
unfolding loaded_secret32
secret-error (o, out) h = rw h refl

secret-absent :
    (o : Outcome (Option ℕ) × Bytes)
    → o.0 ≡ ok none
    → loaded_secret32 o ≡ err ProtocolError.unavailable
unfolding loaded_secret32
secret-absent (o, out) h = rw h refl

secret-width :
    (n : ℕ) (out : Bytes)
    → (n == 32) ≡ false
    → loaded_secret32 (ok (some n), out) ≡ err ProtocolError.unavailable
unfolding loaded_secret32
secret-width n out h = rw h refl

cursor-value :
    (v : Bytes)
    → length v ≡ 8
    → loaded_cursor (ok (some (length v)), v ++ drop (length v) (replicate 8 0))
      ≡ ok (some (le_value v))
unfolding loaded_cursor
cursor-value v e = rw (filled 8 v e refl, e) refl

cursor-error :
    (o : Outcome (Option ℕ) × Bytes) {e : ProtocolError} → o.0 ≡ err e → loaded_cursor o ≡ err e
unfolding loaded_cursor
cursor-error (o, out) h = rw h refl

cursor-absent : (o : Outcome (Option ℕ) × Bytes) → o.0 ≡ ok none → loaded_cursor o ≡ ok none
unfolding loaded_cursor
cursor-absent (o, out) h = rw h refl

cursor-width :
    (n : ℕ) (out : Bytes)
    → (n == 8) ≡ false
    → loaded_cursor (ok (some n), out) ≡ err ProtocolError.unavailable
unfolding loaded_cursor
cursor-width n out h = rw h refl

module _ {port : SecureStorage} {held : Holds port} (lawful : IsSecureStorage port held)
    (a : Bytes) where
  open port use {State}

  -- What storage reads of a slot: an absence, a value or an error, and the same storage.
  pub load_value-cases :
      (k : Slot) (out : Bytes) (s : State)
      → ((held s a k ≡ none) × (load_value port a k out s ≡ (ok none, s)))
        ⊎ (((v : Bytes) × (held s a k ≡ some v) × (load_value port a k out s ≡ (ok (some v), s)))
            ⊎ ((e : ProtocolError) × (load_value port a k out s ≡ (err e, s))))
  unfolding load_value
  load_value-cases k out s = elim (lawful.loads a k out s) [
    | inl (r, h) ↦ inl (h, ap (λ o. (o, s)) (loaded-absent _ r))
    | inr (inl (v, h, fits, r)) ↦
        inr (inl (v, h, ap (λ o. (o, s)) (ap loaded r ∙ loaded-value v (drop (length v) out))))
    | inr (inr (e, r)) ↦ inr (inr (e, ap (λ o. (o, s)) (loaded-error _ r)))
  ]

  pub load_secret32-cases :
      (k : Slot) (s : State)
      → ((v : Bytes) × (held s a k ≡ some v)
          × (length v ≡ 32)
          × (load_secret32 port a k s ≡ (ok v, s)))
        ⊎ ((e : ProtocolError) × (load_secret32 port a k s ≡ (err e, s)))
  unfolding load_secret32
  load_secret32-cases k s = elim (lawful.loads a k (replicate 32 0) s) [
    | inl (r, h) ↦ inr (ProtocolError.unavailable, ap (λ o. (o, s)) (secret-absent _ r))
    | inr (inl (v, h, fits, r)) ↦ elim (decide_eq (length v) 32) [
      | inl wide ↦ inl (v, h, wide, ap (λ o. (o, s)) (ap loaded_secret32 r ∙ secret-value v wide))
      | inr other ↦ inr (
        ProtocolError.unavailable,
        ap (λ o. (o, s)) (ap loaded_secret32 r ∙ secret-width (length v) _ other),
      )
    ]
    | inr (inr (e, r)) ↦ inr (e, ap (λ o. (o, s)) (secret-error _ r))
  ]

  pub load_cursor-cases :
      (s : State)
      → ((held s a Slot.epoch_cursor ≡ none) × (load_cursor port a s ≡ (ok none, s)))
        ⊎ (((v : Bytes) × (held s a Slot.epoch_cursor ≡ some v)
              × (load_cursor port a s ≡ (ok (some (le_value v)), s)))
            ⊎ ((e : ProtocolError) × (load_cursor port a s ≡ (err e, s))))
  unfolding load_cursor
  load_cursor-cases s = elim (lawful.loads a Slot.epoch_cursor (replicate 8 0) s) [
    | inl (r, h) ↦ inl (h, ap (λ o. (o, s)) (cursor-absent _ r))
    | inr (inl (v, h, fits, r)) ↦ elim (decide_eq (length v) 8) [
      | inl wide ↦ inr (inl (v, h, ap (λ o. (o, s)) (ap loaded_cursor r ∙ cursor-value v wide)))
      | inr other ↦ inr (
          inr (
            ProtocolError.unavailable,
            ap (λ o. (o, s)) (ap loaded_cursor r ∙ cursor-width (length v) _ other),
          ))
    ]
    | inr (inr (e, r)) ↦ inr (inr (e, ap (λ o. (o, s)) (cursor-error _ r)))
  ]
