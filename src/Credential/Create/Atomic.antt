-- ===== src/Credential/Create/Atomic.antt =====
-- The four slots of a credential are stored together or not at all.
use nymora.Prelude.{
  ◌≡◌, ◌≢◌, refl, sym, ap, ◌∙◌, ◌⊎◌, inl, inr, Option, none, some, List, [], ◌∷◌, arith, subst,
}
use nymora.Prelude.Bytes.{Bytes}
use nymora.Core.Error.{Outcome, ok, err, ProtocolError}
use nymora.Credential.Ports.{SecureStorage, Slot, Holds, IsSecureStorage, Destroys}
use nymora.Credential.Slots.{elsewhere}
use nymora.Credential.Session.{follow, ◌>>◌, unwinding, put, discard}
use nymora.Credential.Session.Steps.{then_ok, then_err, undone-ok, undone-err}
use nymora.Credential.Create.{store_credential_material}

-- No slot of a credential's own material holds anything.
pub record IsBare {S : Type 0} (held : S → Bytes → Slot → Option Bytes) (a : Bytes) (s : S)
    : Type 0 where
  pub credential_key : held s a Slot.credential_key ≡ none
  pub root_opening : held s a Slot.root_opening ≡ none
  pub root_public_key : held s a Slot.root_public_key ≡ none
  pub inbox_key : held s a Slot.inbox_key ≡ none

-- The four slots hold the four values.
pub record IsComplete {S : Type 0} (held : S → Bytes → Slot → Option Bytes) (a : Bytes) (s : S)
    (sk_cred r_root pk_root sk_inbox : Bytes) : Type 0 where
  pub credential_key : held s a Slot.credential_key ≡ some sk_cred
  pub root_opening : held s a Slot.root_opening ≡ some r_root
  pub root_public_key : held s a Slot.root_public_key ≡ some pk_root
  pub inbox_key : held s a Slot.inbox_key ≡ some sk_inbox

-- Either a success that leaves the four values, or an error that leaves none of them.
unfoldable pub IsAllOrNothing :
    {S : Type 0}
    → (S → Bytes → Slot → Option Bytes)
    → Bytes
    → Bytes
    → Bytes
    → Bytes
    → Bytes
    → Outcome (Unit {0}) × S
    → Type 0
IsAllOrNothing held a sk_cred r_root pk_root sk_inbox (o, s) =
    ((o ≡ ok tt) × IsComplete held a s sk_cred r_root pk_root sk_inbox)
    ⊎ ((e : ProtocolError) × (o ≡ err e) × IsBare held a s)

module _ {port : SecureStorage} {held : Holds port} (lawful : IsSecureStorage port held)
    (a : Bytes) where
  open port use {State}

  put_keeps :
      (k j : Slot) (v : Bytes) (s : State) → k ≢ j → held (put port a k v s).1 a j ≡ held s a j
  put_keeps k j v s apart = lawful.store_elsewhere a k v s a j (elsewhere apart)

  drop_keeps : (k j : Slot) (s : State) → k ≢ j → held (port.delete a k s).1 a j ≡ held s a j
  drop_keeps k j s apart = lawful.delete_elsewhere a k s a j (elsewhere apart)

  dropped : Destroys port → (k : Slot) (s : State) → held (port.delete a k s).1 a k ≡ none
  dropped all k s = elim (lawful.deletes a k s) [
    | inl (_, gone) ↦ gone
    | inr (e, r) ↦ let k = sym (all a k s) ∙ r in ground arith
  ]

  -- A write that is unwound where it fails: it is done, or nothing of it is and the unwinding is.
  unwound :
      (k : Slot) (v : Bytes) (slots : List Slot) (s : State)
      → ((unwinding (put port a k v) (discard port a slots) s ≡ (ok tt, (put port a k v s).1))
          × (held (put port a k v s).1 a k ≡ some v))
        ⊎ ((e : ProtocolError) × (unwinding (put port a k v) (discard port a slots) s
              ≡ (err e, discard port a slots (put port a k v s).1))
            × (held (put port a k v s).1 a k ≡ held s a k))
  unwound k v slots s = elim (lawful.stores a k v s) [
    | inl (done, there) ↦ inl (undone-ok (discard port a slots) (put port a k v s) done, there)
    | inr (e, failed, same) ↦
        inr (e, undone-err (discard port a slots) (put port a k v s) failed, same)
  ]

  module _ (all : Destroys port) (sk_cred r_root pk_root sk_inbox : Bytes) where
    IsGood : Outcome (Unit {0}) × State → Type 0
    IsGood o = IsAllOrNothing held a sk_cred r_root pk_root sk_inbox o

    refused :
        (o : Outcome (Unit {0}) × State) (e : ProtocolError) (s : State)
        → o ≡ (err e, s)
        → IsBare held a s
        → IsGood o
    unfolding IsGood IsAllOrNothing
    refused o e s same bare = subst IsGood (sym same) (inr (e, refl, bare))

    fourth : State → Outcome (Unit {0}) × State
    fourth =
        unwinding (put port a Slot.inbox_key sk_inbox)
          (discard port a (Slot.root_public_key ∷ Slot.root_opening ∷ Slot.credential_key ∷ []))

    third : State → Outcome (Unit {0}) × State
    third =
        unwinding (put port a Slot.root_public_key pk_root)
          (discard port a (Slot.root_opening ∷ Slot.credential_key ∷ []))

    second : State → Outcome (Unit {0}) × State
    second =
        unwinding (put port a Slot.root_opening r_root) (discard port a (Slot.credential_key ∷ []))

    fourth-IsGood :
        (s : State)
        → held s a Slot.credential_key ≡ some sk_cred
        → held s a Slot.root_opening ≡ some r_root
        → held s a Slot.root_public_key ≡ some pk_root
        → held s a Slot.inbox_key ≡ none
        → IsGood (fourth s)
    unfolding fourth discard IsGood IsAllOrNothing
    fourth-IsGood s c r p i =
        elim (unwound Slot.inbox_key sk_inbox
          (Slot.root_public_key ∷ Slot.root_opening ∷ Slot.credential_key ∷ []) s) [
            | inr (e, same, kept) ↦ refused (fourth s) e _ same (record {
              credential_key = dropped all _ _;
              root_opening = drop_keeps _ _ _ (λ h. cc) ∙ dropped all _ _;
              root_public_key =
                  drop_keeps _ _ _ (λ h. cc) ∙ drop_keeps _ _ _ (λ h. cc) ∙ dropped all _ _;
              inbox_key =
                  drop_keeps _ _ _ (λ h. cc)
                  ∙ drop_keeps _ _ _ (λ h. cc)
                  ∙ drop_keeps _ _ _ (λ h. cc)
                  ∙ kept
                  ∙ i;
            })
            | inl (same, there) ↦ subst IsGood (sym same) (
                inl (
                  refl,
                  record {
                    credential_key = put_keeps _ _ sk_inbox s (λ h. cc) ∙ c;
                    root_opening = put_keeps _ _ sk_inbox s (λ h. cc) ∙ r;
                    root_public_key = put_keeps _ _ sk_inbox s (λ h. cc) ∙ p;
                    inbox_key = there;
                  },
                ))
          ]

    third-IsGood :
        (s : State)
        → held s a Slot.credential_key ≡ some sk_cred
        → held s a Slot.root_opening ≡ some r_root
        → held s a Slot.root_public_key ≡ none
        → held s a Slot.inbox_key ≡ none
        → IsGood ((third >> fourth) s)
    unfolding third discard
    third-IsGood s c r p i =
        elim (unwound Slot.root_public_key pk_root (Slot.root_opening ∷ Slot.credential_key ∷ [])
          s) [
            | inr (e, same, kept) ↦ refused _ e _ (ap (follow (λ _. fourth)) same) (record {
              credential_key = dropped all _ _;
              root_opening = drop_keeps _ _ _ (λ h. cc) ∙ dropped all _ _;
              root_public_key = drop_keeps _ _ _ (λ h. cc) ∙ drop_keeps _ _ _ (λ h. cc) ∙ kept ∙ p;
              inbox_key =
                  drop_keeps _ _ _ (λ h. cc)
                  ∙ drop_keeps _ _ _ (λ h. cc)
                  ∙ put_keeps _ _ pk_root s (λ h. cc)
                  ∙ i;
            })
            | inl (same, there) ↦ subst IsGood (sym (ap (follow (λ _. fourth)) same)) (
                fourth-IsGood _ (put_keeps _ _ pk_root s (λ h. cc) ∙ c)
                  (put_keeps _ _ pk_root s (λ h. cc) ∙ r) there
                  (put_keeps _ _ pk_root s (λ h. cc) ∙ i))
          ]

    second-IsGood :
        (s : State)
        → held s a Slot.credential_key ≡ some sk_cred
        → held s a Slot.root_opening ≡ none
        → held s a Slot.root_public_key ≡ none
        → held s a Slot.inbox_key ≡ none
        → IsGood ((second >> (third >> fourth)) s)
    unfolding second discard
    second-IsGood s c r p i = elim (unwound Slot.root_opening r_root (Slot.credential_key ∷ []) s) [
      | inr (e, same, kept) ↦ refused _ e _ (ap (follow (λ _. third >> fourth)) same) (record {
        credential_key = dropped all _ _;
        root_opening = drop_keeps _ _ _ (λ h. cc) ∙ kept ∙ r;
        root_public_key = drop_keeps _ _ _ (λ h. cc) ∙ put_keeps _ _ r_root s (λ h. cc) ∙ p;
        inbox_key = drop_keeps _ _ _ (λ h. cc) ∙ put_keeps _ _ r_root s (λ h. cc) ∙ i;
      })
      | inl (same, there) ↦ subst IsGood (sym (ap (follow (λ _. third >> fourth)) same)) (
          third-IsGood _ (put_keeps _ _ r_root s (λ h. cc) ∙ c) there
            (put_keeps _ _ r_root s (λ h. cc) ∙ p) (put_keeps _ _ r_root s (λ h. cc) ∙ i))
    ]

  -- Storing a credential's material is all or nothing, where deletes are done: on a storage that
  -- holds none of it, either it succeeds and the four slots hold the four values, or it reports an
  -- error and none of the four slots holds anything.
  pub store_credential_material_atomic :
      (sk_cred r_root pk_root sk_inbox : Bytes) (s : State)
      → Destroys port
      → IsBare held a s
      → IsAllOrNothing held a sk_cred r_root pk_root sk_inbox
          (store_credential_material port a sk_cred r_root pk_root sk_inbox s)
  unfolding store_credential_material second third fourth IsGood
  store_credential_material_atomic sk_cred r_root pk_root sk_inbox s all bare =
      let first = put port a Slot.credential_key sk_cred in
      elim (lawful.stores a Slot.credential_key sk_cred s) [
        | inr (e, failed, same) ↦
            refused all sk_cred r_root pk_root sk_inbox _ e _ (then_err first _ s failed) (record {
              credential_key = same ∙ bare.credential_key;
              root_opening = put_keeps _ _ sk_cred s (λ h. cc) ∙ bare.root_opening;
              root_public_key = put_keeps _ _ sk_cred s (λ h. cc) ∙ bare.root_public_key;
              inbox_key = put_keeps _ _ sk_cred s (λ h. cc) ∙ bare.inbox_key;
            })
        | inl (done, there) ↦
            subst (λ o. IsAllOrNothing held a sk_cred r_root pk_root sk_inbox o)
              (sym (then_ok first _ s done))
              (second-IsGood all sk_cred r_root pk_root sk_inbox _ there
                (put_keeps _ _ sk_cred s (λ h. cc) ∙ bare.root_opening)
                (put_keeps _ _ sk_cred s (λ h. cc) ∙ bare.root_public_key)
                (put_keeps _ _ sk_cred s (λ h. cc) ∙ bare.inbox_key))
      ]
