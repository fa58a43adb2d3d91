-- ===== src/Core/Error.antt =====
-- nymora-core/src/error.rs: what crosses to a counterparty, and the local diagnostics that do not.
-- `Outcome` is `Result<_, ProtocolError>` with one more case, a panic.
use nymora.Prelude.{Option, none, some, ◌≡◌, refl, ◌⊎◌, inl, inr}

pub data ProtocolError : Type 0 where
  malformed rejected unavailable : ProtocolError

pub data LocalReason : Type 0 where
  unknown_credential credential_revoked duplicate_nullifier proof_invalid threshold_not_met
        epoch_out_of_range policy_denied wrong_agora fetch_key_stale dissolved :
      LocalReason

pub record Rejection : Type 0 where
  pub reason : Option LocalReason

abbrev pub opaque : Rejection
opaque = record { reason = none }

abbrev pub because : LocalReason → Rejection
because r = record { reason = some r }

-- `From<Rejection> for ProtocolError`
abbrev pub narrow : Rejection → ProtocolError
narrow _ = ProtocolError.rejected

pub data Outcome {ℓ} (A : Type ℓ) : Type ℓ where
  ok : A → Outcome A
  err : ProtocolError → Outcome A
  panic : Outcome A

-- A refusal, whatever its reason, crosses as the one error.
abbrev pub refuse {ℓ} : {A : Type ℓ} → Rejection → Outcome A
refuse r = err (narrow r)

-- An outcome is a value, an error or a panic.
pub Outcome-cases {ℓ} :
    {A : Type ℓ} (o : Outcome A)
    → ((a : A) × (o ≡ ok a)) ⊎ (((e : ProtocolError) × (o ≡ err e)) ⊎ (o ≡ panic))
Outcome-cases (ok a) = inl (a, refl)
Outcome-cases (err e) = inr (inl (e, refl))
Outcome-cases panic = inr (inr refl)
