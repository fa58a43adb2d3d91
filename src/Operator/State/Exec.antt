-- ===== src/Operator/State/Exec.antt =====
-- A `&mut self` method: the state comes back beside an error too, since what was written before
-- the early return stays written.
use nymora.Prelude.{Bool, Option, none, some, if◌then◌else◌}
use nymora.Core.Error.{Outcome, ok, err, panic, refuse, because, LocalReason, ProtocolError}
use nymora.Operator.State.{AgoraState}

abbrev pub Exec {ℓ} : Type ℓ → Type ℓ
Exec A = AgoraState → Outcome A × AgoraState

module _ {ℓ} {A : Type ℓ} where
  abbrev pub pure : A → Exec A
  pure a s = (ok a, s)

  abbrev pub raise : ProtocolError → Exec A
  raise e s = (err e, s)

  abbrev pub reject : LocalReason → Exec A
  reject r s = (refuse (because r), s)

  -- A read of the state that may refuse, followed by `?`.
  abbrev pub reads : (AgoraState → Outcome A) → Exec A
  reads f s = (f s, s)

  abbrev pub gets : (AgoraState → A) → Exec A
  gets f s = (ok (f s), s)

  -- `.ok_or(…)?`
  abbrev pub or_reject : Option A → LocalReason → Exec A
  or_reject none r = reject r
  or_reject (some a) r = pure a

abbrev pub modify : (AgoraState → AgoraState) → Exec (Unit {0})
modify f s = (ok tt, f s)

-- `if test { return Err(…) }`
abbrev pub reject_if : Bool → LocalReason → Exec (Unit {0})
reject_if b r s = (if b then refuse (because r) else ok tt, s)

infixl 5 ◌>>=◌ ◌>>◌
abbrev pub ◌>>=◌ {ℓ κ} : {A : Type ℓ} {B : Type κ} → Exec A → (A → Exec B) → Exec B
◌>>=◌ m f s =
    let (r, s') = m s in elim r [ ok a ↦ f a s' | err e ↦ (err e, s') | panic ↦ (panic, s') ]

abbrev pub ◌>>◌ {ℓ κ} : {A : Type ℓ} {B : Type κ} → Exec A → Exec B → Exec B
m >> k = m >>= λ _. k
