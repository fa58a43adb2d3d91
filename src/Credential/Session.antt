-- ===== src/Credential/Session.antt =====
-- The calls of one agora's storage that nymora-protocol/src/credential.rs makes, in order: a state
-- that comes back beside an error, since what was stored before it stays stored.
pub mod Calls
pub mod Steps
use nymora.Prelude.{
  ℕ, Bool, Option, none, some, List, [], ◌∷◌, leb, ◌==◌, if◌then◌else◌, length, take, replicate,
}
use nymora.Prelude.Bytes.{Bytes, le_value}
use nymora.Core.Error.{Outcome, ok, err, panic, ProtocolError}
use nymora.Credential.Ports.{SecureStorage, Slot}

abbrev pub Action {ℓ} : Type 0 → Type ℓ → Type ℓ
Action S A = S → Outcome A × S

module _ {S : Type 0} where
  abbrev pub pure {ℓ} : {A : Type ℓ} → A → Action S A
  pure a s = (ok a, s)

  -- An outcome that reads no storage, followed by `?`.
  abbrev pub lift {ℓ} : {A : Type ℓ} → Outcome A → Action S A
  lift o s = (o, s)

  abbrev pub raise {ℓ} : {A : Type ℓ} → ProtocolError → Action S A
  raise e s = (err e, s)

  -- What follows an answer, with the state that came with it.
  abbrev pub follow {ℓ κ} :
      {A : Type ℓ} {B : Type κ} → (A → Action S B) → Outcome A × S → Outcome B × S
  follow f (ok a, s) = f a s
  follow f (err e, s) = (err e, s)
  follow f (panic, s) = (panic, s)

  infixl 5 ◌>>=◌ ◌>>◌
  abbrev pub ◌>>=◌ {ℓ κ} : {A : Type ℓ} {B : Type κ} → Action S A → (A → Action S B) → Action S B
  ◌>>=◌ m f s = follow f (m s)

  abbrev pub ◌>>◌ {ℓ κ} : {A : Type ℓ} {B : Type κ} → Action S A → Action S B → Action S B
  m >> k = m >>= λ _. k

  abbrev pub undone {ℓ} : {A : Type ℓ} → (S → S) → Outcome A × S → Outcome A × S
  undone undo (ok a, s) = (ok a, s)
  undone undo (err e, s) = (err e, undo s)
  undone undo (panic, s) = (panic, s)

  -- `if let Err(error) = m { undo; return Err(error) }`
  abbrev pub unwinding {ℓ} : {A : Type ℓ} → Action S A → (S → S) → Action S A
  unwinding m undo s = undone undo (m s)

-- `.ok_or(error)`
abbrev pub ok_or {ℓ} : {A : Type ℓ} → Option A → ProtocolError → Outcome A
ok_or none e = err e
ok_or (some a) e = ok a

-- `&buffer[..len]` of a value that was loaded into `buffer`.
unfoldable pub loaded : Outcome (Option ℕ) × Bytes → Outcome (Option Bytes)
loaded (ok none, out) = ok none
loaded (ok (some len), out) = if leb len (length out) then ok (some (take len out)) else panic
loaded (err e, out) = err e
loaded (panic, out) = panic

unfoldable pub loaded_secret32 : Outcome (Option ℕ) × Bytes → Outcome Bytes
loaded_secret32 (ok none, out) = err ProtocolError.unavailable
loaded_secret32 (ok (some len), out) = if len == 32 then ok out else err ProtocolError.unavailable
loaded_secret32 (err e, out) = err e
loaded_secret32 (panic, out) = panic

unfoldable pub loaded_cursor : Outcome (Option ℕ) × Bytes → Outcome (Option ℕ)
loaded_cursor (ok none, out) = ok none
loaded_cursor (ok (some len), out) =
    if len == 8 then ok (some (le_value out)) else err ProtocolError.unavailable
loaded_cursor (err e, out) = err e
loaded_cursor (panic, out) = panic

module _ (port : SecureStorage) (agora : Bytes) where
  open port use {State, store, load, delete}

  abbrev pub put : Slot → Bytes → Action State (Unit {0})
  put slot value s = store agora slot value s

  abbrev pub destroy : Slot → Action State (Unit {0})
  destroy slot s = delete agora slot s

  -- `let _ = storage.delete(agora, slot);` of each slot in turn.
  unfoldable pub discard : List Slot → State → State
  discard [] s = s
  discard (slot ∷ slots) s = discard slots (delete agora slot s).1

  unfoldable pub load_value : Slot → Bytes → Action State (Option Bytes)
  load_value slot buffer s = (loaded (load agora slot buffer s), s)

  unfoldable pub load_secret32 : Slot → Action State Bytes
  load_secret32 slot s = (loaded_secret32 (load agora slot (replicate 32 0) s), s)

  unfoldable pub load_cursor : Action State (Option ℕ)
  load_cursor s = (loaded_cursor (load agora Slot.epoch_cursor (replicate 8 0) s), s)
