-- ===== src/Credential/Epochs.antt =====
-- nymora-protocol/src/credential.rs: the sweep of ended epochs and the rollover.
pub mod Sweep
pub mod Expired
pub mod Swept
pub mod Roll
pub mod Rollover
use nymora.Prelude.{
  ℕ, zero, suc, ◌+◌, ◌-◌, ◌%◌, ◌^◌, Bool, true, false, ◌||◌, Option, none, some, List, [], ◌∷◌, ltb,
  leb, ◌==◌, if◌then◌else◌, length, take,
}
use nymora.Prelude.Bytes.{Bytes, le_bytes}
use nymora.Core.Error.{Outcome, ok, err, panic, ProtocolError}
use nymora.Crypto.Primitives.{Primitives}
use nymora.Credential.Ports.{SecureStorage, KeyStore, Slot}
use nymora.Credential.Session.{
  Action, pure, lift, ◌>>=◌, ◌>>◌, unwinding, put, destroy, discard, load_value, load_cursor,
}
use nymora.Credential.Record.{sign_epoch_record, EpochRecord, decode_record}

abbrev pub max_epoch_gap : ℕ
max_epoch_gap = 100000

unfoldable pub checked_span : ℕ → ℕ → Outcome ℕ
checked_span cursor current =
    if ltb current cursor || ltb max_epoch_gap (current - cursor)
    then err ProtocolError.malformed
    else ok cursor

-- The length that was written and the buffer.
unfoldable pub written : Outcome ℕ × Bytes → Outcome (ℕ × Bytes)
written (ok len, out) = ok (len, out)
written (err e, out) = err e
written (panic, out) = panic

-- `&record[..len]`
unfoldable pub slice : ℕ → Bytes → Outcome Bytes
slice len out = if leb len (length out) then ok (take len out) else panic

module _ (port : SecureStorage) (agora : Bytes) where
  open port use {State}

  -- The `while` loop of `discard_expired`, on fuel: running out of it is the panic.
  unfoldable pub sweep : ℕ → ℕ → ℕ → Action State (Unit {0})
  sweep zero epoch current = lift (if ltb epoch current then panic else ok tt)
  sweep (suc fuel) epoch current = elim (ltb epoch current) [
    | true ↦ do
      destroy port agora (Slot.epoch_key epoch)
      destroy port agora (Slot.epoch_cert epoch)
      sweep fuel ((epoch + 1) % 2 ^ 64) current
    | false ↦ pure tt
  ]

  unfoldable pub discard_from : Option ℕ → ℕ → Action State (Unit {0})
  discard_from none current = pure tt
  discard_from (some cursor) current = do
    epoch ← lift (checked_span cursor current)
    sweep max_epoch_gap epoch current

  unfoldable pub discard_expired : ℕ → Action State (Unit {0})
  discard_expired current = do cursor ← load_cursor port agora; discard_from cursor current

  -- The check before anything is signed: a cursor that is behind `current`, and not too far.
  unfoldable pub check_roll : Option ℕ → ℕ → Outcome (Unit {0})
  check_roll none current = ok tt
  check_roll (some cursor) current =
      if current == cursor
      then ok tt
      else elim (checked_span cursor current) [ ok _ ↦ ok tt | err e ↦ err e | panic ↦ panic ]

  -- `Ok(None)` of no record, `Unavailable` of one that does not decode.
  unfoldable pub epoch_record_of : Option Bytes → Outcome (Option EpochRecord)
  epoch_record_of none = ok none
  epoch_record_of (some bytes) = elim (decode_record bytes) [
    | ok found ↦ ok (some found)
    | err e ↦ err ProtocolError.unavailable
    | panic ↦ panic
  ]

  unfoldable pub load_epoch_record : ℕ → Bytes → Action State (Option EpochRecord)
  load_epoch_record epoch buffer = do
    bytes ← load_value port agora (Slot.epoch_cert epoch) buffer
    lift (epoch_record_of bytes)

  unfoldable pub store_tag_key : ℕ → Bytes → Action State (Unit {0})
  store_tag_key epoch key = put port agora (Slot.tag_key epoch) key

  -- What `roll_epoch` writes once the record is signed and the ended epochs are gone.
  unfoldable pub keep_epoch : ℕ → Bytes → ℕ × Bytes → Action State (Unit {0})
  keep_epoch current secret (len, out) = do
    put port agora (Slot.epoch_key current) secret
    certificate ← lift (slice len out)
    unwinding (put port agora (Slot.epoch_cert current) certificate)
        (discard port agora (Slot.epoch_key current ∷ []))
    put port agora Slot.epoch_cursor (le_bytes 8 current)

  module _ (prim : Primitives) (key_store : KeyStore) where
    unfoldable pub roll_epoch : ℕ → Bytes → Bytes → Action State (Unit {0})
    roll_epoch current epoch_secret buffer = do
      cursor ← load_cursor port agora
      lift (check_roll cursor current)
      let secret = prim.mint_signing_secret epoch_secret
      signed ←
          lift (written (sign_epoch_record agora key_store current (prim.public_key secret) buffer))
      discard_expired current
      keep_epoch current secret signed
