-- ===== src/Tests/CredentialRuns.antt =====
-- The credential's theorems at a storage of one agora: created, rolled over and handed over.
use nymora.Prelude.{
  ℕ, ◌^◌, ◌<◌, ◌≤◌, ◌≡◌, ◌≢◌, ◌⊎◌, true, refl, inl, inr, Option, none, some, List, [], ◌∷◌, ◌++◌,
  arith, take, length, replicate,
}
use nymora.Prelude.Bytes.{Bytes, le_bytes}
use nymora.Core.Error.{ok, err, panic, ProtocolError}
use nymora.Wire.Handoff
use nymora.Wire.Handoff.{MigrationHandoff}
use nymora.Credential.Ports.{Slot}
use nymora.Credential.Derive
use nymora.Credential.Session.{load_cursor}
use nymora.Credential.Record.{sign_epoch_record, decode_record}
use nymora.Crypto.Inbox.{mint_inbox_secret}
use nymora.Credential.Epochs.{slice, written, discard_expired, roll_epoch}
use nymora.Credential.Epochs.Expired
use nymora.Credential.Epochs.Rollover
use nymora.Credential.Epochs.Swept.{IsTidy}
use nymora.Credential.Create.{CredentialEntropy, create}
use nymora.Credential.Create.Atomic.{IsBare, IsComplete}
use nymora.Credential.Create.Whole
use nymora.Credential.Migration.{
  MigrationBuffers, Migrated, sign_handoff, authorize_migration, complete_migration,
}
use nymora.Credential.Migration.Authorize
use nymora.Credential.Migration.Complete
use nymora.Proofs.{renew}
use nymora.Credential.Software.{software}
use nymora.Credential.Software.Certifies
use nymora.Credential.Software.Certifies.{certify_inbox, agora_of, sign_request, message_of}
use nymora.Credential.Ports.{InboxCertPayload}
use nymora.Tests.Toy.{short, short-SignVerifies}
use nymora.Tests.ToyPorts.{
  Memory, set, memory, held, memory-IsSecureStorage, memory-Destroys, signer, two_bytes_fit,
}

abbrev agora : Bytes
agora = replicate 32 1

abbrev coordinates : Bytes → Option (Bytes × Bytes)
coordinates pk = some (pk, pk)

abbrev entropy : CredentialEntropy
entropy = record {
  credential_key = replicate 32 2;
  root_opening = replicate 32 3;
  inbox_key = replicate 32 4;
}

abbrev empty : Memory
empty a k = none

empty-IsBare : IsBare held agora empty
empty-IsBare = record {
  credential_key = refl;
  root_opening = refl;
  root_public_key = refl;
  inbox_key = refl;
}

abbrev buffer : Bytes
buffer = replicate 30 0

-- A device that holds a credential of the agora, certified up to epoch 3.
abbrev device : Memory
device = set agora Slot.credential_key (some (replicate 32 2)) (
    set agora Slot.root_opening (some (replicate 32 3)) (
      set agora Slot.root_public_key (some (5 ∷ 6 ∷ [])) (
        set agora Slot.inbox_key (some (replicate 32 4))
          (set agora Slot.epoch_cursor (some (le_bytes 8 3)) empty))))

device-IsTidy : IsTidy held agora device
unfolding IsTidy
device-IsTidy e wide = inl (refl, refl)

device-IsComplete :
    IsComplete held agora device (replicate 32 2) (replicate 32 3) (5 ∷ 6 ∷ []) (replicate 32 4)
device-IsComplete = record {
  credential_key = refl;
  root_opening = refl;
  root_public_key = refl;
  inbox_key = refl;
}

create-IsWhole_example :
    Whole.IsWhole memory-IsSecureStorage agora short coordinates signer entropy
      (create memory agora short coordinates signer entropy (0 ∷ 0 ∷ []) [] empty)
create-IsWhole_example =
    Whole.create-IsWhole memory-IsSecureStorage agora short coordinates signer entropy (0 ∷ 0 ∷ [])
      [] empty memory-Destroys empty-IsBare

discard_expired_ends_example : (discard_expired memory agora 7 device).0 ≢ panic
discard_expired_ends_example =
    Expired.discard_expired_ends memory-IsSecureStorage agora 7 device (omega arith)

cursor_read : load_cursor memory agora device ≡ (ok (some 3), device)
unfolding load_cursor nymora.Credential.Session.loaded_cursor le_bytes nymora.Prelude.Bytes.le_value
cursor_read = refl

discard_expired_answers_example : (discard_expired memory agora 7 device).0 ≡ ok tt
discard_expired_answers_example =
    Expired.discard_expired_answers memory-IsSecureStorage agora 3 7 device memory-Destroys
      cursor_read (omega arith) (omega arith) (omega arith)

swept : (discard_expired memory agora 7 device).0 ≡ ok tt
unfolding discard_expired load_cursor nymora.Credential.Session.loaded_cursor le_bytes
    nymora.Credential.Epochs.discard_from nymora.Credential.Epochs.checked_span
    nymora.Prelude.Bytes.le_value nymora.Credential.Epochs.sweep
swept = refl

discard_expired-clears_example :
    ((discard_expired memory agora 7 device).1 agora (Slot.epoch_key 5) ≡ none)
    × ((discard_expired memory agora 7 device).1 agora (Slot.epoch_cert 5) ≡ none)
unfolding nymora.Prelude.Bytes.le_value le_bytes
discard_expired-clears_example =
    Expired.discard_expired-clears memory-IsSecureStorage agora 7 device (le_bytes 8 3) 5
      (omega arith) refl swept (omega arith) (omega arith)

too_short :
    (sign_epoch_record agora signer 7
      (short.public_key (short.mint_signing_secret (9 ∷ [])))
      (0 ∷ [])).0
    ≡ err ProtocolError.malformed
unfolding sign_epoch_record
too_short = refl

roll_epoch-refused_example :
    (roll_epoch memory agora short signer 7 (9 ∷ []) (0 ∷ []) device).1 ≡ device
roll_epoch-refused_example =
    Rollover.roll_epoch-refused memory-IsSecureStorage agora short signer 7 (9 ∷ []) (0 ∷ []) device
      ProtocolError.malformed too_short

rolled : (roll_epoch memory agora short signer 7 (9 ∷ []) buffer device).0 ≡ ok tt
unfolding roll_epoch nymora.Credential.Epochs.check_roll written sign_epoch_record
    nymora.Credential.Record.finish_record nymora.Wire.Writer.copy_at
    nymora.Credential.Epochs.keep_epoch nymora.Credential.Epochs.slice discard_expired load_cursor
    nymora.Credential.Session.loaded_cursor le_bytes nymora.Credential.Epochs.discard_from
    nymora.Credential.Epochs.checked_span nymora.Prelude.Bytes.le_value
    nymora.Credential.Epochs.sweep
rolled = refl

roll_epoch-stores_example :
    ((roll_epoch memory agora short signer 7 (9 ∷ []) buffer device).1 agora (Slot.epoch_key 7)
      ≡ some (9 ∷ []))
    × ((roll_epoch memory agora short signer 7 (9 ∷ []) buffer device).1 agora Slot.epoch_cursor
        ≡ some (le_bytes 8 7))
    × (certificate : Bytes) × (signature : Bytes) × ((roll_epoch memory agora short signer 7
            (9 ∷ [])
            buffer
            device).1
          agora
          (Slot.epoch_cert 7)
        ≡ some certificate)
    × (decode_record certificate ≡ ok (record { public_key = 9 ∷ []; signature = signature }))
roll_epoch-stores_example =
    Rollover.roll_epoch-stores memory-IsSecureStorage agora short signer 7 (9 ∷ []) buffer device
      (λ p out n tail h. two_bytes_fit out n tail h) (omega arith) rolled

abbrev rolled_device : Memory
rolled_device = (roll_epoch memory agora short signer 7 (9 ∷ []) buffer device).1

roll_epoch-IsTidy_example :
    IsTidy held agora rolled_device
    × (held rolled_device agora Slot.epoch_cursor ≡ some (le_bytes 8 7))
    × (held rolled_device agora (Slot.epoch_key 7) ≡ some (9 ∷ []))
    × (len : ℕ) × (out : Bytes) × (certificate : Bytes) × (sign_epoch_record agora signer 7
          (9 ∷ [])
          buffer
        ≡ (ok len, out))
    × (slice len out ≡ ok certificate)
    × (held rolled_device agora (Slot.epoch_cert 7) ≡ some certificate)
roll_epoch-IsTidy_example =
    Rollover.roll_epoch-IsTidy memory-IsSecureStorage agora short signer 7 (9 ∷ []) buffer device
      (omega arith) device-IsTidy rolled

abbrev buffers : MigrationBuffers
buffers = record {
  root_public_key = 0 ∷ 0 ∷ [];
  signature = 0 ∷ 0 ∷ [];
  retire_signature = 0 ∷ 0 ∷ [];
  handoff = replicate 130 0;
}

authorize_migration_last_example :
    ((authorize_migration memory agora short signer (8 ∷ []) buffers device).1 ≡ device)
    ⊎ ((handoff : MigrationHandoff) × (encoded : ℕ × Bytes) × (sign_handoff memory agora short
            signer
            (8 ∷ [])
            buffers
            device
          ≡ (ok handoff, device))
        × (written (Handoff.encode handoff buffers.handoff) ≡ ok encoded))
authorize_migration_last_example =
    Authorize.authorize_migration_last memory-IsSecureStorage agora short signer (8 ∷ []) buffers
      device

abbrev handed_over : MigrationHandoff
handed_over = record {
  agora = agora;
  credential_key = replicate 32 2;
  root_opening = replicate 32 3;
  root_public_key = 5 ∷ 6 ∷ [];
  migration_cert = 5 ∷ 6 ∷ [];
  retire_cert = 5 ∷ 6 ∷ [];
}

abbrev encoded : ℕ × Bytes
encoded = (127, (Handoff.encode handed_over (replicate 130 0)).1)

authorized : (authorize_migration memory agora short signer (8 ∷ []) buffers device).0 ≡ ok encoded
unfolding authorize_migration sign_handoff written nymora.Credential.Epochs.slice
    nymora.Credential.Session.load_secret32 nymora.Credential.Session.loaded_secret32
    nymora.Credential.Session.load_value nymora.Credential.Session.loaded
    nymora.Credential.Create.inbox_public_key nymora.Crypto.Inbox.inbox_public_key
    nymora.Credential.Migration.destroy_acting_material nymora.Credential.Migration.destroy_epochs
    Handoff.encode Handoff.encoded_len Handoff.fields nymora.Wire.Writer.encode_into
    nymora.Wire.Writer.put_all nymora.Wire.Writer.copy_at discard_expired load_cursor
    nymora.Credential.Session.loaded_cursor le_bytes nymora.Credential.Epochs.discard_from
    nymora.Credential.Epochs.checked_span nymora.Prelude.Bytes.le_value
    nymora.Credential.Epochs.sweep
authorized = refl

authorize_migration-clears_example :
    ((authorize_migration memory agora short signer (8 ∷ []) buffers device).1 agora Slot.inbox_key
      ≡ none)
    × ((authorize_migration memory agora short signer (8 ∷ []) buffers device).1 agora
          Slot.epoch_cursor
        ≡ none)
    × ((authorize_migration memory agora short signer (8 ∷ []) buffers device).1 agora
          (Slot.epoch_key 3)
        ≡ none)
    × ((authorize_migration memory agora short signer (8 ∷ []) buffers device).1 agora
          (Slot.epoch_cert 3)
        ≡ none)
authorize_migration-clears_example =
    Authorize.authorize_migration-clears memory-IsSecureStorage agora short signer 3 (8 ∷ [])
      buffers device encoded 3 (omega arith) refl device-IsTidy authorized (omega arith)

received : Handoff.decode (take encoded.0 encoded.1) ≡ ok handed_over
unfolding Handoff.decode Handoff.read le_bytes nymora.Prelude.Bytes.le_value Handoff.encode
    Handoff.encoded_len Handoff.fields nymora.Wire.Writer.encode_into nymora.Wire.Writer.put_all
    nymora.Wire.Writer.copy_at nymora.Wire.Reader.take_version nymora.Wire.Reader.take_digest
    nymora.Wire.Reader.take_bytes nymora.Wire.Reader.take_framed nymora.Wire.Reader.take_u64
    nymora.Wire.Reader.take_end
received = refl

abbrev made : Migrated
made = record { commitment = 9 ∷ []; spend = 9 ∷ []; inbox = mint_inbox_secret (replicate 32 6) }

completed :
    (complete_migration memory agora short coordinates handed_over
      (8 ∷ [])
      (replicate 32 5)
      (replicate 32 6)
      empty).0
    ≡ ok made
unfolding complete_migration nymora.Credential.Migration.check_agora Derive.commit
    nymora.Credential.Create.store_credential_material Derive.migration mint_inbox_secret
    nymora.Crypto.Inbox.inbox_public_key
completed = refl

leaf_opens :
    Derive.commit short coordinates (5 ∷ 6 ∷ []) (replicate 32 2) (replicate 32 3) agora
    ≡ some (9 ∷ [])
unfolding Derive.commit
leaf_opens = refl

migration_lineage_example :
    (made.spend ≡ Derive.migration short (replicate 32 2) (9 ∷ []) agora)
    × (Derive.commit short coordinates
          (8 ∷ [])
          (replicate 32 2)
          (Derive.mint_secret (replicate 32 5))
          agora
        ≡ some made.commitment)
migration_lineage_example =
    Complete.migration_lineage memory held memory agora short coordinates signer buffers device
      empty encoded (replicate 32 2) (replicate 32 3) (5 ∷ 6 ∷ []) (replicate 32 4) (9 ∷ [])
      (8 ∷ []) (replicate 32 5) (replicate 32 6) handed_over made memory-IsSecureStorage
      (λ p out n tail h. two_bytes_fit out n tail h) (λ p out n tail h. two_bytes_fit out n tail h)
      refl (omega arith) device-IsComplete leaf_opens authorized received completed

abbrev renewal : InboxCertPayload
renewal = record { agora = agora; action = renew; inbox_public_key = replicate 32 4 }

abbrev signed_buffer : Bytes
signed_buffer = 83 ∷ 9 ∷ replicate 38 0

renewal_signed :
    sign_request (software short coordinates (1 ∷ [])) (certify_inbox renewal) (replicate 40 0)
    ≡ (ok 2, signed_buffer)
unfolding sign_request software nymora.Credential.Software.put_signature
    nymora.Credential.Software.sign_message nymora.Credential.Software.inbox_cert_message
    nymora.Credential.Software.put_value nymora.Credential.Software.root_key
    nymora.Wire.Writer.copy_at nymora.Crypto.Hash.frame le_bytes
renewal_signed = refl

root_published :
    (software short coordinates (1 ∷ [])).create_root (agora_of (certify_inbox renewal)) (0 ∷ []) []
    ≡ (ok (record { public_key = 1; binding = none }), 83 ∷ [], [])
unfolding agora_of software nymora.Credential.Software.create_software_root
    nymora.Credential.Software.root_written nymora.Credential.Software.put_value
    nymora.Credential.Software.root_key nymora.Wire.Writer.copy_at nymora.Crypto.Hash.frame le_bytes
root_published = refl

sign_request-verifies_example :
    (m : Bytes) × (message_of short coordinates (certify_inbox renewal) ≡ some m)
    × (2 ≤ length signed_buffer)
    × (short.verify (83 ∷ []) m (83 ∷ 9 ∷ []) ≡ true)
sign_request-verifies_example =
    Certifies.sign_request-verifies short coordinates (1 ∷ []) (certify_inbox renewal)
      (replicate 40 0) signed_buffer 2 (0 ∷ []) [] (83 ∷ []) []
      (record { public_key = 1; binding = none }) short-SignVerifies renewal_signed root_published
