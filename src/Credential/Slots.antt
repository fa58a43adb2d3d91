-- ===== src/Credential/Slots.antt =====
-- The slots of nymora-ports/src/storage.rs are apart from each other.
use nymora.Prelude.{ℕ, ◌≡◌, ◌≢◌, arith}
use nymora.Prelude.Bytes.{Bytes}
use nymora.Credential.Ports.{Slot, IsElsewhere}

pub slot_key : {d e : ℕ} → Slot.epoch_key d ≡ Slot.epoch_key e → d ≡ e
slot_key h = ground arith

pub slot_cert : {d e : ℕ} → Slot.epoch_cert d ≡ Slot.epoch_cert e → d ≡ e
slot_cert h = ground arith

pub elsewhere : {a b : Bytes} {j k : Slot} → j ≢ k → IsElsewhere a j b k
elsewhere h p = h p.1
