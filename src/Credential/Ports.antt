-- ===== src/Credential/Ports.antt =====
-- nymora-ports/src/storage.rs and key_store.rs, with the payloads of nymora-core/src/certificate.rs:
-- the two interfaces that a host implements, and what their documentation promises. An agora is its
-- 32 bytes here. A port writes into a caller's buffer, so it answers the buffer too.
use nymora.Prelude.{ℕ, ◌^◌, ◌≤◌, ◌<◌, ◌≡◌, ◌⊎◌, Option, none, some, ◌++◌, length, drop}
use nymora.Prelude.Bytes.{Bytes}
use nymora.Core.Error.{Outcome, ok, err}
use nymora.Proofs.{InboxAction}

pub data Slot : Type 0 where
  credential_key root_opening root_public_key inbox_key epoch_cursor : Slot
  epoch_key epoch_cert tag_key : ℕ → Slot
  -- the policy class and the epoch
  cached_root : Bytes → ℕ → Slot

pub record SecureStorage : Type 1 where
  pub State : Type 0
  pub store : Bytes → Slot → Bytes → State → Outcome (Unit {0}) × State
  pub load : Bytes → Slot → Bytes → State → Outcome (Option ℕ) × Bytes
  pub delete : Bytes → Slot → State → Outcome (Unit {0}) × State

-- The value that a slot of an agora holds.
abbrev pub Holds : SecureStorage → Type 0
Holds port = port.State → Bytes → Slot → Option Bytes

abbrev pub IsElsewhere : Bytes → Slot → Bytes → Slot → Type 0
IsElsewhere a k b j = ¬ ((a ≡ b) × (k ≡ j))

-- What the trait documents. A write that is not reported as done did not commit; a delete that is
-- reported as done destroyed the value, whether or not there was one; no call touches another slot
-- or another agora; a read answers the value, its absence, or an error.
pub record IsSecureStorage (port : SecureStorage) (held : Holds port) : Type 0 where
  pub stores :
      (a : Bytes) (k : Slot) (v : Bytes) (s : port.State)
      → (((port.store a k v s).0 ≡ ok tt) × (held (port.store a k v s).1 a k ≡ some v))
        ⊎ ((e : _) × ((port.store a k v s).0 ≡ err e)
            × (held (port.store a k v s).1 a k ≡ held s a k))
  pub store_elsewhere :
      (a : Bytes) (k : Slot) (v : Bytes) (s : port.State) (b : Bytes) (j : Slot)
      → IsElsewhere a k b j
      → held (port.store a k v s).1 b j ≡ held s b j
  pub deletes :
      (a : Bytes) (k : Slot) (s : port.State)
      → (((port.delete a k s).0 ≡ ok tt) × (held (port.delete a k s).1 a k ≡ none))
        ⊎ ((e : _) × ((port.delete a k s).0 ≡ err e))
  pub delete_elsewhere :
      (a : Bytes) (k : Slot) (s : port.State) (b : Bytes) (j : Slot)
      → IsElsewhere a k b j
      → held (port.delete a k s).1 b j ≡ held s b j
  pub loads :
      (a : Bytes) (k : Slot) (out : Bytes) (s : port.State)
      → (((port.load a k out s).0 ≡ ok none) × (held s a k ≡ none))
        ⊎ (((v : Bytes) × (held s a k ≡ some v)
              × (length v ≤ length out)
              × (port.load a k out s ≡ (ok (some (length v)), v ++ drop (length v) out)))
            ⊎ ((e : _) × ((port.load a k out s).0 ≡ err e)))

-- A store whose deletes are done: the other promises allow every call to fail.
abbrev pub Destroys : SecureStorage → Type 0
Destroys port = (a : Bytes) (k : Slot) (s : port.State) → (port.delete a k s).0 ≡ ok tt

pub record EpochCertPayload : Type 0 where
  pub agora : Bytes
  pub epoch : ℕ
  pub epoch_public_key : Bytes

pub record MigrationCertPayload : Type 0 where
  pub agora : Bytes
  pub successor_public_key : Bytes

pub record InboxCertPayload : Type 0 where
  pub agora : Bytes
  pub action : InboxAction
  pub inbox_public_key : Bytes

pub record RootMaterialWritten : Type 0 where
  pub public_key : ℕ
  pub binding : Option ℕ

-- `create_root` has two buffers, the public key's and the binding's.
pub record KeyStore : Type 0 where
  pub create_root : Bytes → Bytes → Bytes → Outcome RootMaterialWritten × Bytes × Bytes
  pub sign_epoch_cert : EpochCertPayload → Bytes → Outcome ℕ × Bytes
  pub sign_migration : MigrationCertPayload → Bytes → Outcome ℕ × Bytes
  pub sign_inbox_cert : InboxCertPayload → Bytes → Outcome ℕ × Bytes

-- A signature is written at the front of the buffer, and its length is a `usize`.
abbrev pub Fits : {P : Type 0} → (P → Bytes → Outcome ℕ × Bytes) → Type 0
Fits sign =
    (p : _) (out : Bytes) (n : ℕ) (tail : Bytes)
    → sign p out ≡ (ok n, tail)
    → (n ≤ length tail) × (n < 2 ^ 64)
