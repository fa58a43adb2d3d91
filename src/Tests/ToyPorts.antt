-- ===== src/Tests/ToyPorts.antt =====
-- A storage that keeps what it is given and a key store that signs two bytes: the ports of
-- nymora-ports, made concrete.
use nymora.Prelude.{
  ℕ, zero, suc, ◌^◌, ◌<◌, ◌≤◌, ◌≡◌, refl, sym, ap, ◌∙◌, ◌⊎◌, inl, inr, Bool, true, false, ◌&&◌,
  Bool-cases, Option, none, some, List, [], ◌∷◌, ◌++◌, arith, leb, if◌then◌else◌, length, drop,
  bytes_eq, bytes_eq_sound, bytes_eq_refl,
}
use nymora.Prelude.Bytes.{Bytes}
use nymora.Core.Error.{Outcome, ok, err, ProtocolError}
use nymora.Credential.Ports.{Slot, SecureStorage, IsSecureStorage, IsElsewhere, Destroys, KeyStore}

abbrev pub Memory : Type 0
Memory = Bytes → Slot → Option Bytes

abbrev code : Slot → List ℕ
code Slot.credential_key = 0 ∷ 0 ∷ []
code Slot.root_opening = 1 ∷ 0 ∷ []
code Slot.root_public_key = 2 ∷ 0 ∷ []
code Slot.inbox_key = 3 ∷ 0 ∷ []
code Slot.epoch_cursor = 4 ∷ 0 ∷ []
code (Slot.epoch_key e) = 5 ∷ e ∷ []
code (Slot.epoch_cert e) = 6 ∷ e ∷ []
code (Slot.tag_key e) = 7 ∷ e ∷ []
code (Slot.cached_root c e) = 8 ∷ e ∷ c

abbrev by_kind : ℕ → ℕ → Bytes → Slot
by_kind zero e c = Slot.credential_key
by_kind (suc zero) e c = Slot.root_opening
by_kind (suc (suc zero)) e c = Slot.root_public_key
by_kind (suc (suc (suc zero))) e c = Slot.inbox_key
by_kind (suc (suc (suc (suc zero)))) e c = Slot.epoch_cursor
by_kind (suc (suc (suc (suc (suc zero))))) e c = Slot.epoch_key e
by_kind (suc (suc (suc (suc (suc (suc zero)))))) e c = Slot.epoch_cert e
by_kind (suc (suc (suc (suc (suc (suc (suc zero))))))) e c = Slot.tag_key e
by_kind _ e c = Slot.cached_root c e

abbrev slot_of : List ℕ → Slot
slot_of (n ∷ e ∷ c) = by_kind n e c
slot_of _ = Slot.credential_key

slot_of-code : (k : Slot) → slot_of (code k) ≡ k
slot_of-code Slot.credential_key = refl
slot_of-code Slot.root_opening = refl
slot_of-code Slot.root_public_key = refl
slot_of-code Slot.inbox_key = refl
slot_of-code Slot.epoch_cursor = refl
slot_of-code (Slot.epoch_key e) = refl
slot_of-code (Slot.epoch_cert e) = refl
slot_of-code (Slot.tag_key e) = refl
slot_of-code (Slot.cached_root c e) = refl

abbrev same : Bytes → Slot → Bytes → Slot → Bool
same a k b j = bytes_eq a b && bytes_eq (code k) (code j)

same_refl : (a : Bytes) (k : Slot) → same a k a k ≡ true
same_refl a k = rw (bytes_eq_refl a) (bytes_eq_refl (code k))

same_elsewhere :
    (a : Bytes) (k : Slot) (b : Bytes) (j : Slot) → IsElsewhere a k b j → same a k b j ≡ false
same_elsewhere a k b j away = elim (Bool-cases (same a k b j)) [
  | inr apart ↦ apart
  | inl here ↦
      let left : bytes_eq a b ≡ true = ground arith in
      let right : bytes_eq (code k) (code j) ≡ true = ground arith in
      absurd (
        away (
          bytes_eq_sound a b left,
          sym (slot_of-code k)
              ∙ ap slot_of (bytes_eq_sound (code k) (code j) right)
              ∙ slot_of-code j,
        ))
]

abbrev pub set : Bytes → Slot → Option Bytes → Memory → Memory
set a k v s b j = if same a k b j then v else s b j

set_here : (a : Bytes) (k : Slot) (v : Option Bytes) (s : Memory) → set a k v s a k ≡ v
set_here a k v s = rw (same_refl a k) refl

set_elsewhere :
    (a : Bytes) (k : Slot) (v : Option Bytes) (s : Memory) (b : Bytes) (j : Slot)
    → IsElsewhere a k b j
    → set a k v s b j ≡ s b j
set_elsewhere a k v s b j away = rw (same_elsewhere a k b j away) refl

abbrev pub read : Option Bytes → Bytes → Outcome (Option ℕ) × Bytes
read none out = (ok none, out)
read (some v) out =
    if leb (length v) (length out)
    then (ok (some (length v)), v ++ drop (length v) out)
    else (err ProtocolError.malformed, out)

abbrev pub memory : SecureStorage
memory = record {
  State = Memory;
  store = λ a k v s. (ok tt, set a k (some v) s);
  load = λ a k out s. read (s a k) out;
  delete = λ a k s. (ok tt, set a k none s);
}

abbrev pub held : Memory → Bytes → Slot → Option Bytes
held s a k = s a k

reads :
    (found : Option Bytes) (out : Bytes)
    → (((read found out).0 ≡ ok none) × (found ≡ none))
      ⊎ (((v : Bytes) × (found ≡ some v)
            × (length v ≤ length out)
            × (read found out ≡ (ok (some (length v)), v ++ drop (length v) out)))
          ⊎ ((e : ProtocolError) × ((read found out).0 ≡ err e)))
reads none out = inl (refl, refl)
reads (some v) out = elim (Bool-cases (leb (length v) (length out))) [
  | inl fits ↦ inr (inl (v, refl, ground arith, rw fits refl))
  | inr short ↦ inr (inr (ProtocolError.malformed, rw short refl))
]

pub memory-IsSecureStorage : IsSecureStorage memory held
memory-IsSecureStorage = record {
  stores = λ a k v s. inl (refl, set_here a k (some v) s);
  store_elsewhere = λ a k v s b j away. set_elsewhere a k (some v) s b j away;
  deletes = λ a k s. inl (refl, set_here a k none s);
  delete_elsewhere = λ a k s b j away. set_elsewhere a k none s b j away;
  loads = λ a k out s. reads (s a k) out;
}

pub memory-Destroys : Destroys memory
memory-Destroys a k s = refl

-- Two bytes at the front of a buffer that has room.
abbrev pub two_bytes : Bytes → Outcome ℕ × Bytes
two_bytes (_ ∷ _ ∷ out) = (ok 2, 5 ∷ 6 ∷ out)
two_bytes out = (err ProtocolError.malformed, out)

abbrev pub signer : KeyStore
signer = record {
  create_root =
      λ a pk binding. (ok (record { public_key = 2; binding = none }), (two_bytes pk).1, binding);
  sign_epoch_cert = λ p out. two_bytes out;
  sign_migration = λ p out. two_bytes out;
  sign_inbox_cert = λ p out. two_bytes out;
}

pub two_bytes_fit :
    (out : Bytes) (n : ℕ) (tail : Bytes)
    → two_bytes out ≡ (ok n, tail)
    → (n ≤ length tail) × (n < 2 ^ 64)
two_bytes_fit [] n tail h = ground arith
two_bytes_fit (x ∷ []) n tail h = ground arith
two_bytes_fit (x ∷ y ∷ out) n tail h =
    let size : 2 ≡ n = ground arith in
    let bytes : 5 ∷ 6 ∷ out ≡ tail = ground arith in
    (rw (← bytes, ← size) (omega arith), omega arith)
