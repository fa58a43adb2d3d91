-- ===== src/Crypto/Field.antt =====
-- nymora-crypto/src/field.rs and poseidon: the field that every accumulator value crosses into.
-- The arithmetic is a third-party field type, so the field, its two byte crossings and the
-- hash over it are parameters.
use nymora.Prelude.{ℕ, ◌≡◌, List}
use nymora.Prelude.Bytes.{Bytes}

pub record Field : Type 1 where
  pub F : Type 0
  pub to_bytes : F → Bytes
  pub from_witness_bytes : Bytes → F
  pub from_u64 : ℕ → F
  pub hash : List F → F

-- `to_bytes` is the canonical encoding and `from_witness_bytes` reads it back.
abbrev pub Decodes : Field → Type 0
Decodes fld = (x : fld.F) → fld.from_witness_bytes (fld.to_bytes x) ≡ x

-- A byte string that is the encoding of its own field element.
abbrev pub IsCanonical : Field → Bytes → Type 0
IsCanonical fld b = fld.to_bytes (fld.from_witness_bytes b) ≡ b
