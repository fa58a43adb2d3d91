-- ===== src/Credential/Derive.antt =====
-- nymora-crypto/src/commit.rs and nullifier.rs (`migration`), and field.rs (`mint_secret`). The
-- point decoding and its coordinates are a third-party crate's, so they are a parameter.
use nymora.Prelude.{◌%◌, Option, none, some, [], ◌∷◌}
use nymora.Prelude.Bytes.{Bytes}
use nymora.Crypto.Primitives.{Primitives}
use nymora.Accumulator.Exclusion.{update_at}

-- `bytes[31] &= 0x3f`
unfoldable pub mint_secret : Bytes → Bytes
mint_secret entropy = update_at 31 (λ b. b % 64) entropy

module _ (prim : Primitives) where
  open prim use {fld, from_id}

  -- The nullifier that spends a leaf; `field_domain::SPEND`.
  unfoldable pub migration : Bytes → Bytes → Bytes → Bytes
  migration key leaf agora = fld.to_bytes (
      fld.hash (
        fld.from_u64 6
        ∷ fld.from_witness_bytes key
        ∷ fld.from_witness_bytes leaf
        ∷ from_id agora
        ∷ []))

  -- `coordinates` is `none` of bytes that are no point; `field_domain::LEAF`.
  unfoldable pub commit :
      (Bytes → Option (fld.F × fld.F)) → Bytes → Bytes → Bytes → Bytes → Option Bytes
  commit coordinates pk_root key opening agora = elim (coordinates pk_root) [
    | none ↦ none
    | some (x, y) ↦ some (
        fld.to_bytes (
          fld.hash (
            fld.from_u64 1
            ∷ x
            ∷ y
            ∷ fld.from_witness_bytes key
            ∷ fld.from_witness_bytes opening
            ∷ from_id agora
            ∷ [])))
  ]
