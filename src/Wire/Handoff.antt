-- ===== src/Wire/Handoff.antt =====
-- nymora-core/src/handoff.rs: the planned-migration handoff and its canonical encoding.
pub mod RoundTrip
use nymora.Prelude.{ℕ, ◌+◌, List, [], ◌∷◌, length}
use nymora.Prelude.Bytes.{Bytes, le_bytes}
use nymora.Core.Error.{Outcome}
use nymora.Wire.Reader.{
  Reader, pure, ◌>>=◌, ◌>>◌, take_digest, take_framed, take_version, take_end, decoded,
}
use nymora.Wire.Writer.{encode_into}

pub record MigrationHandoff : Type 0 where
  pub agora : Bytes
  pub credential_key : Bytes
  pub root_opening : Bytes
  pub root_public_key : Bytes
  pub migration_cert : Bytes
  pub retire_cert : Bytes

abbrev pub handoff_version : ℕ
handoff_version = 2

unfoldable pub encoded_len : MigrationHandoff → ℕ
encoded_len h =
    1
    + 32
    + 32
    + 32
    + 8
    + length h.root_public_key
    + 8
    + length h.migration_cert
    + 8
    + length h.retire_cert

-- What `encode` puts, in order.
unfoldable pub fields : MigrationHandoff → List Bytes
fields h =
    (handoff_version ∷ [])
    ∷ h.agora
    ∷ h.credential_key
    ∷ h.root_opening
    ∷ le_bytes 8 (length h.root_public_key)
    ∷ h.root_public_key
    ∷ le_bytes 8 (length h.migration_cert)
    ∷ h.migration_cert
    ∷ le_bytes 8 (length h.retire_cert)
    ∷ h.retire_cert
    ∷ []

unfoldable pub encode : MigrationHandoff → Bytes → Outcome ℕ × Bytes
encode h out = encode_into (encoded_len h) (fields h) out

unfoldable pub read : Reader MigrationHandoff
read = do
  take_version handoff_version
  agora ← take_digest
  credential_key ← take_digest
  root_opening ← take_digest
  root_public_key ← take_framed
  migration_cert ← take_framed
  retire_cert ← take_framed
  take_end
  pure (record {
    agora = agora;
    credential_key = credential_key;
    root_opening = root_opening;
    root_public_key = root_public_key;
    migration_cert = migration_cert;
    retire_cert = retire_cert;
  })

unfoldable pub decode : Bytes → Outcome MigrationHandoff
decode bytes = decoded (read bytes)
