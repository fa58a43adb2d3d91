-- ===== src/Wire/Bundle.antt =====
-- nymora-core/src/bundle.rs: the content bundle and its canonical encoding.
pub mod RoundTrip
use nymora.Prelude.{ℕ, ◌+◌, List, [], ◌∷◌, length}
use nymora.Prelude.Bytes.{Bytes, le_bytes}
use nymora.Core.Error.{Outcome}
use nymora.Wire.Reader.{
  Reader, pure, ◌>>=◌, ◌>>◌, take_digest, take_framed, take_version, take_end, decoded,
}
use nymora.Wire.Writer.{encode_into}

pub record Attestation : Type 0 where
  pub proof : Bytes
  pub message_hash : Bytes
  pub nullifier : Bytes

pub record Bundle : Type 0 where
  pub content : Bytes
  pub tag : Bytes
  pub attestation : Attestation

abbrev pub format_version : ℕ
format_version = 1

unfoldable pub encoded_len : Bundle → ℕ
encoded_len b = 1 + 8 + length b.content + 32 + 8 + length b.attestation.proof + 32 + 32

-- What `encode` puts, in order.
unfoldable pub fields : Bundle → List Bytes
fields b =
    (format_version ∷ [])
    ∷ le_bytes 8 (length b.content)
    ∷ b.content
    ∷ b.tag
    ∷ le_bytes 8 (length b.attestation.proof)
    ∷ b.attestation.proof
    ∷ b.attestation.message_hash
    ∷ b.attestation.nullifier
    ∷ []

unfoldable pub encode : Bundle → Bytes → Outcome ℕ × Bytes
encode b out = encode_into (encoded_len b) (fields b) out

unfoldable pub read : Reader Bundle
read = do
  take_version format_version
  content ← take_framed
  tag ← take_digest
  proof ← take_framed
  message_hash ← take_digest
  nullifier ← take_digest
  take_end
  pure (record {
    content = content;
    tag = tag;
    attestation = record { proof = proof; message_hash = message_hash; nullifier = nullifier };
  })

unfoldable pub decode : Bytes → Outcome Bundle
decode bytes = decoded (read bytes)
