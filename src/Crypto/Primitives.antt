-- ===== src/Crypto/Primitives.antt =====
-- The third-party cryptography below nymora-crypto, as an interface: the SHA-256, HKDF, X25519 and
-- ChaCha20-Poly1305 crates, and the certificate scheme over the Jubjub group, whose arithmetic is
-- a third-party crate too.
use nymora.Prelude.{Bool, Option}
use nymora.Prelude.Bytes.{Bytes}
use nymora.Crypto.Field.{Field}

pub record Primitives : Type 1 where
  pub fld : Field
  -- `Sha256`, one shot
  pub sha256 : Bytes → Bytes
  -- HKDF-SHA256 expanded to 32 bytes: the input key and the info
  pub hkdf : Bytes → Bytes → Bytes
  -- X25519: the public key of a secret; the shared secret, `none` if it is not contributory
  pub x25519_public : Bytes → Bytes
  pub x25519 : Bytes → Bytes → Option Bytes
  -- the AEAD, detached: key, associated data and text to text and tag, and back
  pub encrypt : Bytes → Bytes → Bytes → Bytes × Bytes
  pub decrypt : Bytes → Bytes → Bytes → Bytes → Option Bytes
  -- signature.rs, on minted secrets, for which the callers expect `public_key` and `sign` to answer
  pub mint_signing_secret : Bytes → Bytes
  pub public_key : Bytes → Bytes
  pub sign : Bytes → fld.F → Bytes
  pub verify : Bytes → fld.F → Bytes → Bool
  -- `field::from_id`
  pub from_id : Bytes → fld.F
