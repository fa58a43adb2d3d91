-- ===== src/Crypto/Hash.antt =====
-- nymora-crypto/src/hash.rs and kdf.rs: the byte-family hasher and the key derivation. The backend
-- is the absorbed bytes so far: the SHA-256 crate hashes their concatenation.
pub mod Framing
use nymora.Prelude.{ℕ, List, [], ◌∷◌, ◌++◌, length}
use nymora.Prelude.Bytes.{Bytes, le_bytes}
use nymora.Core.Domain.{Domain, tag, codes}
use nymora.Crypto.Primitives.{Primitives}

pub record Hasher : Type 0 where
  pub absorbed : Bytes

-- What `absorb_framed` absorbs: the length, then the bytes.
unfoldable pub frame : Bytes → Bytes
frame bytes = le_bytes 8 (length bytes) ++ bytes

unfoldable pub absorb : Bytes → Hasher → Hasher
absorb bytes h = record { absorbed = h.absorbed ++ frame bytes }

unfoldable pub new : Domain → Hasher
new domain = absorb (codes (tag domain)) (record { absorbed = [] })

-- A chain of `.absorb(…)` calls.
unfoldable pub absorb_all : List Bytes → Hasher → Hasher
absorb_all [] h = h
absorb_all (bytes ∷ rest) h = absorb_all rest (absorb bytes h)

module _ (prim : Primitives) where
  unfoldable pub finalize : Hasher → Bytes
  finalize h = prim.sha256 h.absorbed

  -- `kdf::derive`
  unfoldable pub derive : Domain → Bytes → Bytes → Bytes
  derive domain ikm context = prim.hkdf ikm (
      le_bytes 8 (length (codes (tag domain)))
      ++ codes (tag domain)
      ++ le_bytes 8 (length context)
      ++ context)
