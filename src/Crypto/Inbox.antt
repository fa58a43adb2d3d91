-- ===== src/Crypto/Inbox.antt =====
-- nymora-crypto/src/inbox.rs, tag.rs, fetch_key.rs and revocation.rs: the derivations behind the
-- boundary envelope.
use nymora.Prelude.{ℕ, ◌+◌, ◌*◌, ◌/◌, ◌%◌, Option, [], ◌∷◌, ◌++◌, take}
use nymora.Prelude.Bytes.{Bytes, le_bytes, be_bytes}
use nymora.Core.Domain.{Domain}
use nymora.Crypto.Primitives.{Primitives}
use nymora.Crypto.Hash
use nymora.Accumulator.Exclusion.{update_at}

-- `agora ‖ epoch`
unfoldable pub epoch_context : ℕ → ℕ → Bytes
epoch_context agora epoch = be_bytes 32 agora ++ le_bytes 8 epoch

-- `bytes[0] &= 248; bytes[31] &= 127; bytes[31] |= 64`, on bytes.
unfoldable pub mint_inbox_secret : Bytes → Bytes
mint_inbox_secret entropy = update_at 31 (λ b. 64 + b % 64) (update_at 0 (λ b. 8 * (b / 8)) entropy)

-- `ephemeral ‖ inbox ‖ class`
unfoldable pub seal_context : Bytes → Bytes → ℕ → Bytes
seal_context ephemeral inbox class = ephemeral ++ inbox ++ be_bytes 32 class

module _ (prim : Primitives) where
  open prim use {fld, hkdf, x25519_public, x25519, encrypt, decrypt}

  unfoldable pub inbox_public_key : Bytes → Bytes
  inbox_public_key secret = x25519_public secret

  unfoldable pub derive_ephemeral_secret : Bytes → ℕ → ℕ → Bytes
  derive_ephemeral_secret agora_secret agora epoch =
      mint_inbox_secret
        (Hash.derive prim Domain.inbox_ephemeral agora_secret (epoch_context agora epoch))

  unfoldable pub derive_body_key : Bytes → ℕ → ℕ → Bytes
  derive_body_key agora_secret agora epoch =
      Hash.derive prim Domain.body_key agora_secret (epoch_context agora epoch)

  unfoldable pub derive_tag_key : Bytes → ℕ → ℕ → Bytes
  derive_tag_key agora_secret agora epoch =
      Hash.derive prim Domain.tag_key agora_secret (epoch_context agora epoch)

  unfoldable pub derive_fetch_key : Bytes → ℕ → ℕ → Bytes
  derive_fetch_key agora_secret agora epoch =
      Hash.derive prim Domain.fetch_key agora_secret (epoch_context agora epoch)

  unfoldable pub agree : Bytes → Bytes → Option Bytes
  agree secret public = x25519 secret public

  unfoldable pub seal_key : Bytes → Bytes → Bytes → ℕ → Bytes
  seal_key agreed ephemeral inbox class =
      Hash.derive prim Domain.inbox_seal agreed (seal_context ephemeral inbox class)

  -- `INBOX_TAG_LEN` is 8.
  unfoldable pub lookup_tag : Bytes → Bytes → Bytes → ℕ → Bytes
  lookup_tag agreed ephemeral inbox class =
      take 8 (Hash.derive prim Domain.inbox_tag agreed (seal_context ephemeral inbox class))

  unfoldable pub associated_data : ℕ → ℕ → Bytes
  associated_data agora epoch =
      Hash.finalize prim (
        Hash.absorb_all (be_bytes 32 agora ∷ le_bytes 8 epoch ∷ []) (Hash.new Domain.bulletin_body))

  -- The buffer after encryption, and the tag.
  unfoldable pub seal_in_place : Bytes → Bytes → Bytes → Bytes × Bytes
  seal_in_place key associated buffer = encrypt key associated buffer

  unfoldable pub open_in_place : Bytes → Bytes → Bytes → Bytes → Option Bytes
  open_in_place key associated buffer tag = decrypt key associated buffer tag

  -- The entry of a leaf in the revocation set; `field_domain::REVOKE` is 8.
  unfoldable pub revocation_key : ℕ → Bytes
  revocation_key leaf =
      fld.to_bytes (fld.hash (fld.from_u64 8 ∷ fld.from_witness_bytes (be_bytes 32 leaf) ∷ []))
