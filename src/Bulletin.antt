-- ===== src/Bulletin.antt =====
-- nymora-protocol/src/bulletin.rs: the signed statement of a boundary envelope.
pub mod Member
use nymora.Prelude.{
  ℕ, Bool, false, not, ◌&&◌, Option, none, some, List, [], ◌∷◌, leb, ◌==◌, if◌then◌else◌, length,
  bytes_eq,
}
use nymora.Prelude.Bytes.{Bytes, le_bytes, be_bytes}
use nymora.Core.Error.{Outcome, ok, err, ProtocolError}
use nymora.Core.Domain.{Domain}
use nymora.Crypto.Primitives.{Primitives}
use nymora.Crypto.Hash
use nymora.Operator.Log.{SignedHead}

pub record EnvelopeStatement : Type 0 where
  pub agora : ℕ
  pub epoch : ℕ
  pub ephemeral_key : Bytes
  pub body : Bytes
  pub ciphertexts_digest : Bytes
  -- the embedded head has the fields of a signed head
  pub head : Option SignedHead

unfoldable pub head_values : Option SignedHead → List Bytes
head_values none = (0 ∷ []) ∷ []
head_values (some h) = (1 ∷ []) ∷ le_bytes 8 h.sequence ∷ h.head ∷ h.signature ∷ []

-- The values that `digest` absorbs, in order.
unfoldable pub statement_values : EnvelopeStatement → List Bytes
statement_values s =
    be_bytes 32 s.agora
    ∷ le_bytes 8 s.epoch
    ∷ s.ephemeral_key
    ∷ s.body
    ∷ s.ciphertexts_digest
    ∷ head_values s.head

unfoldable pub ciphertext_values : List (Bytes × Bytes) → List Bytes
ciphertext_values [] = []
ciphertext_values ((tag, bytes) ∷ rest) = tag ∷ bytes ∷ ciphertext_values rest

module _ (prim : Primitives) where
  unfoldable pub digest : EnvelopeStatement → Bytes
  digest s = Hash.finalize prim (Hash.absorb_all (statement_values s) (Hash.new Domain.bulletin))

  unfoldable pub ciphertexts_digest : List (Bytes × Bytes) → Bytes
  ciphertexts_digest ciphertexts = Hash.finalize prim (
      Hash.absorb_all (le_bytes 8 (length ciphertexts) ∷ ciphertext_values ciphertexts)
        (Hash.new Domain.envelope_ciphertexts))

  unfoldable pub statement_verifies : Bytes → EnvelopeStatement → Bytes → Bool
  statement_verifies key statement signature =
      prim.verify key (prim.from_id (digest statement)) signature

  -- `current.is_some_and(|current| statement.epoch <= current)`
  unfoldable pub is_stale : Option ℕ → ℕ → Bool
  is_stale none epoch = false
  is_stale (some current) epoch = leb epoch current

  unfoldable pub accept_envelope : Bytes → EnvelopeStatement → Bytes → Option ℕ → Outcome (Unit {0})
  accept_envelope key statement signature current =
      if is_stale current statement.epoch
      then err ProtocolError.malformed
      else if not (statement_verifies key statement signature)
      then err ProtocolError.malformed
      else ok tt

  unfoldable pub envelope_equivocation :
      Bytes → EnvelopeStatement → Bytes → EnvelopeStatement → Bytes → Bool
  envelope_equivocation key a a_signature b b_signature =
      a.epoch == b.epoch
      && not (bytes_eq (digest a) (digest b))
      && statement_verifies key a a_signature
      && statement_verifies key b b_signature
