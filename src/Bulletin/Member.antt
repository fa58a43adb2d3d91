-- ===== src/Bulletin/Member.antt =====
-- nymora-protocol/src/bulletin.rs, the member's side: finding and opening their own ciphertext,
-- then the body.
use nymora.Prelude.{
  ℕ, ◌+◌, ◌-◌, ◌*◌, not, Option, none, some, [], ◌∷◌, leb, ltb, ◌==◌, if◌then◌else◌, length, take,
  drop,
}
use nymora.Prelude.Bytes.{Bytes, le_value}
use nymora.Core.Error.{Outcome, ok, err, ProtocolError}
use nymora.Crypto.Primitives.{Primitives}
use nymora.Crypto.Inbox
use nymora.Wire.Reader.{
  Reader, pure, ◌>>=◌, ◌>>◌, refuse_if, take_digest, take_u64, take_entries, take_end, decoded,
}

pub record OwnCiphertext : Type 0 where
  pub body_key : Bytes
  pub position : ℕ
  pub path : Bytes

pub record BodyView : Type 0 where
  pub epoch : ℕ
  pub class_roots : Bytes
  pub revocation_root : Bytes
  pub spend_root : Bytes
  pub revoked : Bytes
  pub spent : Bytes
  pub tag_key : Bytes
  pub fetch_key : Bytes

-- What `split_first` leaves of a plaintext: the height, then a path of that many siblings.
unfoldable pub own_path : Bytes → ℕ → Bytes → Outcome OwnCiphertext
own_path body_key position [] = err ProtocolError.malformed
own_path body_key position (height ∷ path) =
    if not (length path == height * 32)
    then err ProtocolError.malformed
    else ok (record { body_key = body_key; position = position; path = path })

unfoldable pub parse_own : Bytes → Outcome OwnCiphertext
parse_own plain =
    if ltb (length plain) (32 + 8 + 1)
    then err ProtocolError.malformed
    else own_path (take 32 plain) (le_value (take 8 (drop 32 plain))) (drop 8 (drop 32 plain))

unfoldable pub read_body : ℕ → Reader BodyView
read_body epoch = do
  body_epoch ← take_u64
  refuse_if (not (body_epoch == epoch))
  classes ← take_u64
  class_roots ← take_entries classes (2 * 32)
  revocation_root ← take_digest
  spend_root ← take_digest
  revoked_count ← take_u64
  revoked ← take_entries revoked_count 32
  spent_count ← take_u64
  spent ← take_entries spent_count 32
  tag_key ← take_digest
  fetch_key ← take_digest
  take_end
  pure (record {
    epoch = body_epoch;
    class_roots = class_roots;
    revocation_root = revocation_root;
    spend_root = spend_root;
    revoked = revoked;
    spent = spent;
    tag_key = tag_key;
    fetch_key = fetch_key;
  })

-- `.ok_or(Malformed)?`, and what follows.
unfoldable pub opened {ℓ κ} : {A : Type ℓ} {B : Type κ} → Option A → (A → Outcome B) → Outcome B
opened none f = err ProtocolError.malformed
opened (some a) f = f a

module _ (prim : Primitives) where
  unfoldable pub own_lookup_tag : Bytes → Bytes → ℕ → Option Bytes
  own_lookup_tag inbox_secret ephemeral class = elim (Inbox.agree prim inbox_secret ephemeral) [
    | none ↦ none
    | some agreed ↦
        some
          (Inbox.lookup_tag prim agreed ephemeral (Inbox.inbox_public_key prim inbox_secret) class)
  ]

  -- The text and its 16-byte tag; the plaintext, where it authenticates.
  unfoldable pub open_sealed : Bytes → ℕ → ℕ → Bytes → Option Bytes
  open_sealed key agora epoch buffer =
      if leb 16 (length buffer)
      then Inbox.open_in_place prim key (Inbox.associated_data prim agora epoch)
          (take (length buffer - 16) buffer) (drop (length buffer - 16) buffer)
      else none

  unfoldable pub open_own_ciphertext : Bytes → Bytes → ℕ → ℕ → ℕ → Bytes → Outcome OwnCiphertext
  open_own_ciphertext inbox_secret ephemeral agora epoch class buffer =
      opened (Inbox.agree prim inbox_secret ephemeral) λ agreed.
        opened
          (open_sealed
            (Inbox.seal_key prim agreed ephemeral (Inbox.inbox_public_key prim inbox_secret) class)
            agora epoch buffer)
          parse_own

  -- `BodyView::open`
  unfoldable pub open_body : Bytes → ℕ → ℕ → Bytes → Outcome BodyView
  open_body body_key agora epoch buffer =
      opened (open_sealed body_key agora epoch buffer) λ plain. decoded (read_body epoch plain)
