-- ===== src/Wire/Invitation.antt =====
-- nymora-core/src/invitation.rs: the invitation and its canonical encoding. `from_utf8` is core's,
-- so the test that it makes is a parameter; an address is its bytes.
pub mod RoundTrip
use nymora.Prelude.{
  ℕ, ◌+◌, ◌*◌, Bool, true, not, ◌&&◌, Option, none, some, List, [], ◌∷◌, length, ltb, ◌==◌,
  if◌then◌else◌,
}
use nymora.Prelude.Bytes.{Bytes, le_bytes}
use nymora.Core.Error.{Outcome}
use nymora.Wire.Reader.{
  Reader, pure, ◌>>=◌, ◌>>◌, refuse_if, take_digest, take_u64, take_framed, take_version, take_end,
  decoded,
}
use nymora.Wire.Writer.{encode_into}

pub record Invitation : Type 0 where
  pub agora : Bytes
  pub policy_class : Bytes
  pub statement_key : Bytes
  pub log_key : Bytes
  pub fetch_key : Bytes
  pub epoch : ℕ
  pub interval_seconds : ℕ
  pub valid_through : ℕ
  pub server : Bytes

abbrev pub invitation_version : ℕ
invitation_version = 1

-- `self.log_key.iter().all(|byte| *byte == 0)`
unfoldable pub all_zero : Bytes → Bool
all_zero [] = true
all_zero (b ∷ bytes) = b == 0 && all_zero bytes

-- The accessor `log_key`.
unfoldable pub published_log_key : Invitation → Option Bytes
published_log_key i = if all_zero i.log_key then none else some i.log_key

unfoldable pub encoded_len : Invitation → ℕ
encoded_len i = 1 + 5 * 32 + 3 * 8 + 8 + length i.server

-- What `encode` puts, in order.
unfoldable pub fields : Invitation → List Bytes
fields i =
    (invitation_version ∷ [])
    ∷ i.agora
    ∷ i.policy_class
    ∷ i.statement_key
    ∷ i.log_key
    ∷ i.fetch_key
    ∷ le_bytes 8 i.epoch
    ∷ le_bytes 8 i.interval_seconds
    ∷ le_bytes 8 i.valid_through
    ∷ le_bytes 8 (length i.server)
    ∷ i.server
    ∷ []

unfoldable pub encode : Invitation → Bytes → Outcome ℕ × Bytes
encode i out = encode_into (encoded_len i) (fields i) out

module _ (is_utf8 : Bytes → Bool) where
  unfoldable pub read : Reader Invitation
  read = do
    take_version invitation_version
    agora ← take_digest
    policy_class ← take_digest
    statement_key ← take_digest
    log_key ← take_digest
    fetch_key ← take_digest
    epoch ← take_u64
    interval_seconds ← take_u64
    valid_through ← take_u64
    server ← take_framed
    refuse_if (not (is_utf8 server))
    take_end
    refuse_if (ltb valid_through epoch)
    pure (record {
      agora = agora;
      policy_class = policy_class;
      statement_key = statement_key;
      log_key = log_key;
      fetch_key = fetch_key;
      epoch = epoch;
      interval_seconds = interval_seconds;
      valid_through = valid_through;
      server = server;
    })

  unfoldable pub decode : Bytes → Outcome Invitation
  decode bytes = decoded (read bytes)
