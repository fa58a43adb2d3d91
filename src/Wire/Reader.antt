-- ===== src/Wire/Reader.antt =====
-- `take_digest`, `take_u64`, `take_framed` and `take_entries`, which nymora-core/src/bundle.rs,
-- handoff.rs, invitation.rs and nymora-protocol/src/bulletin.rs, credential.rs each have: a reader
-- takes a value off the front of `rest`. On a 64-bit target a length always fits a `usize`.
pub mod Prints
pub mod Inverts
use nymora.Prelude.{
  ℕ, ◌*◌, ◌^◌, Bool, List, [], ◌∷◌, leb, ltb, ◌==◌, if◌then◌else◌, length, take, drop,
}
use nymora.Prelude.Bytes.{Bytes, le_value}
use nymora.Core.Error.{Outcome, ok, err, panic, ProtocolError}

abbrev pub Reader {ℓ} : Type ℓ → Type ℓ
Reader A = Bytes → Outcome (A × Bytes)

abbrev pub pure {ℓ} : {A : Type ℓ} → A → Reader A
pure a rest = ok (a, rest)

abbrev pub malformed {ℓ} : {A : Type ℓ} → Reader A
malformed rest = err ProtocolError.malformed

infixl 5 ◌>>=◌ ◌>>◌
abbrev pub ◌>>=◌ {ℓ κ} : {A : Type ℓ} {B : Type κ} → Reader A → (A → Reader B) → Reader B
◌>>=◌ m f bytes = elim (m bytes) [ ok (a, rest) ↦ f a rest | err e ↦ err e | panic ↦ panic ]

abbrev pub ◌>>◌ {ℓ κ} : {A : Type ℓ} {B : Type κ} → Reader A → Reader B → Reader B
m >> k = m >>= λ _. k

-- `if test { return Err(ProtocolError::Malformed) }`
abbrev pub refuse_if : Bool → Reader (Unit {0})
refuse_if b rest = if b then err ProtocolError.malformed else ok (tt, rest)

-- `rest.get(..n).ok_or(Malformed)?`, and `rest` moved on.
unfoldable pub take_bytes : ℕ → Reader Bytes
take_bytes n rest =
    if leb n (length rest) then ok (take n rest, drop n rest) else err ProtocolError.malformed

unfoldable pub take_digest : Reader Bytes
take_digest = take_bytes 32

-- `from_le_bytes` of the next 8 bytes.
unfoldable pub take_u64 : Reader ℕ
take_u64 = do bytes ← take_bytes 8; pure (le_value bytes)

unfoldable pub take_framed : Reader Bytes
take_framed = do len ← take_u64; take_bytes len

-- `count.checked_mul(width)`, then that many bytes.
unfoldable pub take_entries : ℕ → ℕ → Reader Bytes
take_entries count width = do refuse_if (leb (2 ^ 64) (count * width)); take_bytes (count * width)

-- `split_first`, and the version it must be.
unfoldable pub take_version : ℕ → Reader (Unit {0})
take_version version [] = err ProtocolError.malformed
take_version version (first ∷ tail) =
    if first == version then ok (tt, tail) else err ProtocolError.malformed

-- `if !rest.is_empty() { return Err(ProtocolError::Malformed) }`
unfoldable pub take_end : Reader (Unit {0})
take_end [] = ok (tt, [])
take_end (_ ∷ _) = err ProtocolError.malformed

-- The value, of a reader that is the whole decoder.
abbrev pub decoded {ℓ} : {A : Type ℓ} → Outcome (A × Bytes) → Outcome A
decoded (ok (a, _)) = ok a
decoded (err e) = err e
decoded panic = panic
