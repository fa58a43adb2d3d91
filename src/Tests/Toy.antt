-- ===== src/Tests/Toy.antt =====
-- Concrete functions for the parameters of the development. The framed field keeps what it hashes,
-- so its hash has no collision; the short primitives answer one small value.
use nymora.Prelude.{◌+◌, refl, Bool, some, List, [], ◌∷◌, ◌++◌, length, bytes_eq, bytes_eq_refl}
use native.Mathlib.Decide.{ℕ_discrete}
use nymora.Prelude.Bytes.{Bytes}
use nymora.Crypto.Field.{Field, Decodes}
use nymora.Crypto.Primitives.{Primitives}
use nymora.Proofs.{ProofSystem}
use nymora.Accumulator.Exclusion.Absence.{IsEncoding}
use nymora.Operator.Log.Audit.{SignVerifies}

abbrev pub framed_hash : List Bytes → Bytes
framed_hash (a ∷ b ∷ []) = 1 ∷ length a ∷ a ++ b
framed_hash (a ∷ b ∷ c ∷ []) = 2 ∷ length a ∷ length b ∷ a ++ b ++ c
framed_hash _ = 3 ∷ []

abbrev pub framed : Field
framed = record {
  F = Bytes;
  to_bytes = λ x. x;
  from_witness_bytes = λ x. x;
  from_u64 = λ n. n ∷ [];
  hash = framed_hash;
}

pub framed-Decodes : Decodes framed
framed-Decodes x = refl

pub framed_decides : Discrete Bytes
framed_decides = hlevel ℕ_discrete

pub framed-IsEncoding : IsEncoding framed
framed-IsEncoding = record {
  decodes = framed-Decodes;
  decides = framed_decides;
  narrow = λ a b _ _ _ _ h. h;
}

-- Hashes and keys of one byte, signatures that repeat the key and the message.
abbrev pub short : Primitives
short = record {
  fld = record {
    F = Bytes;
    to_bytes = λ x. x;
    from_witness_bytes = λ x. x;
    from_u64 = λ n. n ∷ [];
    hash = λ _. 9 ∷ [];
  };
  sha256 = λ x. length x ∷ [];
  hkdf = λ ikm info. length info ∷ [];
  x25519_public = λ x. x;
  x25519 = λ secret public. some ((length secret + length public) ∷ []);
  encrypt = λ key associated text. (text, associated);
  decrypt = λ key associated text tag. some text;
  mint_signing_secret = λ x. x;
  public_key = λ x. x;
  sign = λ sk m. sk ++ m;
  verify = λ pk m signature. bytes_eq signature (pk ++ m);
  from_id = λ x. x;
}

pub short-SignVerifies : SignVerifies short
short-SignVerifies sk m = bytes_eq_refl (sk ++ m)

-- A proof is its verdict.
abbrev pub verdicts : ProofSystem
verdicts = record {
  Proof = Bool;
  MigrationProof = Bool;
  InboxProof = Bool;
  verify = λ proof _. proof;
  verify_migration_statement = λ proof _. proof;
  verify_inbox_statement = λ proof _. proof;
}
