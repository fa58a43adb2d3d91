-- ===== src/Lib.antt =====
-- nymora: a library for private group membership. An operator keeps an agora, whose members are
-- leaves of one Merkle tree per policy class and act through zero-knowledge proofs; at each epoch
-- boundary the operator lands what was staged, fixes the roots and publishes a signed envelope.
--
-- How the parts interact. nymora-core has the errors, the epoch and the registry of domain tags;
-- nymora-crypto the hasher and the key derivations over them; nymora-accumulator the Merkle tree
-- and the exclusion sets; nymora-circuits and nymora-proofs the public inputs and the verifying
-- calls; nymora-protocol the operator, which calls all of these, and the member's credential, which
-- drives the storage and the key store of nymora-ports. nymora-core also has the formats that
-- devices exchange.
--
-- Which file models which part:
--   Core/Error, Core/Epoch, Core/Domain    nymora-core/src/{error,epoch,domain}.rs
--   Crypto/Hash                            nymora-crypto/src/{hash,kdf}.rs
--   Crypto/Inbox                           nymora-crypto/src/{inbox,tag,fetch_key,revocation}.rs
--   Crypto/Field, Crypto/Primitives        the parameters for third-party arithmetic and ciphers
--   Accumulator/Witness, Accumulator/Tree  nymora-accumulator/src/{witness,tree}.rs
--   Accumulator/Exclusion                  nymora-accumulator/src/exclusion.rs
--   Proofs                                 nymora-circuits/src/{statement,system}.rs and
--                                          nymora-proofs/src/action.rs
--   Bulletin, Bulletin/Member              nymora-protocol/src/bulletin.rs
--   Wire                                   nymora-core/src/{bundle,handoff,invitation}.rs: the shared
--                                          readers and writers, and a module per format
--   Credential/Ports                       nymora-ports/src/{storage,key_store}.rs and the payloads of
--                                          nymora-core/src/certificate.rs
--   Credential/Derive                      nymora-crypto/src/commit.rs, and migration and mint_secret of
--                                          nullifier.rs and field.rs there
--   Credential                             nymora-protocol/src/credential.rs: Record the stored
--                                          certificate, Create, Epochs and Migration its operations
--   Credential/Software                    nymora-ports/src/software.rs, and the certificate messages of
--                                          nymora-crypto/src/signature.rs
--   Operator/State                         the state and helpers of nymora-protocol/src/operator/mod.rs
--   Operator/Create, Operator/Boundary,    create, advance_epoch, and the envelope of the same file
--   Operator/Envelope
--   Operator/{Vouch,Quorum,Migrate,        the files of that name in nymora-protocol/src/operator,
--   Inbox,Access,Log}                      and nymora-protocol/src/decision.rs
--   Operator/Trace                         the operator as a machine: its calls, and their sequences
--   Prelude                                lists, maps, sets of numbers and byte strings
--   Tests                                  concrete parameters and the theorems at concrete inputs
--
-- State and operations. AgoraState is the record of that name, field by field. A method on a
-- mutable state is an Exec: from the state to an outcome and the state after it, so what was
-- written before an early return is there beside the error. A function over a storage port is an
-- Action, the same over the state of the port; what a caller's buffer holds after an error is left
-- out. An outcome is a value, one of the three protocol errors, or a panic; a refusal with a local
-- reason narrows to the one error that crosses.
--
-- Representation. A 32-byte identifier that is a key of a map is the number that its bytes spell,
-- most significant first; what is carried or hashed is a list of bytes. A BTreeMap is an ascending
-- association list, a BTreeSet an ascending list. The const parameter DEPTH is an argument. A
-- subtraction on a u64 wraps as in a release build; a position and a count, which the capacity
-- bounds, are plain numbers. The element count of a Vec is below 2 ^ 64 where a length is encoded.
-- The loop over the bits of a leaf count reads 64 bits, which is all of a usize. The sweep of
-- ended epochs has fuel for MAX_EPOCH_GAP rounds, and running out of it would be a panic: the span
-- that is checked before it is no longer.
--
-- Parameters. Field is the scalar field with its byte crossings and its hash, the Poseidon sponge
-- of nymora-crypto/src/poseidon over the third-party field type, of which nothing is assumed;
-- Primitives the SHA-256, HKDF, X25519 and ChaCha20-Poly1305 crates and the certificate signatures;
-- ProofSystem the verifying half of the proving backend. Where a theorem relies on one of them, it
-- names what it relies on: Decodes, IsEncoding, SignVerifies, Seals, Agrees. SecureStorage and
-- KeyStore are the ports, with what their documentation promises in IsSecureStorage, Destroys and
-- Fits; is_utf8 is the test of from_utf8, and coordinates the decoding of a point. Tests/Toy and
-- Tests/ToyPorts have concrete functions for which all of it holds. What the callers expect of
-- minted signing keys is that they always sign.
--
-- Not modelled: live authentication, the proving calls, the stub and the plonk backends,
-- the iterators over an opened body, the armor, and the arithmetic of the field.
pub mod Accumulator
pub mod Bulletin
pub mod Core
pub mod Credential
pub mod Crypto
pub mod Operator
pub mod Prelude
pub mod Proofs
pub mod Tests
pub mod Wire
