-- ===== src/Crypto.antt =====
-- nymora-crypto: the primitives that the engine is built on, and the derivations over them.
pub mod Field
pub mod Primitives
pub mod Hash
pub mod Inbox
