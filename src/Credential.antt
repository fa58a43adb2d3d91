-- ===== src/Credential.antt =====
-- nymora-protocol/src/credential.rs and the two ports that it drives: the credential lifecycle.
pub mod Ports
pub mod Slots
pub mod Session
pub mod Derive
pub mod Record
pub mod Epochs
pub mod Create
pub mod Migration
pub mod Software
