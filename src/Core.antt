-- ===== src/Core.antt =====
-- nymora-core: errors, epochs and the domain registry.
pub mod Error
pub mod Epoch
pub mod Domain
