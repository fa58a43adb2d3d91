-- ===== src/Wire.antt =====
-- The byte formats of nymora-core and nymora-protocol: the readers that every decoder chains, and
-- the cursor that every encoder writes with.
pub mod Reader
pub mod Writer
pub mod Format
pub mod Bundle
pub mod Handoff
pub mod Invitation
