-- ===== src/Operator.antt =====
-- nymora-protocol/src/operator: one agora's server-side state and every flow that mutates it.
pub mod Log
pub mod State
pub mod Envelope
pub mod Boundary
pub mod Vouch
pub mod Quorum
pub mod Access
pub mod Migrate
pub mod Inbox
pub mod Create
pub mod Trace
