-- ===== src/Accumulator.antt =====
-- nymora-accumulator: the positional Merkle accumulator and the keyed exclusion sets.
pub mod Witness
pub mod Tree
pub mod Exclusion
