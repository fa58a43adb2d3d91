-- ===== src/Tests.antt =====
-- Concrete instances of the parameters, and the theorems at concrete inputs.
pub mod Toy
mod AccumulatorRuns
mod OperatorRuns
mod FoundingRuns
mod ToyPorts
mod CredentialRuns
mod WireRuns
mod MemberRuns
