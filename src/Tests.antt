-- ===== src/Tests.antt =====
-- Tests on concrete inputs, and what they share: a toy codec that has the laws of the RLP codec, and
-- instances of the other interfaces.
pub mod Codec
pub mod Alloy
pub mod World
pub mod Certs
pub mod Payloads
pub mod Derivations
pub mod Proofs
pub mod Hosts
pub mod Journals
pub mod Curves
pub mod Kzg
pub mod Guests
pub mod Provers
