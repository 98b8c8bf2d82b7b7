-- ===== src/Tests.antt =====
-- Concrete inputs, runs of the definitions on them, and the theorems at them.
mod Toy
mod Merkle
mod Canonical
mod Log
mod Papers
mod Centre
mod Shamir
mod Authority
mod Provision
