-- ===== src/Tests.antt =====
-- Runs on small inputs, and each theorem at an input that meets its hypotheses.
mod Toy
mod Containers
mod Bundles
mod Trust
mod Hashes
pub mod Chains
pub mod Files
mod Engine
mod Libraries
mod Quick
mod Certificates
mod Run
mod Pass
mod Numbers
