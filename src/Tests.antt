-- ===== src/Tests.antt =====
-- Runs of the model on concrete inputs.
mod Abi
mod Pcsp
mod Amd64
mod Arm64
mod Cache
mod Chaos
mod Spec
mod Mockito
mod Proxy
mod Materialize
