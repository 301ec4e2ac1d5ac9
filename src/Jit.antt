-- ===== src/Jit.antt =====
-- The generated trampolines: jit.go, jitcode_amd64.go and jitcode_arm64.go.
pub mod Pcsp
pub mod Text
pub mod Amd64
pub mod Arm64
pub mod Module
pub mod Cache
