-- ===== src/Abi.antt =====
-- The register assignment of abi.go: which registers, or which bytes of the caller's stack argument
-- area, hold each argument and each result of a method.
pub mod Types
pub mod Assign
pub mod Layout
pub mod Sane
pub mod Parts
pub mod Equivalence
pub mod Values
pub mod Segments
pub mod Steps
pub mod Registers
pub mod PtrMask
pub mod Pointers
pub mod StackArea
pub mod Spread
