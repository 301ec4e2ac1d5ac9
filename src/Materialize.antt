-- ===== src/Materialize.antt =====
-- Argument materialisation and result scattering: materialize.go.
pub mod Memory
pub mod Values
pub mod Results
pub mod Args
pub mod Bytes
pub mod Effects
pub mod Copies
pub mod Scalars
pub mod Headers
pub mod OnStack
pub mod Scatter
pub mod Kept
pub mod Places
pub mod Whole
pub mod Stored
pub mod Gathered
pub mod ReadArg
pub mod ReadArgs
pub mod Panics
pub mod Dispatch
pub mod Returned
pub mod Entered
pub mod Mirrored
pub mod StackResults
