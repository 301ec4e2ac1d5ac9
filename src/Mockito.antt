-- ===== src/Mockito.antt =====
-- The mockito package: mocks and spies, stubbing by recording, and verification of the call log.
pub mod State
pub mod Record
pub mod Verify
pub mod InOrder
pub mod Verified
pub mod Ordered
pub mod Stubs
pub mod Log
