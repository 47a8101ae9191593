-- ===== src/Mocks.antt =====
-- testutil/testutil.go: the stand-ins that the tests of the services use, `MockStorage` apart. A
-- value that a method returns is a copy.
pub mod Tasks
pub mod Documents
pub mod Metadata
