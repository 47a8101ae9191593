-- ===== src/Metadata.antt =====
-- storage/metadata.go: `MetadataStore`, the users and files in the database.
pub mod Reads
pub mod Save
pub mod Delete
pub mod Accounts
pub mod Bytes
pub mod Ids
pub mod Quota
pub mod Invariant
pub mod Dedup
pub mod Lookup
pub mod Sharing
