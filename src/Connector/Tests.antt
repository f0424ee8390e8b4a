-- ===== src/Connector/Tests.antt =====
-- The theorems about pkg/connector at small APIs.
mod Small
mod Groups
mod Listing
mod Reads
mod Wire
mod Provisioning
