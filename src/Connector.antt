-- ===== src/Connector.antt =====
-- pkg/connector: what the connector does to grant and revoke roles, group memberships and permissions,
-- and to disable and enable accounts.
pub mod Decimal
pub mod Base
pub mod Sdk
pub mod Users
pub mod Roles
pub mod Groups
pub mod Permissions
pub mod ReadOnly
pub mod Accounts
pub mod Credentials
mod Tests
