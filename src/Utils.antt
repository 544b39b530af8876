-- ===== src/Utils.antt =====
-- pkg/utils/utils.go, a module for each of its concerns.
pub mod Names
pub mod Rules
pub mod Routes
pub mod Sysctl
pub mod Neighbors
pub mod Addresses
pub mod MacAddress
