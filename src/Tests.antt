-- ===== src/Tests.antt =====
-- Runs of the plugins' functions on one small host, and the theorems at work there.
mod Addresses
mod Conflict
mod Effect
mod Fixtures
mod Further
mod First
mod Ipv6
mod Kernel
mod Plugins
mod Routes
mod Setup
mod Values
mod Success
mod Veth
