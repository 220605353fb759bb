-- ===== src/Examples.antt =====
-- Concrete runs of the parts of src/, on small inputs.
pub mod Instances
pub mod Logs
pub mod Tables
pub mod Filters
pub mod Memory
pub mod Stores
pub mod Engines
pub mod Servers
pub mod Scans
pub mod Compactions
pub mod Monitors
