-- ===== src/Safety.antt =====
-- fielddeck/safety: grants, leases, limits, the emergency stop, and the manager that joins them.
pub mod Grant
pub mod Arm
pub mod Lease
pub mod Config
pub mod Limits
pub mod Estop
pub mod Manager
