-- ===== src/Common.antt =====
-- fielddeck/common: errors, permission classes, clients, events and the clock's readings.
pub mod Errors
pub mod Permission
pub mod Events
