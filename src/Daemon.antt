-- ===== src/Daemon.antt =====
-- fielddeck/daemon and the parts of fielddeck/drivers that it calls.
pub mod Spec
pub mod Registry
pub mod State
pub mod Begin
pub mod SafeState
pub mod Finish
pub mod Interleaving
pub mod Bus
pub mod Service
mod Tests
