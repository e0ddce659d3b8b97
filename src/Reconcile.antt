-- ===== src/Reconcile.antt =====
-- `RecoveryCoordinator` of backend/services/watch_recovery.py.
pub mod Ports
pub mod Pass
pub mod Mended
