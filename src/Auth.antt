-- ===== src/Auth.antt =====
-- Package auth (backend/internal/auth): login throttling, session store, admission.
pub mod Throttle
pub mod Session
pub mod Store
