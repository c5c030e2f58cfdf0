-- ===== src/Sso.antt =====
-- backend/internal/sso: the set of used tokens; the handlers of backend/internal/api/sso.go.
pub mod UsedSet
pub mod World
pub mod Login
pub mod Connect
pub mod Status
