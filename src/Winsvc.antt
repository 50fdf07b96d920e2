-- ===== src/Winsvc.antt =====
-- internal/core/winsvc: the adapter as a Windows service.
pub mod Controller
