-- ===== src/Middleware.antt =====
-- HTTP middleware (pkg/middleware).
pub mod Csrf
mod CsrfLaws
pub mod Auth
mod AuthLaws
mod Examples
