-- ===== src/Sandbox.antt =====
-- core/sandbox/: the static check of code before it runs.
pub mod AstGuard
