-- ===== src/Frame.antt =====
-- What no command of internal/matchengine/engine.go changes, and how far the turn can go.
pub mod Defs
mod Terminal
mod Commands
pub mod Laws
