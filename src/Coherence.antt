-- ===== src/Coherence.antt =====
-- The lifecycle and turn data of a match stay coherent under every command of
-- internal/matchengine/engine.go.
pub mod Defs
mod Terminal
mod Steps
mod Commands
pub mod Laws
