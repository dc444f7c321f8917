-- ===== src/Effects.antt =====
-- What an accepted command of internal/matchengine/engine.go makes of the state, handler by handler.
-- A field whose new value does not matter to the lemmas that follow is written as that of the result.
pub mod Play
pub mod Clock
pub mod Tiebreak
pub use Play.*
pub use Clock.*
pub use Tiebreak.*
