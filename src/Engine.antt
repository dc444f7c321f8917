-- ===== src/Engine.antt =====
-- internal/matchengine/engine.go: the commands. Each takes the state and returns the new state with
-- its events, or an error; what a command wrote before it failed is lost, since Execute works on a
-- copy of the state.
pub mod Rules
pub mod Analysis
pub mod Plans
pub mod Availability
pub mod Robbery
pub mod Terminal
pub mod Play
pub mod Clock
pub mod Tiebreak
pub mod Execute
