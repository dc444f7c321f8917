-- ===== src/Model.antt =====
-- internal/matchengine/model.go and errors.go: the match aggregate and what it is made of.
pub mod Kinds
pub mod Errors
pub mod Timer
pub mod State
pub mod Events
