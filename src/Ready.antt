-- ===== src/Ready.antt =====
-- What NewReadyState (internal/matchengine/model.go) gives: a state that ValidateState accepts.
mod Pool
pub mod Laws
