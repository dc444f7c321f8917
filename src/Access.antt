-- ===== src/Access.antt =====
-- Which commands internal/matchengine/engine.go may accept: the tables of its README, and the proof
-- that every accepted command is in them.
pub mod Tables
pub mod Commands
pub mod Proxies
pub mod Laws
