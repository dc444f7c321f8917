-- ===== src/Examples.antt =====
-- Inputs on which the theorems apply.
mod Fixture
mod Database
mod Requests
mod Steps
mod Mappools
mod Offering
mod Slots
mod Witnesses
mod Commands
