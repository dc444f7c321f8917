-- ===== src/Command.antt =====
-- internal/matchcommand: the errors of a request, the classes of commands, the authorization of a
-- caller, and the orchestrator that hands an authorized command to the store.
pub mod Errors
pub mod Classes
pub mod Authorize
pub mod Orchestrator
pub mod Authority
pub mod Requests
pub mod Retries
pub mod Entitlement
