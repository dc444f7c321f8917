-- ===== src/Domain.antt =====
-- internal/domain: the entities that the authorization of a command reads, with their assignments.
pub mod Entities
pub mod Mappool
pub mod Sorting
pub mod Entries
pub mod Turn
pub mod Order
pub mod Pool
pub mod Names
