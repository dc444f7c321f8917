-- ===== src/Validation.antt =====
-- internal/matchengine/validation.go: the checks on a recovered state. Each function says whether
-- the source's function of that name returns no error; the texts of the errors are not modelled.
mod Timing
mod Pieces
mod Evidence
unfoldable pub use Timing.*
unfoldable pub use Pieces.*
unfoldable pub use Evidence.*
mod Main
unfoldable pub use Main.*
