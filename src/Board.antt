-- ===== src/Board.antt =====
-- internal/matchengine/board.go: the 4x4 field as a map from cells to pieces, and its lines. Values
-- are never shared, so Board.Clone, clonePiece and Pieces are the identity here. A loop that stops
-- at the first match returns the first match of the map's order.
mod Alignments
unfoldable pub use Alignments.*
mod Cells
unfoldable pub use Cells.*
