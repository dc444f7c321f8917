-- ===== src/Board/Cells.antt =====
-- Coordinates, zones and the single-piece operations of internal/matchengine/board.go.
use rct_hub_backend.Base.{
  ℕ, ◌+◌, ◌-◌, ◌%◌, Bool, false, not, ◌&&◌, ◌||◌, Text, List, [], ◌∷◌, Option, none, some, ltb,
  if◌then◌else◌, is_some, ◌==◌, text_Eq, lookup, insert, contains,
}
use rct_hub_backend.Model.Kinds.{TeamSide, Outcome, Zone}
use rct_hub_backend.Model.State.{Cell, BoardPiece, Board}

-- The bytes are uint8, and their differences wrap around.
unfoldable pub cell_position : Cell → Option (ℕ × ℕ)
cell_position (a ∷ b ∷ []) =
    let column = (a + 256 - b'A') % 256 in
    let row = (b + 256 - b'1') % 256 in
    if ltb column 4 && ltb row 4 then some (column, row) else none
cell_position _ = none

unfoldable pub position_cell : ℕ → ℕ → Cell
position_cell column row = (b'A' + column) % 256 ∷ (b'1' + row) % 256 ∷ []

-- The second result of ZoneAt is false where this is `none`.
unfoldable pub zone_at : Cell → Option Zone
unfolding cell_position
zone_at cell = elim (cell_position cell) [
  | none ↦ none
  | some (column, row) ↦ some (
      if ltb row 2 && ltb column 2
      then Zone.dt
      else if ltb row 2
      then Zone.hd
      else if ltb column 2
      then Zone.hr
      else Zone.dt)
]

unfoldable pub new_board : Board
new_board = []

unfoldable pub piece_at : Board → Cell → Option BoardPiece
unfolding lookup
piece_at b cell = lookup cell b

unfoldable pub empty : Board → Cell → Bool
unfolding cell_position lookup
empty b cell = is_some (cell_position cell) && not (is_some (lookup cell b))

unfoldable pub place : Cell → BoardPiece → Board → Board
unfolding insert
place cell piece b = insert cell piece b

-- What setOwner writes to the piece that it finds.
unfoldable pub won_by : TeamSide → BoardPiece → BoardPiece
won_by team piece = record piece { owner = some team; outcome = Outcome.won }

-- `none` where setOwner returns false, having changed nothing.
unfoldable pub set_owner : Text → TeamSide → Board → Option Board
unfolding won_by
set_owner id team [] = none
set_owner id team ((cell, piece) ∷ b) =
    let rest = set_owner id team b in
    if piece.id == id
    then some ((cell, won_by team piece) ∷ b)
    else elim rest [ none ↦ none | some b' ↦ some ((cell, piece) ∷ b') ]

unfoldable pub piece_by_id : Text → Board → Option (Cell × BoardPiece)
piece_by_id id [] = none
piece_by_id id ((cell, piece) ∷ b) = if piece.id == id then some (cell, piece) else piece_by_id id b

-- The body of markDead's loop.
unfoldable pub bury : List Text → BoardPiece → BoardPiece
unfolding contains
bury ids piece = if contains piece.id ids then record piece { outcome = Outcome.dead } else piece

unfoldable pub mark_dead : List Text → Board → Board
unfolding bury
mark_dead ids [] = []
mark_dead ids ((cell, piece) ∷ b) = (cell, bury ids piece) ∷ mark_dead ids b

unfoldable pub contains_piece_id : Text → Board → Bool
contains_piece_id id [] = false
contains_piece_id id ((_, piece) ∷ b) = piece.id == id || contains_piece_id id b
