-- ===== src/Board/Alignments.antt =====
-- FindAlignments of internal/matchengine/board.go and what is computed from it.
use rct_hub_backend.Base.{
  ℕ, zero, suc, ◌+◌, ◌-◌, Bool, false, not, ◌&&◌, ◌||◌, Text, List, [], ◌∷◌, Option, none, some,
  leb, ltb, if◌then◌else◌, is_empty, flat_map, length, any, all, contains, to_set, ◌==◌, text_Eq,
  nat_Eq, lookup,
}
use rct_hub_backend.Model.Kinds.{TeamSide, Outcome, team_side_Eq, outcome_Eq}
use rct_hub_backend.Model.State.{Cell, BoardPiece, Board, side_valid}
use rct_hub_backend.Board.Cells.{position_cell}

pub record Alignment : Type 0 where
  pub length : ℕ
  pub team : TeamSide
  pub cells : List Cell
  pub board_piece_ids : List Text

-- The entries {1, 0}, {0, 1}, {1, 1} and {1, -1} of `directions`.
pub data Direction : Type 0 where
  across down falling rising : Direction

-- candidateColumn and candidateRow, where both lie in 0 to 3.
unfoldable pub candidate : ℕ → ℕ → Direction → ℕ → Option (ℕ × ℕ)
candidate column row Direction.across offset =
    if ltb (column + offset) 4 && ltb row 4 then some (column + offset, row) else none
candidate column row Direction.down offset =
    if ltb column 4 && ltb (row + offset) 4 then some (column, row + offset) else none
candidate column row Direction.falling offset =
    if ltb (column + offset) 4 && ltb (row + offset) 4
    then some (column + offset, row + offset)
    else none
candidate column row Direction.rising offset =
    if ltb (column + offset) 4 && leb offset row && ltb (row - offset) 4
    then some (column + offset, row - offset)
    else none

-- ok && piece.Outcome == OutcomeWon && piece.Owner != nil && *piece.Owner == team
unfoldable pub is_won_by : TeamSide → BoardPiece → Bool
is_won_by team piece =
    piece.outcome == Outcome.won && elim piece.owner [ none ↦ false | some o ↦ o == team ]

-- The id of a WON piece of the team at a cell.
unfoldable pub won_piece_id : Board → TeamSide → Cell → Option Text
unfolding is_won_by lookup
won_piece_id b team cell = elim (lookup cell b) [
  | none ↦ none
  | some piece ↦ if is_won_by team piece then some piece.id else none
]

-- One round of the innermost loop; `none` is its `break`.
unfoldable pub line_cell : Board → TeamSide → ℕ → ℕ → Direction → ℕ → Option (Cell × Text)
unfolding candidate won_piece_id position_cell
line_cell b team column row direction offset = elim (candidate column row direction offset) [
  | none ↦ none
  | some (c, r) ↦ elim (won_piece_id b team (position_cell c r)) [
    | none ↦ none
    | some id ↦ some (position_cell c r, id)
  ]
]

-- The innermost loop, with `left` rounds to go from `offset`.
unfoldable pub line_from :
    Board → TeamSide → ℕ → ℕ → Direction → (left offset : ℕ) → Option (List (Cell × Text))
unfolding line_cell
line_from b team column row direction zero offset = some []
line_from b team column row direction (suc left) offset =
    let rest = line_from b team column row direction left (suc offset) in
    elim (line_cell b team column row direction offset) [
      | none ↦ none
      | some x ↦ elim rest [ none ↦ none | some xs ↦ some (x ∷ xs) ]
    ]

abbrev firsts : List (Cell × Text) → List Cell
firsts [] = []
firsts ((c, _) ∷ xs) = c ∷ firsts xs

abbrev seconds : List (Cell × Text) → List Text
seconds [] = []
seconds ((_, i) ∷ xs) = i ∷ seconds xs

unfoldable pub alignments_at : Board → TeamSide → ℕ → ℕ → ℕ → Direction → List Alignment
unfolding line_from
alignments_at b team length row column direction =
    elim (line_from b team column row direction length 0) [
      | none ↦ []
      | some line ↦
          record {
            length = length;
            team = team;
            cells = firsts line;
            board_piece_ids = seconds line;
          }
          ∷ []
    ]

abbrev pub range4 : List ℕ
range4 = 0 ∷ 1 ∷ 2 ∷ 3 ∷ []

abbrev pub directions : List Direction
directions = Direction.across ∷ Direction.down ∷ Direction.falling ∷ Direction.rising ∷ []

unfoldable pub find_alignments : Board → TeamSide → ℕ → List Alignment
unfolding alignments_at
find_alignments b team length =
    if not (side_valid team) || ltb length 2 || ltb 4 length
    then []
    else flat_map
        (λ row.
          flat_map (λ column. flat_map (alignments_at b team length row column) directions) range4)
        range4

unfoldable pub has_four : Board → TeamSide → Bool
unfolding find_alignments
has_four b team = ltb 0 (length (find_alignments b team 4))

unfoldable pub is_alignment : Board → TeamSide → List Text → ℕ → Bool
unfolding find_alignments any all contains to_set
is_alignment b team ids len =
    length ids == len
    && not (any is_empty ids)
    && length (to_set ids) == len
    && any (λ alignment. all (λ id. contains id ids) alignment.board_piece_ids)
        (find_alignments b team len)

unfoldable pub piece_participates_in_alignment : Board → TeamSide → Text → ℕ → Bool
unfolding find_alignments any contains
piece_participates_in_alignment b team id len =
    not (is_empty id)
    && any (λ alignment. contains id alignment.board_piece_ids) (find_alignments b team len)
