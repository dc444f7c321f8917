-- ===== src/Validation/Pieces.antt =====
-- validatePoolAndBoard. The maps are never nil here: NewBoard, Board.Clone and UnmarshalJSON make
-- the board's map, and a nil pool has no Shiro slot.
use rct_hub_backend.Base.{
  ℕ, Bool, true, false, not, ◌&&◌, ◌||◌, Text, List, [], ◌∷◌, Option, none, some, Map, lookup,
  contains, is_some, is_empty, if◌then◌else◌, ◌==◌, nat_Eq, text_Eq,
}
use rct_hub_backend.Model.Kinds.{
  TeamSide, Phase, Mod, ForceMod, PoolSlotState, Outcome, mod_Eq, pool_slot_state_Eq, phase_Eq,
}
use rct_hub_backend.Model.State.{Cell, PoolSlot, BoardPiece, Board, State, side_valid, mod_valid}
use rct_hub_backend.Board.{cell_position}
use rct_hub_backend.Setup.{count_mod}

abbrev slot_state_valid : PoolSlotState → Bool
slot_state_valid PoolSlotState.unknown = false
slot_state_valid _ = true

-- One round of the first loop.
abbrev pub valid_pool_slot : Text → PoolSlot → Bool
valid_pool_slot id slot =
    not (is_empty id)
    && slot.id == id
    && mod_valid slot.slot_mod
    && slot_state_valid slot.state
    && not (slot.slot_mod == Mod.shiro && slot.state == PoolSlotState.banned)
    && not (slot.slot_mod == Mod.tb && not (slot.state == PoolSlotState.available))

unfoldable pub valid_slots : Map Text PoolSlot → Bool
valid_slots [] = true
valid_slots ((id, slot) ∷ m) = valid_pool_slot id slot && valid_slots m

unfoldable pub count_slots : Mod → Map Text PoolSlot → ℕ
count_slots m [] = 0
count_slots m ((_, slot) ∷ pool) = count_mod m slot (count_slots m pool)

-- piece.ForceMod is set exactly for an FM piece, and is one of the three.
abbrev valid_force_mod : Mod → Option ForceMod → Bool
valid_force_mod Mod.fm none = false
valid_force_mod Mod.fm (some ForceMod.unknown) = false
valid_force_mod Mod.fm (some _) = true
valid_force_mod m force = not (is_some force)

abbrev valid_owner : Option TeamSide → Bool
valid_owner none = false
valid_owner (some owner) = side_valid owner

-- The variables seenPieceIDs, seenPoolSlotIDs and waitingPieceID.
pub record Seen : Type 0 where
  pub piece_ids : List Text
  pub slot_ids : List Text
  pub waiting : Text

-- The switch on the outcome; the result is the new waitingPieceID.
abbrev check_outcome : Outcome → BoardPiece → Text → Option Text
check_outcome Outcome.waiting_result piece waiting =
    if is_some piece.owner || not (is_empty waiting) then none else some piece.id
check_outcome Outcome.won piece waiting = if valid_owner piece.owner then some waiting else none
check_outcome Outcome.dead piece waiting = if valid_owner piece.owner then some waiting else none
check_outcome Outcome.white piece waiting =
    if piece.piece_mod == Mod.shiro && not (is_some piece.owner) then some waiting else none
check_outcome Outcome.unknown piece waiting = none

abbrev matches_slot : Option PoolSlot → BoardPiece → Bool
matches_slot none piece = false
matches_slot (some slot) piece =
    slot.state == PoolSlotState.selected && slot.slot_mod == piece.piece_mod

-- One round of the loop over the board.
unfoldable pub check_piece : Map Text PoolSlot → Cell → BoardPiece → Seen → Option Seen
check_piece pool cell piece seen =
    if is_some (cell_position cell)
      && not (is_empty piece.id)
      && not (contains piece.id seen.piece_ids)
      && side_valid piece.selected_by
      && matches_slot (lookup piece.source_pool_slot_id pool) piece
      && not (contains piece.source_pool_slot_id seen.slot_ids)
      && valid_force_mod piece.piece_mod piece.force_mod
    then elim (check_outcome piece.outcome piece seen.waiting) [
      | none ↦ none
      | some waiting ↦ some (record {
        piece_ids = piece.id ∷ seen.piece_ids;
        slot_ids = piece.source_pool_slot_id ∷ seen.slot_ids;
        waiting = waiting;
      })
    ]
    else none

unfoldable pub check_board : Map Text PoolSlot → Board → Seen → Option Seen
check_board pool [] seen = some seen
check_board pool ((cell, piece) ∷ b) seen = elim (check_piece pool cell piece seen) [
  | none ↦ none
  | some seen' ↦ check_board pool b seen'
]

-- A slot is selected exactly if a piece came from it.
unfoldable pub selected_match : Map Text PoolSlot → List Text → Bool
selected_match [] slot_ids = true
selected_match ((id, slot) ∷ m) slot_ids =
    (if contains id slot_ids
      then slot.state == PoolSlotState.selected
      else not (slot.state == PoolSlotState.selected))
    && selected_match m slot_ids

abbrev pub nothing_seen : Seen
nothing_seen = record { piece_ids = []; slot_ids = []; waiting = [] }

unfoldable pub validate_pool_and_board : State → Bool
validate_pool_and_board s =
    valid_slots s.pool_slots
    && count_slots Mod.shiro s.pool_slots == 1
    && count_slots Mod.tb s.pool_slots == 1
    && elim (check_board s.pool_slots s.board nothing_seen) [
      | none ↦ false
      | some seen ↦
          selected_match s.pool_slots seen.slot_ids
          && (if s.phase == Phase.waiting_for_result
              then not (is_empty s.pending_piece_id) && s.pending_piece_id == seen.waiting
              else is_empty s.pending_piece_id && is_empty seen.waiting)
    ]
