-- ===== src/Engine/Analysis.antt =====
-- Analyze of internal/matchengine/availability.go.
use rct_hub_backend.Base.{
  ℕ, suc, Bool, true, false, not, ◌&&◌, ◌||◌, Text, List, [], ◌∷◌, Option, none, some, map,
  flat_map, Map, get_or, keep, sort_texts, if◌then◌else◌, ◌==◌, text_Eq,
}
use rct_hub_backend.Model.Kinds.{
  TeamSide, Mod, ForceMod, PoolSlotState, Zone, mod_Eq, pool_slot_state_Eq,
}
use rct_hub_backend.Model.Errors.{ok, err}
use rct_hub_backend.Model.State.{Cell, PoolSlot, Board, State, side_valid}
use rct_hub_backend.Board.{zone_at, empty, position_cell, range4, is_won_by}
use rct_hub_backend.Engine.Rules.{placement_force_mod}

pub record PlacementOption : Type 0 where
  pub pool_slot_id : Text
  pub cell : Cell
  pub force_mod : Option ForceMod

pub record Analysis : Type 0 where
  pub selectable_pool_slot_ids : List Text
  pub empty_cells : List Cell
  pub legal_cells_by_pool_slot : Map Text (List Cell)
  pub legal_placements : List PlacementOption
  pub won_counts : TeamSide → ℕ
  pub stalemate : Bool

-- The sixteen cells, row by row.
unfoldable pub board_cells : List Cell
board_cells = flat_map (λ row. map (λ column. position_cell column row) range4) range4

unfoldable pub empty_cells : Board → List Cell
empty_cells b = keep (empty b) board_cells

-- WonCounts[team] for RED and BLUE, and 0 for the keys that the map lacks.
unfoldable pub won_count : Board → TeamSide → ℕ
won_count [] team = 0
won_count ((_, piece) ∷ b) team =
    if side_valid team && is_won_by team piece then suc (won_count b team) else won_count b team

abbrev pub is_selectable : PoolSlot → Bool
is_selectable slot = slot.state == PoolSlotState.available && not (slot.slot_mod == Mod.tb)

-- The ids in the map's order, which sort.Strings then puts in order.
unfoldable pub selectable_ids : Map Text PoolSlot → List Text
selectable_ids [] = []
selectable_ids ((id, slot) ∷ m) =
    let rest = selectable_ids m in if is_selectable slot then id ∷ rest else rest

abbrev pub zero_slot : PoolSlot
zero_slot = record { id = []; slot_mod = Mod.unknown; state = PoolSlotState.unknown }

abbrev zone_or_unset : Option Zone → Zone
zone_or_unset none = Zone.unset
zone_or_unset (some zone) = zone

-- The body of the loop over the empty cells, for one slot.
unfoldable pub placement_at : Text → PoolSlot → Cell → List PlacementOption
placement_at id slot cell =
    if slot.slot_mod == Mod.shiro
    then record { pool_slot_id = id; cell = cell; force_mod = none } ∷ []
    else elim (placement_force_mod slot.slot_mod (zone_or_unset (zone_at cell))) [
      | ok force ↦ record { pool_slot_id = id; cell = cell; force_mod = force } ∷ []
      | err _ ↦ []
    ]

unfoldable pub slot_placements : Map Text PoolSlot → List Cell → Text → List PlacementOption
slot_placements pool cells id = flat_map (placement_at id (get_or id pool zero_slot)) cells

abbrev is_nil {ℓ} : {A : Type ℓ} → List A → Bool
is_nil [] = true
is_nil (_ ∷ _) = false

unfoldable pub analyze : State → Analysis
analyze s =
    let ids = sort_texts (selectable_ids s.pool_slots) in
    let cells = empty_cells s.board in
    let placements = flat_map (slot_placements s.pool_slots cells) ids in
    record {
      selectable_pool_slot_ids = ids;
      empty_cells = cells;
      legal_cells_by_pool_slot =
          map (λ id. (id, map PlacementOption.cell (slot_placements s.pool_slots cells id))) ids;
      legal_placements = placements;
      won_counts = won_count s.board;
      stalemate = is_nil ids || is_nil placements;
    }
