-- ===== src/Placement.antt =====
-- What PlacePiece of internal/matchengine/engine.go does to the field and the pool, seen as maps.
use rct_hub_backend.Base.{
  ◌≡◌, true, false, none, some, ◌==◌, Text, List, Option, lookup, lookup-insert, text_Eq, arith, ap,
  ◌∙◌, if◌then◌else◌,
}
use rct_hub_backend.Model.Kinds.{PoolSlotState, Outcome, ForceMod, Zone}
use rct_hub_backend.Model.Errors.{ok}
use rct_hub_backend.Model.Timer.{Time}
use rct_hub_backend.Model.State.{State, Actor, Cell, PoolSlot, Board}
use rct_hub_backend.Model.Events.{Event}
use rct_hub_backend.Board.{piece_at, place, empty, zone_at, contains_piece_id}
use rct_hub_backend.Engine.Rules.{placement_force_mod}
use rct_hub_backend.Engine.Play.{place_piece, set_slot}

empty-none : (b : Board) (cell : Cell) → empty b cell ≡ true → lookup cell b ≡ none
unfolding empty
empty-none b cell h = ground arith

module _ (s : State) (actor : Actor) (now : Time) (id piece : Text) (cell : Cell)
    {r : State × List Event} where
  place_piece-parts :
      place_piece s actor id piece cell now ≡ ok r
      → (slot : PoolSlot) × (lookup id s.pool_slots ≡ some slot)
        × (zone : Zone) × (zone_at cell ≡ some zone)
        × (force : Option ForceMod) × (placement_force_mod slot.slot_mod zone ≡ ok force)
        × (slot.state ≡ PoolSlotState.available)
        × (contains_piece_id piece s.board ≡ false)
        × (empty s.board cell ≡ true)
        × (r.0.pool_slots ≡ set_slot slot PoolSlotState.selected s.pool_slots)
        × (r.0.board
            ≡ place cell
                (record {
                  id = piece;
                  source_pool_slot_id = slot.id;
                  piece_mod = slot.slot_mod;
                  force_mod = force;
                  selected_by = s.active_team;
                  owner = none;
                  outcome = Outcome.waiting_result;
                })
                s.board)
  unfolding place_piece
  place_piece-parts h = ground arith

  -- An accepted PlacePiece takes an available slot of the pool whose mod the zone of the cell
  -- admits, an id that no piece has and a cell that is on the field and holds nothing; afterwards
  -- the cell holds a piece of that slot that waits for its result, with the forced mod of the zone,
  -- every other cell holds what it held, the slot is selected, and every other key of the pool leads
  -- to what it led to.
  pub place_piece-piece_at :
      place_piece s actor id piece cell now ≡ ok r
      → (slot : PoolSlot) × (lookup id s.pool_slots ≡ some slot)
        × (slot.state ≡ PoolSlotState.available)
        × (zone : Zone) × (zone_at cell ≡ some zone)
        × (force : Option ForceMod) × (placement_force_mod slot.slot_mod zone ≡ ok force)
        × (contains_piece_id piece s.board ≡ false)
        × (piece_at s.board cell ≡ none)
        × ((other : Cell)
            → piece_at r.0.board other ≡ (
                if cell == other
                then some (record {
                  id = piece;
                  source_pool_slot_id = slot.id;
                  piece_mod = slot.slot_mod;
                  force_mod = force;
                  selected_by = s.active_team;
                  owner = none;
                  outcome = Outcome.waiting_result;
                })
                else piece_at s.board other))
        × ((key : Text)
            → lookup key r.0.pool_slots ≡ (
                if slot.id == key
                then some (record slot { state = PoolSlotState.selected })
                else lookup key s.pool_slots))
  unfolding piece_at place set_slot
  place_piece-piece_at h =
      let (slot, found, zone, on_field, force, admitted, available, new, free, pool, board) =
        place_piece-parts h in
      (
        slot,
        found,
        available,
        zone,
        on_field,
        force,
        admitted,
        new,
        empty-none s.board cell free,
        λ other. ap (λ b. lookup other b) board ∙ lookup-insert cell other _ s.board,
        λ key. ap (λ m. lookup key m) pool ∙ lookup-insert slot.id key _ s.pool_slots,
      )
