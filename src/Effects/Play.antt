-- ===== src/Effects/Play.antt =====
-- The play commands.
use rct_hub_backend.Base.{
  ◌≡◌, List, [], Text, some, lookup, insert, true, arith, text_Eq, none, ◌||◌, if◌then◌else◌,
}
use rct_hub_backend.Base.Int.{inc64}
use rct_hub_backend.Model.Kinds.{
  TeamSide, Lifecycle, Phase, Mod, PoolSlotState, Outcome, team_side_Eq,
}
use rct_hub_backend.Model.Errors.{ok}
use rct_hub_backend.Model.Timer.{Time, running_timer}
use rct_hub_backend.Model.State.{
  State, Actor, Cell, PoolSlot, BoardPiece, Board, first_ban_turn, side_valid,
}
use rct_hub_backend.Model.Events.{Event}
use rct_hub_backend.Board.{set_owner, place, piece_by_id}
use rct_hub_backend.Engine.Rules.{pick_team}
use rct_hub_backend.Engine.Terminal.{enter_pick_or_terminal, advance_ban}
use rct_hub_backend.Engine.Robbery.{
  target_is_shiro, target_is_opponent, flatten_sacrifice_sets, board_after_robbery,
}
use rct_hub_backend.Engine.Play.{
  start_match, ban_pool_slot, place_piece, place_shiro, rob_piece, confirm_beatmap_result, set_slot,
  find_shiro, after_robbery, after_result,
}

module _ (s : State) (actor : Actor) (now : Time) {r : State × List Event} where
  pub start_match-effect :
      start_match s actor now ≡ ok r
      → r.0 ≡ record s {
        lifecycle = Lifecycle.running;
        phase = Phase.ban;
        turn = first_ban_turn;
        active_team = s.first_ban;
        timer = running_timer now s.timers.ban;
      }
  unfolding start_match
  start_match-effect h = ground arith

  pub ban_pool_slot-effect :
      (id : Text)
      → ban_pool_slot s actor id now ≡ ok r
      → (slot : PoolSlot) × (lookup id s.pool_slots ≡ some slot)
        × (r.0
            ≡ (advance_ban
                (record s { pool_slots = set_slot slot PoolSlotState.banned s.pool_slots })
                now).0)
  unfolding ban_pool_slot
  ban_pool_slot-effect id h = ground arith

  pub place_piece-effect :
      (id piece : Text) (cell : Cell)
      → place_piece s actor id piece cell now ≡ ok r
      → r.0 ≡ record s {
        board = r.0.board;
        pool_slots = r.0.pool_slots;
        phase = Phase.waiting_for_result;
        pending_piece_id = piece;
        timer = running_timer now s.timers.result_confirmation;
      }
  unfolding place_piece
  place_piece-effect id piece cell h = ground arith

  pub place_shiro-effect :
      (piece : Text) (cell : Cell)
      → place_shiro s actor piece cell now ≡ ok r
      → (shiro : PoolSlot) × (find_shiro s.pool_slots ≡ some shiro)
        × (r.0
            ≡ (enter_pick_or_terminal
                (record s {
                  board =
                      place cell
                        (record {
                          id = piece;
                          source_pool_slot_id = shiro.id;
                          piece_mod = Mod.shiro;
                          force_mod = none;
                          selected_by = s.active_team;
                          owner = none;
                          outcome = Outcome.white;
                        })
                        s.board;
                  pool_slots = set_slot shiro PoolSlotState.selected s.pool_slots;
                  turn = inc64 s.turn;
                  active_team = pick_team s.first_pick (inc64 s.turn);
                })
                now).0)
  unfolding place_shiro
  place_shiro-effect piece cell h = ground arith

  pub rob_piece-effect :
      (target : Text) (sets : List (List Text))
      → rob_piece s actor target sets now ≡ ok r
      → (found : Cell × BoardPiece) × (piece_by_id target s.board ≡ some found)
        × (target_is_shiro found.1 || target_is_opponent s.active_team found.1 ≡ true)
        × (ids : List Text) × (flatten_sacrifice_sets sets ≡ some ids)
        × (board : Board) × (board_after_robbery s.board s.active_team found.1.id ids
              (if target_is_shiro found.1 then 2 else 3)
            ≡ some board)
        × (r.0
            ≡ (after_robbery
                (record s {
                  board = board;
                  robbery_used = insert s.active_team true s.robbery_used;
                })
                s.active_team
                now).0)
  unfolding rob_piece
  rob_piece-effect target sets h = ground arith

  pub confirm_beatmap_result-effect :
      (piece : Text) (team : TeamSide)
      → confirm_beatmap_result s actor piece team now ≡ ok r
      → (side_valid team ≡ true)
        × (board : Board) × (set_owner piece team s.board ≡ some board)
        × (r.0 ≡ (after_result (record s { board = board; pending_piece_id = [] }) team now).0)
  unfolding confirm_beatmap_result
  confirm_beatmap_result-effect piece team h = ground arith
