-- ===== src/Model/Events.antt =====
-- The commands and events of internal/matchengine/model.go. A command's arguments stand in the order
-- of its struct's fields.
use rct_hub_backend.Base.{Bool, Text, List, []}
use rct_hub_backend.Base.Int.{pos}
use rct_hub_backend.Model.Kinds.{TeamSide, TbBasis}
use rct_hub_backend.Model.Timer.{Duration}
use rct_hub_backend.Model.State.{Cell, PlayerId, State}

pub data Command : Type 0 where
  start_match : Command
  ban_pool_slot : (pool_slot_id : Text) → Command
  referee_ban_pool_slot : (acting_team : TeamSide) (pool_slot_id reason : Text) → Command
  place_piece : (pool_slot_id piece_id : Text) (cell : Cell) → Command
  referee_place_piece :
      (acting_team : TeamSide) (pool_slot_id piece_id : Text) (cell : Cell) (reason : Text)
      → Command
  place_shiro : (piece_id : Text) (cell : Cell) → Command
  referee_place_shiro :
      (acting_team : TeamSide) (piece_id : Text) (cell : Cell) (reason : Text) → Command
  rob_piece : (target_piece_id : Text) (sacrifice_sets : List (List Text)) → Command
  referee_rob_piece :
      (acting_team : TeamSide) (target_piece_id : Text) (sacrifice_sets : List (List Text))
      (reason : Text)
      → Command
  grant_additional_time : (reason : Text) → Command
  calibrate_timer : (remaining : Duration) (reason : Text) → Command
  pause_timer resume_timer suspend_match resume_match skip_current_action abort_match :
      (reason : Text) → Command
  request_tb : (request_id : Text) (basis : TbBasis) → Command
  referee_request_tb :
      (acting_team : TeamSide) (request_id : Text) (basis : TbBasis) (reason : Text) → Command
  respond_tb_request : (request_id : Text) (accept : Bool) → Command
  referee_respond_tb_request :
      (acting_team : TeamSide) (request_id : Text) (accept : Bool) (reason : Text) → Command
  start_tb : (reason : Text) → Command
  confirm_tb_result : (winning_team : TeamSide) → Command
  record_surrender :
      (surrendering_team : TeamSide) (confirming_player_ids : List PlayerId) (reason : Text)
      → Command
  confirm_beatmap_result : (board_piece_id : Text) (winning_team : TeamSide) → Command
  -- Any other value of the interface type, nil among them.
  unsupported : Command

pub data EventType : Type 0 where
  match_started ban_phase_started pool_slot_banned turn_advanced pick_phase_started piece_placed
        shiro_placed result_confirmation_requested beatmap_result_confirmed piece_won
        pieces_sacrificed piece_robbed additional_time_granted timer_calibrated timer_paused
        timer_resumed match_suspended match_resumed action_skipped match_aborted
        referee_proxy_action_recorded tb_requested tb_request_accepted tb_request_rejected
        tb_request_expired tb_forced tb_preparation_started tb_started tb_result_confirmed
        surrender_recorded match_finished stalemate_detected adjudication_required timer_started
        timer_stopped :
      EventType

pub record Event : Type 0 where
  pub event_type : EventType
  pub team : TeamSide
  pub pool_slot_id : Text
  pub board_piece_id : Text
  pub board_piece_ids : List Text
  pub cell : Cell
  pub duration : Duration
  pub reason : Text
  pub request_id : Text
  pub basis : TbBasis
  pub player_ids : List PlayerId

-- Event{Type: kind}
abbrev pub event : EventType → Event
event kind = record {
  event_type = kind;
  team = TeamSide.unset;
  pool_slot_id = [];
  board_piece_id = [];
  board_piece_ids = [];
  cell = [];
  duration = pos 0;
  reason = [];
  request_id = [];
  basis = TbBasis.unset;
  player_ids = [];
}

-- Event{Type: kind, Team: team}
abbrev pub team_event : EventType → TeamSide → Event
team_event kind team = record (event kind) { team = team }

-- Event{Type: kind, Reason: reason}
abbrev pub reason_event : EventType → Text → Event
reason_event kind reason = record (event kind) { reason = reason }

pub record Transition : Type 0 where
  pub state : State
  pub events : List Event
