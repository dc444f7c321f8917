-- ===== src/Access/Commands.antt =====
-- Each handler of internal/matchengine/engine.go checks what the tables ask for.
use rct_hub_backend.Base.{◌≡◌, Bool, List, Text, arith}
use rct_hub_backend.Base.Int.{ℤ}
use rct_hub_backend.Model.Kinds.{TeamSide, TbBasis}
use rct_hub_backend.Model.Errors.{ok}
use rct_hub_backend.Model.Timer.{Time}
use rct_hub_backend.Model.State.{State, Actor, Cell, PlayerId}
use rct_hub_backend.Model.Events.{Event, Command}
use rct_hub_backend.Engine.Play.{
  start_match, ban_pool_slot, place_piece, place_shiro, rob_piece, confirm_beatmap_result,
}
use rct_hub_backend.Engine.Clock.{
  grant_additional_time, calibrate_timer, pause_timer, resume_timer, suspend_match, resume_match,
  skip_current_action, abort_match,
}
use rct_hub_backend.Engine.Tiebreak.{
  request_tb, respond_tb_request, start_tb, confirm_tb_result, record_surrender,
}
use rct_hub_backend.Access.Tables.{IsAllowed}

module _ (s : State) (actor : Actor) (now : Time) {r : State × List Event} where
  pub start_match-IsAllowed :
      start_match s actor now ≡ ok r → IsAllowed s actor Command.start_match now
  unfolding start_match
  start_match-IsAllowed h = ground arith

  pub ban_pool_slot-IsAllowed :
      (slot : Text)
      → ban_pool_slot s actor slot now ≡ ok r
      → IsAllowed s actor (Command.ban_pool_slot slot) now
  unfolding ban_pool_slot
  ban_pool_slot-IsAllowed slot h = ground arith

  pub place_piece-IsAllowed :
      (slot piece : Text) (cell : Cell)
      → place_piece s actor slot piece cell now ≡ ok r
      → IsAllowed s actor (Command.place_piece slot piece cell) now
  unfolding place_piece
  place_piece-IsAllowed slot piece cell h = ground arith

  pub place_shiro-IsAllowed :
      (piece : Text) (cell : Cell)
      → place_shiro s actor piece cell now ≡ ok r
      → IsAllowed s actor (Command.place_shiro piece cell) now
  unfolding place_shiro
  place_shiro-IsAllowed piece cell h = ground arith

  pub rob_piece-IsAllowed :
      (target : Text) (sets : List (List Text))
      → rob_piece s actor target sets now ≡ ok r
      → IsAllowed s actor (Command.rob_piece target sets) now
  unfolding rob_piece
  rob_piece-IsAllowed target sets h = ground arith

  pub confirm_beatmap_result-IsAllowed :
      (piece : Text) (team : TeamSide)
      → confirm_beatmap_result s actor piece team now ≡ ok r
      → IsAllowed s actor (Command.confirm_beatmap_result piece team) now
  unfolding confirm_beatmap_result
  confirm_beatmap_result-IsAllowed piece team h = ground arith

  pub grant_additional_time-IsAllowed :
      (reason : Text)
      → grant_additional_time s actor reason now ≡ ok r
      → IsAllowed s actor (Command.grant_additional_time reason) now
  unfolding grant_additional_time
  grant_additional_time-IsAllowed reason h = ground arith

  pub calibrate_timer-IsAllowed :
      (left : ℤ) (reason : Text)
      → calibrate_timer s actor left reason now ≡ ok r
      → IsAllowed s actor (Command.calibrate_timer left reason) now
  unfolding calibrate_timer
  calibrate_timer-IsAllowed left reason h = ground arith

  pub pause_timer-IsAllowed :
      (reason : Text)
      → pause_timer s actor reason now ≡ ok r
      → IsAllowed s actor (Command.pause_timer reason) now
  unfolding pause_timer
  pause_timer-IsAllowed reason h = ground arith

  pub resume_timer-IsAllowed :
      (reason : Text)
      → resume_timer s actor reason now ≡ ok r
      → IsAllowed s actor (Command.resume_timer reason) now
  unfolding resume_timer
  resume_timer-IsAllowed reason h = ground arith

  pub suspend_match-IsAllowed :
      (reason : Text)
      → suspend_match s actor reason now ≡ ok r
      → IsAllowed s actor (Command.suspend_match reason) now
  unfolding suspend_match
  suspend_match-IsAllowed reason h = ground arith

  pub resume_match-IsAllowed :
      (reason : Text)
      → resume_match s actor reason now ≡ ok r
      → IsAllowed s actor (Command.resume_match reason) now
  unfolding resume_match
  resume_match-IsAllowed reason h = ground arith

  pub skip_current_action-IsAllowed :
      (reason : Text)
      → skip_current_action s actor reason now ≡ ok r
      → IsAllowed s actor (Command.skip_current_action reason) now
  unfolding skip_current_action
  skip_current_action-IsAllowed reason h = ground arith

  pub abort_match-IsAllowed :
      (reason : Text)
      → abort_match s actor reason ≡ ok r
      → IsAllowed s actor (Command.abort_match reason) now
  unfolding abort_match
  abort_match-IsAllowed reason h = ground arith

  pub request_tb-IsAllowed :
      (id : Text) (basis : TbBasis)
      → request_tb s actor id basis ≡ ok r
      → IsAllowed s actor (Command.request_tb id basis) now
  unfolding request_tb
  request_tb-IsAllowed id basis h = ground arith

  pub respond_tb_request-IsAllowed :
      (id : Text) (accept : Bool)
      → respond_tb_request s actor id accept now ≡ ok r
      → IsAllowed s actor (Command.respond_tb_request id accept) now
  unfolding respond_tb_request
  respond_tb_request-IsAllowed id accept h = ground arith

  pub start_tb-IsAllowed :
      (reason : Text)
      → start_tb s actor reason now ≡ ok r
      → IsAllowed s actor (Command.start_tb reason) now
  unfolding start_tb
  start_tb-IsAllowed reason h = ground arith

  pub confirm_tb_result-IsAllowed :
      (team : TeamSide)
      → confirm_tb_result s actor team ≡ ok r
      → IsAllowed s actor (Command.confirm_tb_result team) now
  unfolding confirm_tb_result
  confirm_tb_result-IsAllowed team h = ground arith

  pub record_surrender-IsAllowed :
      (team : TeamSide) (ids : List PlayerId) (reason : Text)
      → record_surrender s actor team ids reason ≡ ok r
      → IsAllowed s actor (Command.record_surrender team ids reason) now
  unfolding record_surrender
  record_surrender-IsAllowed team ids reason h = ground arith
