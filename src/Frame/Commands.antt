-- ===== src/Frame/Commands.antt =====
-- Every handler of internal/matchengine/engine.go makes a step that keeps the frozen fields.
use rct_hub_backend.Base.{
  ◌≡◌, inl, inr, sym, subst, insert, Bool, List, Text, true, arith, none, [], ◌==◌,
}
use rct_hub_backend.Base.Int.{ℤ}
use rct_hub_backend.Model.Kinds.{TeamSide, Lifecycle, TbBasis, team_side_Eq, lifecycle_Eq}
use rct_hub_backend.Model.Errors.{ok}
use rct_hub_backend.Model.Timer.{Time}
use rct_hub_backend.Model.State.{State, Actor, Cell, PlayerId}
use rct_hub_backend.Model.Events.{Event}
use rct_hub_backend.Engine.Terminal.{finish_match}
use rct_hub_backend.Engine.Play.{
  start_match, ban_pool_slot, place_piece, place_shiro, rob_piece, confirm_beatmap_result,
}
use rct_hub_backend.Engine.Clock.{
  grant_additional_time, calibrate_timer, pause_timer, resume_timer, suspend_match, resume_match,
  skip_current_action, abort_match, skip_turn,
}
use rct_hub_backend.Engine.Tiebreak.{
  request_tb, respond_tb_request, start_tb, confirm_tb_result, record_surrender,
}
use rct_hub_backend.Effects
use rct_hub_backend.Frame.Defs.{IsStep}
use rct_hub_backend.Frame.Terminal

module _ (s : State) (actor : Actor) (now : Time) {r : State × List Event} where
  pub start_match-IsStep : start_match s actor now ≡ ok r → IsStep s r.0
  start_match-IsStep h =
      subst (IsStep s) (sym (Effects.start_match-effect s actor now h)) (ground (arith))

  pub ban_pool_slot-IsStep : (slot : Text) → ban_pool_slot s actor slot now ≡ ok r → IsStep s r.0
  ban_pool_slot-IsStep slot h =
      let (_, _, e) = Effects.ban_pool_slot-effect s actor now slot h in
      subst (IsStep s) (sym e) (Terminal.ban-IsStep s now _)

  pub place_piece-IsStep :
      (slot piece : Text) (cell : Cell)
      → place_piece s actor slot piece cell now ≡ ok r
      → IsStep s r.0
  place_piece-IsStep slot piece cell h =
      subst (IsStep s) (sym (Effects.place_piece-effect s actor now slot piece cell h))
        (ground (arith))

  pub place_shiro-IsStep :
      (piece : Text) (cell : Cell) → place_shiro s actor piece cell now ≡ ok r → IsStep s r.0
  place_shiro-IsStep piece cell h =
      let (_, _, e) = Effects.place_shiro-effect s actor now piece cell h in
      subst (IsStep s) (sym e) (Terminal.shiro-IsStep s now _ _)

  pub rob_piece-IsStep :
      (target : Text) (sets : List (List Text))
      → rob_piece s actor target sets now ≡ ok r
      → IsStep s r.0
  rob_piece-IsStep target sets h =
      let (_, _, _, _, _, board, _, e) = Effects.rob_piece-effect s actor now target sets h in
      subst (IsStep s) (sym e) (
        ground (
          arith,
          Terminal.after_robbery-IsStill
              (record s { board = board; robbery_used = insert s.active_team true s.robbery_used })
              now s.active_team,
        ))

  pub confirm_beatmap_result-IsStep :
      (piece : Text) (team : TeamSide)
      → confirm_beatmap_result s actor piece team now ≡ ok r
      → IsStep s r.0
  confirm_beatmap_result-IsStep piece team h =
      let (_, board, _, e) = Effects.confirm_beatmap_result-effect s actor now piece team h in
      subst (IsStep s) (sym e) (
        ground (
          arith,
          Terminal.after_result-IsStep (record s { board = board; pending_piece_id = [] }) now team,
        ))

  pub grant_additional_time-IsStep :
      (reason : Text) → grant_additional_time s actor reason now ≡ ok r → IsStep s r.0
  grant_additional_time-IsStep reason h =
      subst (IsStep s) (sym (Effects.grant_additional_time-effect s actor now reason h))
        (ground (arith))

  pub calibrate_timer-IsStep :
      (left : ℤ) (reason : Text) → calibrate_timer s actor left reason now ≡ ok r → IsStep s r.0
  calibrate_timer-IsStep left reason h =
      subst (IsStep s) (sym (Effects.calibrate_timer-effect s actor now reason left h))
        (ground (arith))

  pub pause_timer-IsStep : (reason : Text) → pause_timer s actor reason now ≡ ok r → IsStep s r.0
  pause_timer-IsStep reason h =
      subst (IsStep s) (sym (Effects.pause_timer-effect s actor now reason h)) (ground (arith))

  pub resume_timer-IsStep : (reason : Text) → resume_timer s actor reason now ≡ ok r → IsStep s r.0
  resume_timer-IsStep reason h =
      subst (IsStep s) (sym (Effects.resume_timer-effect s actor now reason h)) (ground (arith))

  pub suspend_match-IsStep :
      (reason : Text) → suspend_match s actor reason now ≡ ok r → IsStep s r.0
  suspend_match-IsStep reason h =
      let (e, _, _) = Effects.suspend_match-effect s actor now reason h in
      subst (IsStep s) (sym e) (ground (arith))

  pub resume_match-IsStep : (reason : Text) → resume_match s actor reason now ≡ ok r → IsStep s r.0
  resume_match-IsStep reason h =
      subst (IsStep s) (sym (Effects.resume_match-effect s actor now reason h)) (ground (arith))

  pub skip_current_action-IsStep :
      (reason : Text) → skip_current_action s actor reason now ≡ ok r → IsStep s r.0
  skip_current_action-IsStep reason h =
      let running : State = record s { lifecycle = Lifecycle.running; suspension = none } in
      subst (IsStep s) (sym (Effects.skip_current_action-effect s actor now reason h)) (
        ground (
          arith,
          Terminal.skip_turn-IsStep running now,
          Terminal.suspend_again-IsStill (s.lifecycle == Lifecycle.suspended)
              (skip_turn running now).0 reason now,
        ))

  pub abort_match-IsStep : (reason : Text) → abort_match s actor reason ≡ ok r → IsStep s r.0
  abort_match-IsStep reason h =
      let (_, e) = Effects.abort_match-effect s actor now reason h in
      subst (IsStep s) (sym e) (ground (arith))

  pub request_tb-IsStep :
      (id : Text) (basis : TbBasis) → request_tb s actor id basis ≡ ok r → IsStep s r.0
  request_tb-IsStep id basis h =
      subst (IsStep s) (sym (Effects.request_tb-effect s actor id basis h)) (ground (arith))

  pub respond_tb_request-IsStep :
      (id : Text) (accept : Bool) → respond_tb_request s actor id accept now ≡ ok r → IsStep s r.0
  respond_tb_request-IsStep id accept h =
      elim (Effects.respond_tb_request-effect s actor id accept now h) [
        | inl e ↦ subst (IsStep s) (sym e) (ground arith)
        | inr e ↦ subst (IsStep s) (sym e) (ground arith)
      ]

  pub start_tb-IsStep : (reason : Text) → start_tb s actor reason now ≡ ok r → IsStep s r.0
  start_tb-IsStep reason h =
      subst (IsStep s) (sym (Effects.start_tb-effect s actor reason now h)) (ground (arith))

  pub confirm_tb_result-IsStep :
      (team : TeamSide) → confirm_tb_result s actor team ≡ ok r → IsStep s r.0
  unfolding finish_match
  confirm_tb_result-IsStep team h =
      let (_, e) = Effects.confirm_tb_result-effect s actor team h in
      subst (IsStep s) (sym e) (ground (arith))

  pub record_surrender-IsStep :
      (team : TeamSide) (ids : List PlayerId) (reason : Text)
      → record_surrender s actor team ids reason ≡ ok r
      → IsStep s r.0
  unfolding finish_match
  record_surrender-IsStep team ids reason h =
      let (_, _, e) = Effects.record_surrender-effect s actor team ids reason h in
      subst (IsStep s) (sym e) (ground (arith))
