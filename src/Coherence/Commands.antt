-- ===== src/Coherence/Commands.antt =====
-- Every accepted command of a coherent match leads to a coherent, started match.
use rct_hub_backend.Base.{
  ◌≡◌, ◌≢◌, ◌⊎◌, inl, inr, refl, sym, Bool, true, false, List, Text, arith, is_blank, is_empty,
  none, [], subst, insert,
}
use rct_hub_backend.Base.Int.{ℤ, pos, max_int64}
use rct_hub_backend.Model.Kinds.{TeamSide, Lifecycle, TbBasis, team_side_Eq}
use rct_hub_backend.Model.Errors.{ok}
use rct_hub_backend.Model.Timer.{Time}
use rct_hub_backend.Model.State.{State, Actor, Cell, PlayerId, side_valid, opponent}
use rct_hub_backend.Engine.Terminal.{finish_match}
use rct_hub_backend.Model.Events.{Event}
use rct_hub_backend.Engine.Rules.{missing_reason}
use rct_hub_backend.Engine.Play.{
  start_match, ban_pool_slot, place_piece, place_shiro, rob_piece, confirm_beatmap_result,
}
use rct_hub_backend.Engine.Clock.{
  grant_additional_time, calibrate_timer, pause_timer, resume_timer, suspend_match, resume_match,
  skip_current_action, abort_match,
}
use rct_hub_backend.Engine.Tiebreak.{
  request_tb, respond_tb_request, start_tb, confirm_tb_result, record_surrender,
}
use rct_hub_backend.Validation.{valid_lifecycle_data}
use rct_hub_backend.Access.Commands
use rct_hub_backend.Effects
use rct_hub_backend.Coherence.Defs.{
  IsCoherent, IsStarted, IsRunning, IsCoherent-IsRunning, IsRunning-IsStarted,
}
use rct_hub_backend.Coherence.Steps

is_empty_of_missing : (t : Text) → missing_reason t ≡ false → is_empty t ≡ false
unfolding missing_reason is_blank
is_empty_of_missing t h = ground arith

opponent_valid : (team : TeamSide) → side_valid (opponent team) ≡ true
opponent_valid team = ground arith

-- A match that runs, or will once its suspension is lifted.
lift : (s : State) → State
lift s = record s { lifecycle = Lifecycle.running; suspension = none }

lift-IsRunning :
    (s : State)
    → IsCoherent s
    → (s.lifecycle ≡ Lifecycle.running) ⊎ (s.lifecycle ≡ Lifecycle.suspended)
    → IsRunning (lift s)
unfolding lift valid_lifecycle_data
lift-IsRunning s c (inl h) = ground arith
lift-IsRunning s c (inr h) = ground arith

module _ (s : State) (actor : Actor) (now : Time) {r : State × List Event} (c : IsCoherent s) where
  pub start_match-IsStarted : start_match s actor now ≡ ok r → IsStarted r.0
  unfolding valid_lifecycle_data
  start_match-IsStarted h =
      rw (Effects.start_match-effect s actor now h)
        (let a = Commands.start_match-IsAllowed s actor now h in ground (arith, a, c))

  pub ban_pool_slot-IsStarted :
      (slot : Text) → ban_pool_slot s actor slot now ≡ ok r → IsStarted r.0
  ban_pool_slot-IsStarted slot h =
      let a = Commands.ban_pool_slot-IsAllowed s actor now slot h in
      let run = IsCoherent-IsRunning s c (ground (arith, a)) in
      let (_, _, e) = Effects.ban_pool_slot-effect s actor now slot h in
      subst IsStarted (sym e) (Steps.ban-IsStarted s now run _ (ground (arith, a)))

  pub place_piece-IsStarted :
      (slot piece : Text) (cell : Cell)
      → place_piece s actor slot piece cell now ≡ ok r
      → IsStarted r.0
  place_piece-IsStarted slot piece cell h =
      let a = Commands.place_piece-IsAllowed s actor now slot piece cell h in
      let run = IsCoherent-IsRunning s c (ground (arith, a)) in
      subst IsStarted (sym (Effects.place_piece-effect s actor now slot piece cell h))
        (IsRunning-IsStarted _ (ground (arith, run, a)))

  pub place_shiro-IsStarted :
      (piece : Text) (cell : Cell)
      → s.turn ≢ pos max_int64
      → place_shiro s actor piece cell now ≡ ok r
      → IsStarted r.0
  place_shiro-IsStarted piece cell fits h =
      let a = Commands.place_shiro-IsAllowed s actor now piece cell h in
      let run = IsCoherent-IsRunning s c (ground (arith, a)) in
      let (_, _, e) = Effects.place_shiro-effect s actor now piece cell h in
      subst IsStarted (sym e) (Steps.place_shiro-IsStarted s now run _ _ fits (ground (arith, a)))

  pub rob_piece-IsStarted :
      (target : Text) (sets : List (List Text))
      → rob_piece s actor target sets now ≡ ok r
      → IsStarted r.0
  rob_piece-IsStarted target sets h =
      let a = Commands.rob_piece-IsAllowed s actor now target sets h in
      let run = IsCoherent-IsRunning s c (ground (arith, a)) in
      let (_, _, _, _, _, board, _, e) = Effects.rob_piece-effect s actor now target sets h in
      let robbed : State = record s {
        board = board;
        robbery_used = insert s.active_team true s.robbery_used;
      } in
      let run' : IsRunning robbed = ground (arith, run) in
      subst IsStarted (sym e) (Steps.after_robbery-IsStarted robbed now run' (ground (arith, a)))

  pub confirm_beatmap_result-IsStarted :
      (piece : Text) (team : TeamSide)
      → s.turn ≢ pos max_int64
      → confirm_beatmap_result s actor piece team now ≡ ok r
      → IsStarted r.0
  confirm_beatmap_result-IsStarted piece team fits h =
      let a = Commands.confirm_beatmap_result-IsAllowed s actor now piece team h in
      let run = IsCoherent-IsRunning s c (ground (arith, a)) in
      let (v, board, _, e) = Effects.confirm_beatmap_result-effect s actor now piece team h in
      let owned : State = record s { board = board; pending_piece_id = [] } in
      let run' : IsRunning owned = ground (arith, run) in
      subst IsStarted (sym e)
        (Steps.after_result-IsStarted owned now run' team fits (ground (arith, a)) v)

  pub grant_additional_time-IsStarted :
      (reason : Text) → grant_additional_time s actor reason now ≡ ok r → IsStarted r.0
  grant_additional_time-IsStarted reason h =
      let a = Commands.grant_additional_time-IsAllowed s actor now reason h in
      let run = IsCoherent-IsRunning s c (ground (arith, a)) in
      subst IsStarted (sym (Effects.grant_additional_time-effect s actor now reason h))
        (IsRunning-IsStarted _ (ground (arith, run, a)))

  pub calibrate_timer-IsStarted :
      (left : ℤ) (reason : Text) → calibrate_timer s actor left reason now ≡ ok r → IsStarted r.0
  calibrate_timer-IsStarted left reason h =
      let a = Commands.calibrate_timer-IsAllowed s actor now left reason h in
      let run = IsCoherent-IsRunning s c (ground (arith, a)) in
      subst IsStarted (sym (Effects.calibrate_timer-effect s actor now reason left h))
        (IsRunning-IsStarted _ (ground (arith, run, a)))

  pub pause_timer-IsStarted :
      (reason : Text) → pause_timer s actor reason now ≡ ok r → IsStarted r.0
  pause_timer-IsStarted reason h =
      let a = Commands.pause_timer-IsAllowed s actor now reason h in
      let run = IsCoherent-IsRunning s c (ground (arith, a)) in
      subst IsStarted (sym (Effects.pause_timer-effect s actor now reason h))
        (IsRunning-IsStarted _ (ground (arith, run, a)))

  pub resume_timer-IsStarted :
      (reason : Text) → resume_timer s actor reason now ≡ ok r → IsStarted r.0
  resume_timer-IsStarted reason h =
      let a = Commands.resume_timer-IsAllowed s actor now reason h in
      let run = IsCoherent-IsRunning s c (ground (arith, a)) in
      subst IsStarted (sym (Effects.resume_timer-effect s actor now reason h))
        (IsRunning-IsStarted _ (ground (arith, run, a)))

  pub suspend_match-IsStarted :
      (reason : Text) → suspend_match s actor reason now ≡ ok r → IsStarted r.0
  unfolding valid_lifecycle_data
  suspend_match-IsStarted reason h =
      let a = Commands.suspend_match-IsAllowed s actor now reason h in
      let run = IsCoherent-IsRunning s c (ground (arith, a)) in
      let (e, paused, same) = Effects.suspend_match-effect s actor now reason h in
      subst IsStarted (sym e) (ground (arith, run, paused, same))

  pub resume_match-IsStarted :
      (reason : Text) → resume_match s actor reason now ≡ ok r → IsStarted r.0
  resume_match-IsStarted reason h =
      let a = Commands.resume_match-IsAllowed s actor now reason h in
      let run = lift-IsRunning s c (inr (ground (arith, a))) in
      subst IsStarted (sym (Effects.resume_match-effect s actor now reason h))
        (IsRunning-IsStarted _ (unfold lift in ground (arith, run)))

  pub skip_current_action-IsStarted :
      (reason : Text)
      → s.turn ≢ pos max_int64
      → skip_current_action s actor reason now ≡ ok r
      → IsStarted r.0
  unfolding lift
  skip_current_action-IsStarted reason fits h =
      let a = Commands.skip_current_action-IsAllowed s actor now reason h in
      let run = lift-IsRunning s c (ground (arith, a)) in
      subst IsStarted (sym (Effects.skip_current_action-effect s actor now reason h)) (
        Steps.suspend_again-IsStarted _ _ reason now
          (Steps.skip_turn-IsStarted (lift s) now run fits (ground (arith, a))))

  pub abort_match-IsStarted : (reason : Text) → abort_match s actor reason ≡ ok r → IsStarted r.0
  unfolding lift
  abort_match-IsStarted reason h =
      let a = Commands.abort_match-IsAllowed s actor now reason h in
      let run = lift-IsRunning s c (ground (arith, a)) in
      let (given, e) = Effects.abort_match-effect s actor now reason h in
      subst IsStarted (sym e)
        (Steps.abort-IsStarted (lift s) now run reason (is_empty_of_missing reason given))

  pub request_tb-IsStarted :
      (id : Text) (basis : TbBasis) → request_tb s actor id basis ≡ ok r → IsStarted r.0
  request_tb-IsStarted id basis h =
      let a = Commands.request_tb-IsAllowed s actor now id basis h in
      let run = IsCoherent-IsRunning s c (ground (arith, a)) in
      subst IsStarted (sym (Effects.request_tb-effect s actor id basis h))
        (IsRunning-IsStarted _ (ground (arith, run)))

  pub respond_tb_request-IsStarted :
      (id : Text) (accept : Bool) → respond_tb_request s actor id accept now ≡ ok r → IsStarted r.0
  respond_tb_request-IsStarted id accept h =
      let a = Commands.respond_tb_request-IsAllowed s actor now id accept h in
      let run = IsCoherent-IsRunning s c (ground (arith, a)) in
      elim (Effects.respond_tb_request-effect s actor id accept now h) [
        | inl e ↦ subst IsStarted (sym e) (IsRunning-IsStarted _ (ground (arith, run)))
        | inr e ↦ subst IsStarted (sym e) (IsRunning-IsStarted _ (ground (arith, run, a)))
      ]

  pub start_tb-IsStarted : (reason : Text) → start_tb s actor reason now ≡ ok r → IsStarted r.0
  start_tb-IsStarted reason h =
      let a = Commands.start_tb-IsAllowed s actor now reason h in
      let run = IsCoherent-IsRunning s c (ground (arith, a)) in
      subst IsStarted (sym (Effects.start_tb-effect s actor reason now h))
        (IsRunning-IsStarted _ (ground (arith, run, a)))

  pub confirm_tb_result-IsStarted :
      (team : TeamSide) → confirm_tb_result s actor team ≡ ok r → IsStarted r.0
  confirm_tb_result-IsStarted team h =
      let a = Commands.confirm_tb_result-IsAllowed s actor now team h in
      let run = IsCoherent-IsRunning s c (ground (arith, a)) in
      let (v, e) = Effects.confirm_tb_result-effect s actor team h in
      subst IsStarted (sym e) (Steps.finish_match-IsStarted s now run team _ v refl)

  pub record_surrender-IsStarted :
      (team : TeamSide) (ids : List PlayerId) (reason : Text)
      → record_surrender s actor team ids reason ≡ ok r
      → IsStarted r.0
  unfolding lift finish_match
  record_surrender-IsStarted team ids reason h =
      let a = Commands.record_surrender-IsAllowed s actor now team ids reason h in
      let run = lift-IsRunning s c (ground (arith, a)) in
      let (_, _, e) = Effects.record_surrender-effect s actor team ids reason h in
      subst IsStarted (sym e)
        (Steps.finish_match-IsStarted (lift s) now run (opponent team) _ (opponent_valid team) refl)
