-- ===== src/Effects/Clock.antt =====
-- The administrative commands.
use rct_hub_backend.Base.{◌≡◌, List, [], Text, some, none, false, arith, ◌==◌}
use rct_hub_backend.Base.Int.{ℤ}
use rct_hub_backend.Model.Kinds.{TeamSide, Lifecycle, Phase, lifecycle_Eq}
use rct_hub_backend.Model.Errors.{ok}
use rct_hub_backend.Model.Timer.{Time, zero_timer, pause, resume}
use rct_hub_backend.Model.State.{State, Actor}
use rct_hub_backend.Model.Events.{Event}
use rct_hub_backend.Engine.Rules.{missing_reason}
use rct_hub_backend.Engine.Clock.{
  grant_additional_time, calibrate_timer, pause_timer, resume_timer, suspend_match, resume_match,
  skip_current_action, abort_match, skip_turn, suspend_again, has_timer,
}

module _ (s : State) (actor : Actor) (now : Time) {r : State × List Event} (reason : Text) where
  pub grant_additional_time-effect :
      grant_additional_time s actor reason now ≡ ok r
      → r.0 ≡ record s { timer = r.0.timer; team_pause_used = r.0.team_pause_used }
  unfolding grant_additional_time
  grant_additional_time-effect h = ground arith

  pub calibrate_timer-effect :
      (left : ℤ)
      → calibrate_timer s actor left reason now ≡ ok r
      → r.0 ≡ record s { timer = r.0.timer }
  unfolding calibrate_timer
  calibrate_timer-effect left h = ground arith

  pub pause_timer-effect :
      pause_timer s actor reason now ≡ ok r → r.0 ≡ record s { timer = pause s.timer now }
  unfolding pause_timer
  pause_timer-effect h = ground arith

  pub resume_timer-effect :
      resume_timer s actor reason now ≡ ok r → r.0 ≡ record s { timer = resume s.timer now }
  unfolding resume_timer
  resume_timer-effect h = ground arith

  pub suspend_match-effect :
      suspend_match s actor reason now ≡ ok r
      → (r.0 ≡ record s {
        lifecycle = Lifecycle.suspended;
        suspension = some (record {
          reason = reason;
          suspended_at = now;
          had_timer = has_timer s.timer;
          timer_was_paused = s.timer.paused;
        });
        timer = r.0.timer;
      })
        × (has_timer s.timer ≡ r.0.timer.paused)
        × (has_timer s.timer ≡ has_timer r.0.timer)
  unfolding suspend_match pause
  suspend_match-effect h = ground arith

  pub resume_match-effect :
      resume_match s actor reason now ≡ ok r
      → r.0 ≡ record s { lifecycle = Lifecycle.running; suspension = none; timer = r.0.timer }
  unfolding resume_match
  resume_match-effect h = ground arith

  pub skip_current_action-effect :
      skip_current_action s actor reason now ≡ ok r
      → r.0
        ≡ (suspend_again
            (s.lifecycle == Lifecycle.suspended)
            (skip_turn (record s { lifecycle = Lifecycle.running; suspension = none }) now).0
            reason
            now).0
  unfolding skip_current_action
  skip_current_action-effect h = ground arith

  pub abort_match-effect :
      abort_match s actor reason ≡ ok r
      → (missing_reason reason ≡ false)
        × (r.0 ≡ record s {
          lifecycle = Lifecycle.aborted;
          phase = Phase.none;
          active_team = TeamSide.unset;
          pending_piece_id = [];
          pending_tb_request = none;
          suspension = none;
          timer = zero_timer;
          abort_reason = reason;
        })
  unfolding abort_match
  abort_match-effect h = ground arith
