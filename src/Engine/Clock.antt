-- ===== src/Engine/Clock.antt =====
-- The administrative commands of internal/matchengine/engine.go: timers, suspension, skip and abort.
use rct_hub_backend.Base.{
  Bool, true, false, not, ◌&&◌, ◌||◌, Text, List, [], ◌∷◌, ◌++◌, none, some, get_or, insert,
  if◌then◌else◌, ◌==◌,
}
use rct_hub_backend.Base.Int.{pos, ltb_ℤ, inc64}
use rct_hub_backend.Model.Kinds.{
  TeamSide, Lifecycle, Phase, Capability, team_side_Eq, lifecycle_Eq, phase_Eq, capability_Eq,
}
use rct_hub_backend.Model.Errors.{ErrorCode, Fallible, ok, err, ◌>>=◌, ◌>>◌, fail_if}
use rct_hub_backend.Model.Timer.{
  Time, Duration, Timer, TimerConfiguration, zero_timer, running_timer, expired, pause, resume,
}
use rct_hub_backend.Model.State.{SuspensionState, State, Actor, side_valid}
use rct_hub_backend.Model.Events.{EventType, Event, event, team_event, reason_event}
use rct_hub_backend.Engine.Rules.{Step, missing_reason, pick_team}
use rct_hub_backend.Engine.Terminal.{enter_pick_or_terminal, advance_ban}

abbrev pub require_referee : Actor → Fallible (Unit {0})
require_referee actor =
    fail_if (not (actor.capability == Capability.referee)) ErrorCode.action_not_allowed

abbrev pub require_reason : Text → Fallible (Unit {0})
require_reason reason = fail_if (missing_reason reason) ErrorCode.invalid_request

abbrev pub additional_time : Phase → TimerConfiguration → Duration
additional_time Phase.ban timers = timers.ban_additional
additional_time Phase.waiting_for_result timers = timers.result_confirmation_additional
additional_time _ timers = timers.pick_additional

-- Timer.Duration > 0 || Timer.Paused
abbrev pub has_timer : Timer → Bool
has_timer t = ltb_ℤ (pos 0) t.duration || t.paused

unfoldable pub grant_additional_time : State → Actor → Text → Time → Step
grant_additional_time s actor reason now = do
  fail_if (not (s.lifecycle == Lifecycle.running)) ErrorCode.match_lifecycle_conflict
  require_referee actor
  require_reason reason
  fail_if
      (not (s.phase == Phase.ban || s.phase == Phase.pick || s.phase == Phase.waiting_for_result))
      ErrorCode.action_not_allowed
  fail_if (not (side_valid s.active_team)) ErrorCode.action_not_allowed
  fail_if (not (expired s.timer now)) ErrorCode.action_not_allowed
  fail_if (get_or s.active_team s.team_pause_used false) ErrorCode.team_pause_already_used
  let duration = additional_time s.phase s.timers
  ok (
    record s {
      team_pause_used = insert s.active_team true s.team_pause_used;
      timer = running_timer now duration;
    },
    record (team_event EventType.additional_time_granted s.active_team) {
      duration = duration;
      reason = reason;
    }
        ∷ event EventType.timer_started
        ∷ [],
  )

-- state.Lifecycle != LifecycleRunning || state.Phase == PhaseNone
abbrev pub require_active_phase : State → Fallible (Unit {0})
require_active_phase s =
    fail_if (not (s.lifecycle == Lifecycle.running) || s.phase == Phase.none)
      ErrorCode.match_lifecycle_conflict

unfoldable pub calibrate_timer : State → Actor → Duration → Text → Time → Step
calibrate_timer s actor remaining reason now = do
  require_active_phase s
  require_referee actor
  fail_if (missing_reason reason || ltb_ℤ remaining (pos 0)) ErrorCode.invalid_request
  fail_if (not (has_timer s.timer)) ErrorCode.action_not_allowed
  let timer : Timer =
      if s.timer.paused
      then record (s.timer) { remaining_at_pause = remaining }
      else running_timer now remaining
  ok (
    record s { timer = timer },
    record (reason_event EventType.timer_calibrated reason) { duration = remaining } ∷ [],
  )

unfoldable pub pause_timer : State → Actor → Text → Time → Step
pause_timer s actor reason now = do
  require_active_phase s
  require_referee actor
  require_reason reason
  fail_if (not (has_timer s.timer)) ErrorCode.action_not_allowed
  fail_if s.timer.paused ErrorCode.action_not_allowed
  ok (record s { timer = pause s.timer now }, reason_event EventType.timer_paused reason ∷ [])

unfoldable pub resume_timer : State → Actor → Text → Time → Step
resume_timer s actor reason now = do
  require_active_phase s
  require_referee actor
  require_reason reason
  fail_if (not s.timer.paused) ErrorCode.action_not_allowed
  ok (record s { timer = resume s.timer now }, reason_event EventType.timer_resumed reason ∷ [])

unfoldable pub suspend_match : State → Actor → Text → Time → Step
suspend_match s actor reason now = do
  fail_if (not (s.lifecycle == Lifecycle.running)) ErrorCode.match_lifecycle_conflict
  require_referee actor
  require_reason reason
  let pauses = has_timer s.timer && not s.timer.paused
  ok (
    record s {
      suspension = some (record {
        reason = reason;
        suspended_at = now;
        had_timer = has_timer s.timer;
        timer_was_paused = s.timer.paused;
      });
      lifecycle = Lifecycle.suspended;
      timer = if pauses then pause s.timer now else s.timer;
    },
    reason_event EventType.match_suspended reason
        ∷ (if pauses then reason_event EventType.timer_paused reason ∷ [] else []),
  )

-- state.Lifecycle != LifecycleSuspended || state.Suspension == nil
abbrev pub require_suspension : State → Fallible SuspensionState
require_suspension s = elim s.suspension [
  | none ↦ err ErrorCode.match_lifecycle_conflict
  | some suspension ↦
      if s.lifecycle == Lifecycle.suspended
      then ok suspension
      else err ErrorCode.match_lifecycle_conflict
]

unfoldable pub resume_match : State → Actor → Text → Time → Step
resume_match s actor reason now = do
  suspension ← require_suspension s
  require_referee actor
  require_reason reason
  let resumes = suspension.had_timer && not suspension.timer_was_paused
  ok (
    record s {
      suspension = none;
      lifecycle = Lifecycle.running;
      timer = if resumes then resume s.timer now else s.timer;
    },
    reason_event EventType.match_resumed reason
        ∷ (if resumes then reason_event EventType.timer_resumed reason ∷ [] else []),
  )

-- The turn that skipCurrentAction advances, in a state that runs.
unfoldable pub skip_turn : State → Time → State × List Event
skip_turn s now =
    let team = pick_team s.first_pick (inc64 s.turn) in
    let (s', events) =
      enter_pick_or_terminal (record s { turn = inc64 s.turn; active_team = team }) now in
    if s.phase == Phase.ban
    then advance_ban s now
    else (s', team_event EventType.turn_advanced team ∷ events)

-- The last step of skipCurrentAction: a match that was suspended and still runs is suspended again.
unfoldable pub suspend_again : Bool → State → Text → Time → State × List Event
suspend_again was_suspended s reason now =
    if was_suspended && s.lifecycle == Lifecycle.running
    then (
      record s {
        lifecycle = Lifecycle.suspended;
        timer = pause s.timer now;
        suspension = some (record {
          reason = reason;
          suspended_at = now;
          had_timer = true;
          timer_was_paused = false;
        });
      },
      reason_event EventType.timer_paused reason ∷ [],
    )
    else (s, [])

unfoldable pub skip_current_action : State → Actor → Text → Time → Step
skip_current_action s actor reason now = do
  require_referee actor
  require_reason reason
  fail_if (not (s.lifecycle == Lifecycle.running || s.lifecycle == Lifecycle.suspended))
      ErrorCode.match_lifecycle_conflict
  fail_if (s.phase == Phase.waiting_for_result) ErrorCode.result_not_pending
  fail_if (not (s.phase == Phase.ban || s.phase == Phase.pick)) ErrorCode.action_not_allowed
  let was_suspended = s.lifecycle == Lifecycle.suspended
  fail_if (not was_suspended && not (expired s.timer now)) ErrorCode.action_not_allowed
  let running = record s { lifecycle = Lifecycle.running; suspension = none }
  let (skipped, events) = skip_turn running now
  let (s', more) = suspend_again was_suspended skipped reason now
  ok (
    s',
    record (team_event EventType.action_skipped s.active_team) { reason = reason } ∷ events ++ more,
  )

unfoldable pub abort_match : State → Actor → Text → Step
abort_match s actor reason = do
  fail_if (not (s.lifecycle == Lifecycle.running || s.lifecycle == Lifecycle.suspended))
      ErrorCode.match_lifecycle_conflict
  require_referee actor
  require_reason reason
  ok (
    record s {
      lifecycle = Lifecycle.aborted;
      phase = Phase.none;
      active_team = TeamSide.unset;
      pending_piece_id = [];
      pending_tb_request = none;
      suspension = none;
      timer = zero_timer;
      abort_reason = reason;
    },
    reason_event EventType.match_aborted reason ∷ [],
  )
