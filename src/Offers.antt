-- ===== src/Offers.antt =====
-- What AnalyzeForActor of internal/matchengine/availability.go offers, against what Execute accepts.
use rct_hub_backend.Base.{
  ◌≡◌, ◌↔◌, subst, Bool, true, false, Text, Eq, contains, arith, some, none, Option, is_some, ◌≢◌,
}
use rct_hub_backend.Model.Errors.{Fallible, ok, err}
use rct_hub_backend.Model.Timer.{Time}
use rct_hub_backend.Model.State.{State, referee_actor}
use rct_hub_backend.Model.Events.{Command, Transition}
use rct_hub_backend.Engine.Rules.{missing_reason}
use rct_hub_backend.Engine.Play.{start_match}
use rct_hub_backend.Engine.Tiebreak.{start_tb}
use rct_hub_backend.Engine.Clock.{
  abort_match, suspend_match, resume_match, pause_timer, resume_timer, grant_additional_time,
  skip_current_action,
}
use rct_hub_backend.Validation.{valid_lifecycle_data}
use rct_hub_backend.Engine.Execute.{execute, dispatch, commit}
use rct_hub_backend.Engine.Availability.{
  Action, timer_actions, tb_analysis, referee_phase, analyze_referee, analyze_for_actor,
}

abbrev pub action_eq : Action → Action → Bool
action_eq Action.start_match Action.start_match = true
action_eq Action.ban_pool_slot Action.ban_pool_slot = true
action_eq Action.place_piece Action.place_piece = true
action_eq Action.place_shiro Action.place_shiro = true
action_eq Action.rob_piece Action.rob_piece = true
action_eq Action.confirm_result Action.confirm_result = true
action_eq Action.grant_additional_time Action.grant_additional_time = true
action_eq Action.calibrate_timer Action.calibrate_timer = true
action_eq Action.pause_timer Action.pause_timer = true
action_eq Action.resume_timer Action.resume_timer = true
action_eq Action.suspend_match Action.suspend_match = true
action_eq Action.resume_match Action.resume_match = true
action_eq Action.skip_current_action Action.skip_current_action = true
action_eq Action.abort_match Action.abort_match = true
action_eq Action.request_tb Action.request_tb = true
action_eq Action.respond_tb_request Action.respond_tb_request = true
action_eq Action.start_tb Action.start_tb = true
action_eq Action.confirm_tb_result Action.confirm_tb_result = true
action_eq Action.record_surrender Action.record_surrender = true
action_eq _ _ = false

pub action_eq_iff : (a b : Action) → (action_eq a b ≡ true) ↔ (a ≡ b)
action_eq_iff a b = ground arith

instance abbrev pub action_Eq : Eq Action
action_Eq = record { same = action_eq; same_iff = action_eq_iff }

abbrev pub is_accepted : Fallible Transition → Bool
is_accepted (ok _) = true
is_accepted (err _) = false

module _ (s : State) (now : Time) (reason : Text) where
  -- The action is offered to a referee, and a command is accepted from one.
  abbrev Offered : Action → Type 0
  Offered a = contains a (analyze_referee s now).allowed_actions ≡ true

  abbrev Accepted : Command → Type 0
  Accepted c = is_accepted (execute s referee_actor c now) ≡ true

  abort_match-Accepted :
      missing_reason reason ≡ false
      → Offered Action.abort_match
      → Accepted (Command.abort_match reason)
  unfolding execute dispatch commit abort_match analyze_referee contains referee_actor referee_phase
      tb_analysis timer_actions
  abort_match-Accepted given offered = ground arith

  start_match-Accepted :
      missing_reason reason ≡ false → Offered Action.start_match → Accepted Command.start_match
  unfolding execute dispatch commit start_match analyze_referee contains referee_actor referee_phase
      tb_analysis timer_actions
  start_match-Accepted given offered = ground arith

  suspend_match-Accepted :
      missing_reason reason ≡ false
      → Offered Action.suspend_match
      → Accepted (Command.suspend_match reason)
  unfolding execute dispatch commit suspend_match analyze_referee contains referee_actor
      referee_phase tb_analysis timer_actions
  suspend_match-Accepted given offered = ground arith

  resume_match-Accepted :
      valid_lifecycle_data s s.lifecycle ≡ true
      → missing_reason reason ≡ false
      → Offered Action.resume_match
      → Accepted (Command.resume_match reason)
  unfolding execute dispatch commit resume_match analyze_referee contains referee_actor
      referee_phase tb_analysis timer_actions valid_lifecycle_data
  resume_match-Accepted valid given offered = ground arith

  pause_timer-Accepted :
      valid_lifecycle_data s s.lifecycle ≡ true
      → missing_reason reason ≡ false
      → Offered Action.pause_timer
      → Accepted (Command.pause_timer reason)
  unfolding execute dispatch commit pause_timer analyze_referee contains referee_actor referee_phase
      tb_analysis timer_actions valid_lifecycle_data
  pause_timer-Accepted valid given offered = ground arith

  resume_timer-Accepted :
      valid_lifecycle_data s s.lifecycle ≡ true
      → missing_reason reason ≡ false
      → Offered Action.resume_timer
      → Accepted (Command.resume_timer reason)
  unfolding execute dispatch commit resume_timer analyze_referee contains referee_actor
      referee_phase tb_analysis timer_actions valid_lifecycle_data
  resume_timer-Accepted valid given offered = ground arith

  grant_additional_time-Accepted :
      missing_reason reason ≡ false
      → Offered Action.grant_additional_time
      → Accepted (Command.grant_additional_time reason)
  unfolding execute dispatch commit grant_additional_time analyze_referee contains referee_actor
      referee_phase tb_analysis timer_actions
  grant_additional_time-Accepted given offered = ground arith

  skip_current_action-Accepted :
      missing_reason reason ≡ false
      → Offered Action.skip_current_action
      → Accepted (Command.skip_current_action reason)
  unfolding execute dispatch commit skip_current_action analyze_referee contains referee_actor
      referee_phase tb_analysis timer_actions
  skip_current_action-Accepted given offered = ground arith

  start_tb-Accepted :
      missing_reason reason ≡ false → Offered Action.start_tb → Accepted (Command.start_tb reason)
  unfolding execute dispatch commit start_tb analyze_referee contains referee_actor referee_phase
      tb_analysis timer_actions
  start_tb-Accepted given offered = ground arith

-- The commands that need a reason at most.
abbrev pub plain_command : Action → Text → Option Command
plain_command Action.start_match reason = some Command.start_match
plain_command Action.grant_additional_time reason = some (Command.grant_additional_time reason)
plain_command Action.pause_timer reason = some (Command.pause_timer reason)
plain_command Action.resume_timer reason = some (Command.resume_timer reason)
plain_command Action.suspend_match reason = some (Command.suspend_match reason)
plain_command Action.resume_match reason = some (Command.resume_match reason)
plain_command Action.skip_current_action reason = some (Command.skip_current_action reason)
plain_command Action.abort_match reason = some (Command.abort_match reason)
plain_command Action.start_tb reason = some (Command.start_tb reason)
plain_command _ reason = none

-- A command that is there and that Execute accepts from a referee.
abbrev pub accepts : State → Time → Option Command → Bool
accepts s now none = false
accepts s now (some c) = is_accepted (execute s referee_actor c now)

analyze_for_actor-referee :
    (s : State) (now : Time)
    → now ≢ 0
    → analyze_for_actor s referee_actor now ≡ analyze_referee s now
unfolding analyze_for_actor referee_actor
analyze_for_actor-referee s now later = ground arith

referee-accepts :
    (s : State) (now : Time) (reason : Text) (a : Action)
    → valid_lifecycle_data s s.lifecycle ≡ true
    → missing_reason reason ≡ false
    → is_some (plain_command a reason) ≡ true
    → Offered s now reason a
    → accepts s now (plain_command a reason) ≡ true
referee-accepts s now reason Action.start_match valid given plain offered =
    start_match-Accepted s now reason given offered
referee-accepts s now reason Action.ban_pool_slot valid given plain offered = plain
referee-accepts s now reason Action.place_piece valid given plain offered = plain
referee-accepts s now reason Action.place_shiro valid given plain offered = plain
referee-accepts s now reason Action.rob_piece valid given plain offered = plain
referee-accepts s now reason Action.confirm_result valid given plain offered = plain
referee-accepts s now reason Action.grant_additional_time valid given plain offered =
    grant_additional_time-Accepted s now reason given offered
referee-accepts s now reason Action.calibrate_timer valid given plain offered = plain
referee-accepts s now reason Action.pause_timer valid given plain offered =
    pause_timer-Accepted s now reason valid given offered
referee-accepts s now reason Action.resume_timer valid given plain offered =
    resume_timer-Accepted s now reason valid given offered
referee-accepts s now reason Action.suspend_match valid given plain offered =
    suspend_match-Accepted s now reason given offered
referee-accepts s now reason Action.resume_match valid given plain offered =
    resume_match-Accepted s now reason valid given offered
referee-accepts s now reason Action.skip_current_action valid given plain offered =
    skip_current_action-Accepted s now reason given offered
referee-accepts s now reason Action.abort_match valid given plain offered =
    abort_match-Accepted s now reason given offered
referee-accepts s now reason Action.request_tb valid given plain offered = plain
referee-accepts s now reason Action.respond_tb_request valid given plain offered = plain
referee-accepts s now reason Action.start_tb valid given plain offered =
    start_tb-Accepted s now reason given offered
referee-accepts s now reason Action.confirm_tb_result valid given plain offered = plain
referee-accepts s now reason Action.record_surrender valid given plain offered = plain

-- Whenever a referee is offered an action that needs a reason at most, and gives one, Execute accepts
-- the command, if the state has the data of its lifecycle and the time is not Go's zero time.
pub analyze_for_actor-accepts :
    (s : State) (now : Time) (reason : Text) (a : Action)
    → now ≢ 0
    → valid_lifecycle_data s s.lifecycle ≡ true
    → missing_reason reason ≡ false
    → is_some (plain_command a reason) ≡ true
    → contains a (analyze_for_actor s referee_actor now).allowed_actions ≡ true
    → accepts s now (plain_command a reason) ≡ true
analyze_for_actor-accepts s now reason a later valid given plain offered =
    referee-accepts s now reason a valid given plain (
      subst (λ r. contains a r.allowed_actions ≡ true) (analyze_for_actor-referee s now later)
        offered)
