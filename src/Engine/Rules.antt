-- ===== src/Engine/Rules.antt =====
-- The checks that the commands of internal/matchengine/engine.go share, and its small rules.
use rct_hub_backend.Base.{
  ◌%◌, Bool, false, not, ◌&&◌, ◌||◌, Text, List, [], ◌∷◌, ◌++◌, Option, none, some, if◌then◌else◌,
  is_blank, nat_eq, ◌==◌,
}
use rct_hub_backend.Base.Int.{ℤ, pos, negsuc}
use rct_hub_backend.Model.Kinds.{
  TeamSide, Lifecycle, Phase, Mod, ForceMod, Capability, Zone, team_side_Eq, lifecycle_Eq, phase_Eq,
  capability_Eq,
}
use rct_hub_backend.Model.Errors.{ErrorCode, Fallible, ok, err, ◌>>=◌, ◌>>◌, fail_if}
use rct_hub_backend.Model.Timer.{Time, Timer, expired}
use rct_hub_backend.Model.State.{
  State, Actor, side_valid, opponent, strategist_actor, captain_actor,
}
use rct_hub_backend.Model.Events.{EventType, Event, reason_event}

abbrev pub Step : Type 0
Step = Fallible (State × List Event)

unfoldable pub missing_reason : Text → Bool
missing_reason reason = is_blank reason

unfoldable pub require_running_phase : State → Phase → Fallible (Unit {0})
require_running_phase s phase = do
  fail_if (not (s.lifecycle == Lifecycle.running)) ErrorCode.match_lifecycle_conflict
  fail_if (not (s.phase == phase)) ErrorCode.match_phase_conflict

-- actor.Team != nil && actor.Team.valid()
abbrev pub has_valid_team : Option TeamSide → Bool
has_valid_team none = false
has_valid_team (some team) = side_valid team

abbrev pub is_team : Option TeamSide → TeamSide → Bool
is_team none side = false
is_team (some team) side = team == side

unfoldable pub require_active_strategist : State → Actor → Fallible (Unit {0})
require_active_strategist s actor = do
  fail_if (not (actor.capability == Capability.strategist && has_valid_team actor.team))
      ErrorCode.action_not_allowed
  fail_if (not (is_team actor.team s.active_team)) ErrorCode.not_active_team

unfoldable pub require_strategist_timer : Timer → Time → Fallible (Unit {0})
require_strategist_timer t now = do
  fail_if t.paused ErrorCode.timer_paused
  fail_if (expired t now) ErrorCode.timer_expired

unfoldable pub placement_force_mod : Mod → Zone → Fallible (Option ForceMod)
placement_force_mod Mod.nm _ = ok none
placement_force_mod Mod.hd Zone.hd = ok none
placement_force_mod Mod.hd _ = err ErrorCode.invalid_mod_zone
placement_force_mod Mod.hr Zone.hr = ok none
placement_force_mod Mod.hr _ = err ErrorCode.invalid_mod_zone
placement_force_mod Mod.dt Zone.dt = ok none
placement_force_mod Mod.dt _ = err ErrorCode.invalid_mod_zone
placement_force_mod Mod.fm Zone.hd = ok (some ForceMod.hd)
placement_force_mod Mod.fm Zone.hr = ok (some ForceMod.hr)
placement_force_mod Mod.fm _ = ok (some ForceMod.nm)
placement_force_mod _ _ = err ErrorCode.pool_slot_unavailable

-- Go's remainder of a negative odd number is -1.
abbrev is_odd : ℤ → Bool
is_odd (pos n) = nat_eq (n % 2) 1
is_odd (negsuc n) = false

unfoldable pub pick_team : TeamSide → ℤ → TeamSide
pick_team first turn = if is_odd turn then first else opponent first

unfoldable pub referee_proxy_captain_context : Actor → TeamSide → Text → Fallible Actor
unfolding captain_actor
referee_proxy_captain_context actor acting_team reason = do
  fail_if (not (actor.capability == Capability.referee)) ErrorCode.action_not_allowed
  fail_if (not (side_valid acting_team) || missing_reason reason) ErrorCode.invalid_request
  ok (captain_actor acting_team)

unfoldable pub referee_proxy_context :
    State → Actor → TeamSide → Text → Time → Fallible (Actor × Time)
unfolding strategist_actor
referee_proxy_context s actor acting_team reason now = do
  fail_if (not (actor.capability == Capability.referee)) ErrorCode.action_not_allowed
  fail_if (not (side_valid acting_team) || missing_reason reason) ErrorCode.invalid_request
  ok (
    strategist_actor acting_team,
    if not s.timer.paused && expired s.timer now then s.timer.started_at else now,
  )

unfoldable pub append_referee_proxy_event : Step → TeamSide → Text → Step
append_referee_proxy_event result team reason = do
  (s, events) ← result
  ok (
    s,
    events
        ++ record (reason_event EventType.referee_proxy_action_recorded reason) { team = team }
          ∷ [],
  )
