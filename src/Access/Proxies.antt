-- ===== src/Access/Proxies.antt =====
-- What an accepted proxy command of internal/matchengine/engine.go says of the strategist's or
-- captain's command under it.
use rct_hub_backend.Base.{
  ◌≡◌, true, false, not, ◌&&◌, List, Text, arith, if◌then◌else◌, ◌++◌, ◌∷◌, [],
}
use rct_hub_backend.Model.Kinds.{TeamSide}
use rct_hub_backend.Model.Errors.{ok, err}
use rct_hub_backend.Model.Timer.{Time, expired}
use rct_hub_backend.Model.State.{State, Actor, side_valid, strategist_actor, captain_actor}
use rct_hub_backend.Model.Events.{Event, EventType, reason_event}
use rct_hub_backend.Engine.Rules.{
  Step, missing_reason, append_referee_proxy_event, referee_proxy_context,
  referee_proxy_captain_context,
}
use rct_hub_backend.Engine.Execute.{as_strategist, as_captain}
use rct_hub_backend.Access.Tables.{is_referee}

-- The time at which a proxy acts: an expired timer that is not paused is set back to its start.
abbrev pub proxy_time : State → Time → Time
proxy_time s now = if not s.timer.paused && expired s.timer now then s.timer.started_at else now

-- The event that a proxy command adds.
abbrev pub proxy_event : TeamSide → Text → Event
proxy_event team reason = record (reason_event EventType.referee_proxy_action_recorded reason) {
  team = team;
}

pub record ProxyOf (actor : Actor) (team : TeamSide) (reason : Text) (inner : Step)
    (r : State × List Event) : Type 0 where
  pub referee : is_referee actor ≡ true
  pub valid : side_valid team ≡ true
  pub reasoned : missing_reason reason ≡ false
  pub events : List Event
  pub accepted : inner ≡ ok (r.0, events)
  pub appended : r.1 ≡ events ++ proxy_event team reason ∷ []

append_referee_proxy_event-ProxyOf :
    (actor : Actor) (team : TeamSide) (reason : Text) (inner : Step) (r : State × List Event)
    → is_referee actor ≡ true
    → side_valid team ≡ true
    → missing_reason reason ≡ false
    → append_referee_proxy_event inner team reason ≡ ok r
    → ProxyOf actor team reason inner r
unfolding append_referee_proxy_event
append_referee_proxy_event-ProxyOf actor team reason (ok (s, events)) r a b c h = record {
  referee = a;
  valid = b;
  reasoned = c;
  events = events;
  accepted = cc;
  appended = cc;
}
append_referee_proxy_event-ProxyOf actor team reason (err e) r a b c h = cc

pub as_strategist-ProxyOf :
    (s : State) (actor : Actor) (team : TeamSide) (reason : Text) (now : Time)
    (command : Actor → Time → Step) {r : State × List Event}
    → as_strategist s actor team reason now command ≡ ok r
    → ProxyOf actor team reason (command (strategist_actor team) (proxy_time s now)) r
unfolding as_strategist referee_proxy_context
as_strategist-ProxyOf s actor team reason now command {r} h = ground (
  arith,
  append_referee_proxy_event-ProxyOf actor team reason
      (command (strategist_actor team) (proxy_time s now)) r,
)

pub as_captain-ProxyOf :
    (actor : Actor) (team : TeamSide) (reason : Text) (command : Actor → Step)
    {r : State × List Event}
    → as_captain actor team reason command ≡ ok r
    → ProxyOf actor team reason (command (captain_actor team)) r
unfolding as_captain referee_proxy_captain_context
as_captain-ProxyOf actor team reason command {r} h =
    ground
      (arith, append_referee_proxy_event-ProxyOf actor team reason (command (captain_actor team)) r)
