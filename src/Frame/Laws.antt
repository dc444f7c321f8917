-- ===== src/Frame/Laws.antt =====
-- Execute keeps the configuration and counts the version up.
use rct_hub_backend.Base.{◌≡◌, ◌≢◌, suc, ◌≤◌, List, [], ◌∷◌, arith}
use rct_hub_backend.Base.Int.{pos_part, inc_u64}
use rct_hub_backend.Model.Errors.{ok, >>=-eq-ok}
use rct_hub_backend.Model.Timer.{Time}
use rct_hub_backend.Model.State.{State, Actor, strategist_actor, captain_actor}
use rct_hub_backend.Model.Events.{Event, Command, Transition}
use rct_hub_backend.Engine.Play.{ban_pool_slot, place_piece, place_shiro, rob_piece}
use rct_hub_backend.Engine.Tiebreak.{request_tb, respond_tb_request}
use rct_hub_backend.Engine.Execute.{dispatch, commit, execute}
use rct_hub_backend.Access.Proxies.{proxy_time, as_strategist-ProxyOf, as_captain-ProxyOf}
use rct_hub_backend.Frame.Defs.{IsStep}
use rct_hub_backend.Frame.Commands

dispatch-IsStep :
    (s : State) (actor : Actor) (c : Command) (now : Time) {r : State × List Event}
    → dispatch s actor c now ≡ ok r
    → IsStep s r.0
unfolding dispatch
dispatch-IsStep s actor Command.start_match now h = Commands.start_match-IsStep s actor now h
dispatch-IsStep s actor (Command.ban_pool_slot slot) now h =
    Commands.ban_pool_slot-IsStep s actor now slot h
dispatch-IsStep s actor (Command.place_piece slot piece cell) now h =
    Commands.place_piece-IsStep s actor now slot piece cell h
dispatch-IsStep s actor (Command.place_shiro piece cell) now h =
    Commands.place_shiro-IsStep s actor now piece cell h
dispatch-IsStep s actor (Command.rob_piece target sets) now h =
    Commands.rob_piece-IsStep s actor now target sets h
dispatch-IsStep s actor (Command.confirm_beatmap_result piece team) now h =
    Commands.confirm_beatmap_result-IsStep s actor now piece team h
dispatch-IsStep s actor (Command.grant_additional_time reason) now h =
    Commands.grant_additional_time-IsStep s actor now reason h
dispatch-IsStep s actor (Command.calibrate_timer left reason) now h =
    Commands.calibrate_timer-IsStep s actor now left reason h
dispatch-IsStep s actor (Command.pause_timer reason) now h =
    Commands.pause_timer-IsStep s actor now reason h
dispatch-IsStep s actor (Command.resume_timer reason) now h =
    Commands.resume_timer-IsStep s actor now reason h
dispatch-IsStep s actor (Command.suspend_match reason) now h =
    Commands.suspend_match-IsStep s actor now reason h
dispatch-IsStep s actor (Command.resume_match reason) now h =
    Commands.resume_match-IsStep s actor now reason h
dispatch-IsStep s actor (Command.skip_current_action reason) now h =
    Commands.skip_current_action-IsStep s actor now reason h
dispatch-IsStep s actor (Command.abort_match reason) now h =
    Commands.abort_match-IsStep s actor now reason h
dispatch-IsStep s actor (Command.request_tb id basis) now h =
    Commands.request_tb-IsStep s actor now id basis h
dispatch-IsStep s actor (Command.respond_tb_request id accept) now h =
    Commands.respond_tb_request-IsStep s actor now id accept h
dispatch-IsStep s actor (Command.start_tb reason) now h =
    Commands.start_tb-IsStep s actor now reason h
dispatch-IsStep s actor (Command.confirm_tb_result team) now h =
    Commands.confirm_tb_result-IsStep s actor now team h
dispatch-IsStep s actor (Command.record_surrender team ids reason) now h =
    Commands.record_surrender-IsStep s actor now team ids reason h
dispatch-IsStep s actor (Command.referee_ban_pool_slot team slot reason) now h =
    let p =
      as_strategist-ProxyOf s actor team reason now (λ proxy time. ban_pool_slot s proxy slot time)
        h in
    Commands.ban_pool_slot-IsStep s (strategist_actor team) (proxy_time s now) slot p.accepted
dispatch-IsStep s actor (Command.referee_place_piece team slot piece cell reason) now h =
    let p =
      as_strategist-ProxyOf s actor team reason now
        (λ proxy time. place_piece s proxy slot piece cell time) h in
    Commands.place_piece-IsStep s (strategist_actor team) (proxy_time s now) slot piece cell
      p.accepted
dispatch-IsStep s actor (Command.referee_place_shiro team piece cell reason) now h =
    let p =
      as_strategist-ProxyOf s actor team reason now
        (λ proxy time. place_shiro s proxy piece cell time) h in
    Commands.place_shiro-IsStep s (strategist_actor team) (proxy_time s now) piece cell p.accepted
dispatch-IsStep s actor (Command.referee_rob_piece team target sets reason) now h =
    let p =
      as_strategist-ProxyOf s actor team reason now
        (λ proxy time. rob_piece s proxy target sets time) h in
    Commands.rob_piece-IsStep s (strategist_actor team) (proxy_time s now) target sets p.accepted
dispatch-IsStep s actor (Command.referee_request_tb team id basis reason) now h =
    let p = as_captain-ProxyOf actor team reason (λ proxy. request_tb s proxy id basis) h in
    Commands.request_tb-IsStep s (captain_actor team) now id basis p.accepted
dispatch-IsStep s actor (Command.referee_respond_tb_request team id accept reason) now h =
    let p =
      as_captain-ProxyOf actor team reason (λ proxy. respond_tb_request s proxy id accept now) h in
    Commands.respond_tb_request-IsStep s (captain_actor team) now id accept p.accepted
dispatch-IsStep s actor Command.unsupported now h = cc

-- What an accepted command leaves alone, and what it counts.
pub record IsCommit (s : State) (t : Transition) : Type 0 where
  pub first_ban : t.state.first_ban ≡ s.first_ban
  pub first_pick : t.state.first_pick ≡ s.first_pick
  pub rosters : t.state.rosters ≡ s.rosters
  pub timers : t.state.timers ≡ s.timers
  pub version : t.state.version ≡ inc_u64 s.version
  pub turn : pos_part t.state.turn ≤ suc (pos_part s.turn)
  pub has_events : t.events ≢ []

commit-IsCommit :
    (s : State) (r : State × List Event) {t : Transition}
    → commit r ≡ ok t
    → IsStep s r.0
    → IsCommit s t
unfolding commit
commit-IsCommit s (s', []) h st = cc
commit-IsCommit s (s', e ∷ events) h st = ground arith

-- An accepted command counts the version up by one (as a uint64) and emits an event; it never
-- changes the first teams, the rosters or the timer configuration, and the turn goes up by at most
-- one above the turn before, or above 0.
pub execute-IsCommit :
    (s : State) (actor : Actor) (c : Command) (now : Time) {t : Transition}
    → execute s actor c now ≡ ok t
    → IsCommit s t
unfolding execute
execute-IsCommit s actor c now h =
    let (r, accepted, committed) = >>=-eq-ok (dispatch s actor c now) commit h in
    commit-IsCommit s r committed (dispatch-IsStep s actor c now accepted)
