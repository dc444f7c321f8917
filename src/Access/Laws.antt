-- ===== src/Access/Laws.antt =====
-- The tables hold of Execute.
use rct_hub_backend.Base.{◌≡◌, Bool, List, Text, arith}
use rct_hub_backend.Model.Kinds.{TeamSide, TbBasis}
use rct_hub_backend.Model.Errors.{ok, >>=-eq-ok}
use rct_hub_backend.Model.Timer.{Time}
use rct_hub_backend.Model.State.{State, Actor, Cell, strategist_actor, captain_actor}
use rct_hub_backend.Model.Events.{Event, Command, Transition}
use rct_hub_backend.Engine.Play.{ban_pool_slot, place_piece, place_shiro, rob_piece}
use rct_hub_backend.Engine.Tiebreak.{request_tb, respond_tb_request}
use rct_hub_backend.Engine.Execute.{dispatch, commit, execute}
use rct_hub_backend.Access.Tables.{IsAllowed}
use rct_hub_backend.Access.Commands
use rct_hub_backend.Access.Proxies.{ProxyOf, proxy_time, as_strategist-ProxyOf, as_captain-ProxyOf}

module _ (s : State) (actor : Actor) (now : Time) (team : TeamSide) (reason : Text)
    {r : State × List Event} where
  proxy_ban-IsAllowed :
      (slot : Text)
      → ProxyOf actor team reason
          (ban_pool_slot s (strategist_actor team) slot (proxy_time s now))
          r
      → IsAllowed s actor (Command.referee_ban_pool_slot team slot reason) now
  unfolding strategist_actor
  proxy_ban-IsAllowed slot p = ground (
    arith,
    p,
    Commands.ban_pool_slot-IsAllowed s (strategist_actor team) (proxy_time s now) slot p.accepted,
  )

  proxy_place-IsAllowed :
      (slot piece : Text) (cell : Cell)
      → ProxyOf actor team reason
          (place_piece s (strategist_actor team) slot piece cell (proxy_time s now))
          r
      → IsAllowed s actor (Command.referee_place_piece team slot piece cell reason) now
  unfolding strategist_actor
  proxy_place-IsAllowed slot piece cell p = ground (
    arith,
    p,
    Commands.place_piece-IsAllowed s (strategist_actor team) (proxy_time s now) slot piece cell
        p.accepted,
  )

  proxy_place_shiro-IsAllowed :
      (piece : Text) (cell : Cell)
      → ProxyOf actor team reason
          (place_shiro s (strategist_actor team) piece cell (proxy_time s now))
          r
      → IsAllowed s actor (Command.referee_place_shiro team piece cell reason) now
  unfolding strategist_actor
  proxy_place_shiro-IsAllowed piece cell p = ground (
    arith,
    p,
    Commands.place_shiro-IsAllowed s (strategist_actor team) (proxy_time s now) piece cell
        p.accepted,
  )

  proxy_rob-IsAllowed :
      (target : Text) (sets : List (List Text))
      → ProxyOf actor team reason
          (rob_piece s (strategist_actor team) target sets (proxy_time s now))
          r
      → IsAllowed s actor (Command.referee_rob_piece team target sets reason) now
  unfolding strategist_actor
  proxy_rob-IsAllowed target sets p = ground (
    arith,
    p,
    Commands.rob_piece-IsAllowed s (strategist_actor team) (proxy_time s now) target sets
        p.accepted,
  )

  proxy_request-IsAllowed :
      (id : Text) (basis : TbBasis)
      → ProxyOf actor team reason (request_tb s (captain_actor team) id basis) r
      → IsAllowed s actor (Command.referee_request_tb team id basis reason) now
  unfolding captain_actor
  proxy_request-IsAllowed id basis p =
      ground
        (arith, p, Commands.request_tb-IsAllowed s (captain_actor team) now id basis p.accepted)

  proxy_respond-IsAllowed :
      (id : Text) (accept : Bool)
      → ProxyOf actor team reason (respond_tb_request s (captain_actor team) id accept now) r
      → IsAllowed s actor (Command.referee_respond_tb_request team id accept reason) now
  unfolding captain_actor
  proxy_respond-IsAllowed id accept p = ground (
    arith,
    p,
    Commands.respond_tb_request-IsAllowed s (captain_actor team) now id accept p.accepted,
  )

pub dispatch-IsAllowed :
    (s : State) (actor : Actor) (c : Command) (now : Time) {r : State × List Event}
    → dispatch s actor c now ≡ ok r
    → IsAllowed s actor c now
unfolding dispatch
dispatch-IsAllowed s actor Command.start_match now h = Commands.start_match-IsAllowed s actor now h
dispatch-IsAllowed s actor (Command.ban_pool_slot slot) now h =
    Commands.ban_pool_slot-IsAllowed s actor now slot h
dispatch-IsAllowed s actor (Command.place_piece slot piece cell) now h =
    Commands.place_piece-IsAllowed s actor now slot piece cell h
dispatch-IsAllowed s actor (Command.place_shiro piece cell) now h =
    Commands.place_shiro-IsAllowed s actor now piece cell h
dispatch-IsAllowed s actor (Command.rob_piece target sets) now h =
    Commands.rob_piece-IsAllowed s actor now target sets h
dispatch-IsAllowed s actor (Command.confirm_beatmap_result piece team) now h =
    Commands.confirm_beatmap_result-IsAllowed s actor now piece team h
dispatch-IsAllowed s actor (Command.grant_additional_time reason) now h =
    Commands.grant_additional_time-IsAllowed s actor now reason h
dispatch-IsAllowed s actor (Command.calibrate_timer left reason) now h =
    Commands.calibrate_timer-IsAllowed s actor now left reason h
dispatch-IsAllowed s actor (Command.pause_timer reason) now h =
    Commands.pause_timer-IsAllowed s actor now reason h
dispatch-IsAllowed s actor (Command.resume_timer reason) now h =
    Commands.resume_timer-IsAllowed s actor now reason h
dispatch-IsAllowed s actor (Command.suspend_match reason) now h =
    Commands.suspend_match-IsAllowed s actor now reason h
dispatch-IsAllowed s actor (Command.resume_match reason) now h =
    Commands.resume_match-IsAllowed s actor now reason h
dispatch-IsAllowed s actor (Command.skip_current_action reason) now h =
    Commands.skip_current_action-IsAllowed s actor now reason h
dispatch-IsAllowed s actor (Command.abort_match reason) now h =
    Commands.abort_match-IsAllowed s actor now reason h
dispatch-IsAllowed s actor (Command.request_tb id basis) now h =
    Commands.request_tb-IsAllowed s actor now id basis h
dispatch-IsAllowed s actor (Command.respond_tb_request id accept) now h =
    Commands.respond_tb_request-IsAllowed s actor now id accept h
dispatch-IsAllowed s actor (Command.start_tb reason) now h =
    Commands.start_tb-IsAllowed s actor now reason h
dispatch-IsAllowed s actor (Command.confirm_tb_result team) now h =
    Commands.confirm_tb_result-IsAllowed s actor now team h
dispatch-IsAllowed s actor (Command.record_surrender team ids reason) now h =
    Commands.record_surrender-IsAllowed s actor now team ids reason h
dispatch-IsAllowed s actor (Command.referee_ban_pool_slot team slot reason) now h =
    proxy_ban-IsAllowed s actor now team reason slot (
      as_strategist-ProxyOf s actor team reason now (λ proxy time. ban_pool_slot s proxy slot time)
        h)
dispatch-IsAllowed s actor (Command.referee_place_piece team slot piece cell reason) now h =
    proxy_place-IsAllowed s actor now team reason slot piece cell (
      as_strategist-ProxyOf s actor team reason now
        (λ proxy time. place_piece s proxy slot piece cell time) h)
dispatch-IsAllowed s actor (Command.referee_place_shiro team piece cell reason) now h =
    proxy_place_shiro-IsAllowed s actor now team reason piece cell (
      as_strategist-ProxyOf s actor team reason now
        (λ proxy time. place_shiro s proxy piece cell time) h)
dispatch-IsAllowed s actor (Command.referee_rob_piece team target sets reason) now h =
    proxy_rob-IsAllowed s actor now team reason target sets (
      as_strategist-ProxyOf s actor team reason now
        (λ proxy time. rob_piece s proxy target sets time) h)
dispatch-IsAllowed s actor (Command.referee_request_tb team id basis reason) now h =
    proxy_request-IsAllowed s actor now team reason id basis
      (as_captain-ProxyOf actor team reason (λ proxy. request_tb s proxy id basis) h)
dispatch-IsAllowed s actor (Command.referee_respond_tb_request team id accept reason) now h =
    proxy_respond-IsAllowed s actor now team reason id accept
      (as_captain-ProxyOf actor team reason (λ proxy. respond_tb_request s proxy id accept now) h)
dispatch-IsAllowed s actor Command.unsupported now h = cc

-- A command that Execute accepts stands in the tables for the match's lifecycle and phase, is issued
-- by an actor with the authority for it, and comes while the timer allows it.
pub execute-IsAllowed :
    (s : State) (actor : Actor) (c : Command) (now : Time) {t : Transition}
    → execute s actor c now ≡ ok t
    → IsAllowed s actor c now
unfolding execute
execute-IsAllowed s actor c now h =
    let (r, accepted, _) = >>=-eq-ok (dispatch s actor c now) commit h in
    dispatch-IsAllowed s actor c now accepted
