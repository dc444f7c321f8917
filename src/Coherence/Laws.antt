-- ===== src/Coherence/Laws.antt =====
-- Execute keeps a match coherent.
use rct_hub_backend.Base.{◌≡◌, ◌≢◌, ℕ, refl, sym, subst, ◌∙◌, List, [], ◌∷◌, arith}
use rct_hub_backend.Base.Int.{pos, max_int64, inc_u64}
use rct_hub_backend.Model.Kinds.{Lifecycle}
use rct_hub_backend.Model.Errors.{ok, >>=-eq-ok}
use rct_hub_backend.Model.Timer.{Time}
use rct_hub_backend.Model.State.{State, Actor, strategist_actor, captain_actor}
use rct_hub_backend.Model.Events.{Event, Command, Transition}
use rct_hub_backend.Engine.Play.{ban_pool_slot, place_piece, place_shiro, rob_piece}
use rct_hub_backend.Engine.Tiebreak.{request_tb, respond_tb_request}
use rct_hub_backend.Engine.Execute.{dispatch, commit, execute}
use rct_hub_backend.Access.Proxies.{proxy_time, as_strategist-ProxyOf, as_captain-ProxyOf}
use rct_hub_backend.Validation.{valid_lifecycle_data}
use rct_hub_backend.Coherence.Defs.{IsCoherent, IsStarted}
use rct_hub_backend.Coherence.Commands

dispatch-IsStarted :
    (s : State) (actor : Actor) (c : Command) (now : Time) {r : State × List Event}
    → IsCoherent s
    → s.turn ≢ pos max_int64
    → dispatch s actor c now ≡ ok r
    → IsStarted r.0
unfolding dispatch
dispatch-IsStarted s actor Command.start_match now c fits h =
    Commands.start_match-IsStarted s actor now c h
dispatch-IsStarted s actor (Command.ban_pool_slot slot) now c fits h =
    Commands.ban_pool_slot-IsStarted s actor now c slot h
dispatch-IsStarted s actor (Command.place_piece slot piece cell) now c fits h =
    Commands.place_piece-IsStarted s actor now c slot piece cell h
dispatch-IsStarted s actor (Command.place_shiro piece cell) now c fits h =
    Commands.place_shiro-IsStarted s actor now c piece cell fits h
dispatch-IsStarted s actor (Command.rob_piece target sets) now c fits h =
    Commands.rob_piece-IsStarted s actor now c target sets h
dispatch-IsStarted s actor (Command.confirm_beatmap_result piece team) now c fits h =
    Commands.confirm_beatmap_result-IsStarted s actor now c piece team fits h
dispatch-IsStarted s actor (Command.grant_additional_time reason) now c fits h =
    Commands.grant_additional_time-IsStarted s actor now c reason h
dispatch-IsStarted s actor (Command.calibrate_timer left reason) now c fits h =
    Commands.calibrate_timer-IsStarted s actor now c left reason h
dispatch-IsStarted s actor (Command.pause_timer reason) now c fits h =
    Commands.pause_timer-IsStarted s actor now c reason h
dispatch-IsStarted s actor (Command.resume_timer reason) now c fits h =
    Commands.resume_timer-IsStarted s actor now c reason h
dispatch-IsStarted s actor (Command.suspend_match reason) now c fits h =
    Commands.suspend_match-IsStarted s actor now c reason h
dispatch-IsStarted s actor (Command.resume_match reason) now c fits h =
    Commands.resume_match-IsStarted s actor now c reason h
dispatch-IsStarted s actor (Command.skip_current_action reason) now c fits h =
    Commands.skip_current_action-IsStarted s actor now c reason fits h
dispatch-IsStarted s actor (Command.abort_match reason) now c fits h =
    Commands.abort_match-IsStarted s actor now c reason h
dispatch-IsStarted s actor (Command.request_tb id basis) now c fits h =
    Commands.request_tb-IsStarted s actor now c id basis h
dispatch-IsStarted s actor (Command.respond_tb_request id accept) now c fits h =
    Commands.respond_tb_request-IsStarted s actor now c id accept h
dispatch-IsStarted s actor (Command.start_tb reason) now c fits h =
    Commands.start_tb-IsStarted s actor now c reason h
dispatch-IsStarted s actor (Command.confirm_tb_result team) now c fits h =
    Commands.confirm_tb_result-IsStarted s actor now c team h
dispatch-IsStarted s actor (Command.record_surrender team ids reason) now c fits h =
    Commands.record_surrender-IsStarted s actor now c team ids reason h
dispatch-IsStarted s actor (Command.referee_ban_pool_slot team slot reason) now c fits h =
    let p =
      as_strategist-ProxyOf s actor team reason now (λ proxy time. ban_pool_slot s proxy slot time)
        h in
    Commands.ban_pool_slot-IsStarted s (strategist_actor team) (proxy_time s now) c slot p.accepted
dispatch-IsStarted s actor (Command.referee_place_piece team slot piece cell reason) now c fits h =
    let p =
      as_strategist-ProxyOf s actor team reason now
        (λ proxy time. place_piece s proxy slot piece cell time) h in
    Commands.place_piece-IsStarted s (strategist_actor team) (proxy_time s now) c slot piece cell
      p.accepted
dispatch-IsStarted s actor (Command.referee_place_shiro team piece cell reason) now c fits h =
    let p =
      as_strategist-ProxyOf s actor team reason now
        (λ proxy time. place_shiro s proxy piece cell time) h in
    Commands.place_shiro-IsStarted s (strategist_actor team) (proxy_time s now) c piece cell fits
      p.accepted
dispatch-IsStarted s actor (Command.referee_rob_piece team target sets reason) now c fits h =
    let p =
      as_strategist-ProxyOf s actor team reason now
        (λ proxy time. rob_piece s proxy target sets time) h in
    Commands.rob_piece-IsStarted s (strategist_actor team) (proxy_time s now) c target sets
      p.accepted
dispatch-IsStarted s actor (Command.referee_request_tb team id basis reason) now c fits h =
    let p = as_captain-ProxyOf actor team reason (λ proxy. request_tb s proxy id basis) h in
    Commands.request_tb-IsStarted s (captain_actor team) now c id basis p.accepted
dispatch-IsStarted s actor (Command.referee_respond_tb_request team id accept reason) now c fits h =
    let p =
      as_captain-ProxyOf actor team reason (λ proxy. respond_tb_request s proxy id accept now) h in
    Commands.respond_tb_request-IsStarted s (captain_actor team) now c id accept p.accepted
dispatch-IsStarted s actor Command.unsupported now c fits h = cc

-- Away from READY the version does not matter.
version-lifecycle_data :
    (l : Lifecycle) (s : State) (n : ℕ)
    → l ≢ Lifecycle.ready
    → valid_lifecycle_data (record s { version = n }) l ≡ valid_lifecycle_data s l
unfolding valid_lifecycle_data
version-lifecycle_data Lifecycle.ready s n h = absurd (h refl)
version-lifecycle_data Lifecycle.running s n h = refl
version-lifecycle_data _ s n h = refl

version-IsStarted : (s : State) (n : ℕ) → IsStarted s → IsStarted (record s { version = n })
version-IsStarted s n st =
    let c = st.coherent in
    record {
      started = st.started;
      coherent = record {
        first_ban = c.first_ban;
        first_pick = c.first_pick;
        turn = c.turn;
        lifecycle = version-lifecycle_data s.lifecycle s n st.started ∙ c.lifecycle;
      };
    }

commit-IsStarted :
    (r : State × List Event) {t : Transition} → commit r ≡ ok t → IsStarted r.0 → IsStarted t.state
unfolding commit
commit-IsStarted (s, []) h st = cc
commit-IsStarted (s, e ∷ events) {t} h st =
    let same : t.state ≡ record s { version = inc_u64 s.version } = ground arith in
    subst IsStarted (sym same) (version-IsStarted s (inc_u64 s.version) st)

-- A command accepted in a coherent match whose turn number is not the last int leads to a coherent
-- match that is not READY.
pub execute-IsStarted :
    (s : State) (actor : Actor) (c : Command) (now : Time) {t : Transition}
    → IsCoherent s
    → s.turn ≢ pos max_int64
    → execute s actor c now ≡ ok t
    → IsStarted t.state
unfolding execute
execute-IsStarted s actor c now coherent fits h =
    let (r, accepted, committed) = >>=-eq-ok (dispatch s actor c now) commit h in
    commit-IsStarted r committed (dispatch-IsStarted s actor c now coherent fits accepted)
