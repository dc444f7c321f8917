-- ===== src/Engine/Execute.antt =====
-- Execute of internal/matchengine/engine.go, with the referee's proxy commands.
use rct_hub_backend.Base.{Text, List, [], ◌∷◌}
use rct_hub_backend.Base.Int.{inc_u64}
use rct_hub_backend.Model.Kinds.{TeamSide}
use rct_hub_backend.Model.Errors.{ErrorCode, Fallible, ok, err, ◌>>=◌}
use rct_hub_backend.Model.Timer.{Time}
use rct_hub_backend.Model.State.{State, Actor}
use rct_hub_backend.Model.Events.{Command, Event, Transition}
use rct_hub_backend.Engine.Rules.{
  Step, referee_proxy_context, referee_proxy_captain_context, append_referee_proxy_event,
}
use rct_hub_backend.Engine.Play.{
  start_match, ban_pool_slot, place_piece, place_shiro, rob_piece, confirm_beatmap_result,
}
use rct_hub_backend.Engine.Clock.{
  grant_additional_time, calibrate_timer, pause_timer, resume_timer, suspend_match, resume_match,
  skip_current_action, abort_match,
}
use rct_hub_backend.Engine.Tiebreak.{
  request_tb, respond_tb_request, start_tb, confirm_tb_result, record_surrender,
}

-- refereeBanPoolSlot, refereePlacePiece, refereePlaceShiro and refereeRobPiece: the strategist's
-- command, by a proxy actor and at the proxy's time, and one more event.
unfoldable pub as_strategist : State → Actor → TeamSide → Text → Time → (Actor → Time → Step) → Step
as_strategist s actor acting_team reason now command = do
  (proxy, effective_now) ← referee_proxy_context s actor acting_team reason now
  append_referee_proxy_event (command proxy effective_now) acting_team reason

-- refereeRequestTB and refereeRespondTBRequest.
unfoldable pub as_captain : Actor → TeamSide → Text → (Actor → Step) → Step
as_captain actor acting_team reason command = do
  proxy ← referee_proxy_captain_context actor acting_team reason
  append_referee_proxy_event (command proxy) acting_team reason

-- The switch of Execute.
unfoldable pub dispatch : State → Actor → Command → Time → Step
dispatch s actor Command.start_match now = start_match s actor now
dispatch s actor (Command.ban_pool_slot slot) now = ban_pool_slot s actor slot now
dispatch s actor (Command.referee_ban_pool_slot team slot reason) now =
    as_strategist s actor team reason now (λ proxy time. ban_pool_slot s proxy slot time)
dispatch s actor (Command.place_piece slot piece cell) now = place_piece s actor slot piece cell now
dispatch s actor (Command.referee_place_piece team slot piece cell reason) now =
    as_strategist s actor team reason now (λ proxy time. place_piece s proxy slot piece cell time)
dispatch s actor (Command.place_shiro piece cell) now = place_shiro s actor piece cell now
dispatch s actor (Command.referee_place_shiro team piece cell reason) now =
    as_strategist s actor team reason now (λ proxy time. place_shiro s proxy piece cell time)
dispatch s actor (Command.rob_piece target sets) now = rob_piece s actor target sets now
dispatch s actor (Command.referee_rob_piece team target sets reason) now =
    as_strategist s actor team reason now (λ proxy time. rob_piece s proxy target sets time)
dispatch s actor (Command.grant_additional_time reason) now =
    grant_additional_time s actor reason now
dispatch s actor (Command.calibrate_timer remaining reason) now =
    calibrate_timer s actor remaining reason now
dispatch s actor (Command.pause_timer reason) now = pause_timer s actor reason now
dispatch s actor (Command.resume_timer reason) now = resume_timer s actor reason now
dispatch s actor (Command.suspend_match reason) now = suspend_match s actor reason now
dispatch s actor (Command.resume_match reason) now = resume_match s actor reason now
dispatch s actor (Command.skip_current_action reason) now = skip_current_action s actor reason now
dispatch s actor (Command.abort_match reason) now = abort_match s actor reason
dispatch s actor (Command.request_tb id basis) now = request_tb s actor id basis
dispatch s actor (Command.referee_request_tb team id basis reason) now =
    as_captain actor team reason (λ proxy. request_tb s proxy id basis)
dispatch s actor (Command.respond_tb_request id accept) now =
    respond_tb_request s actor id accept now
dispatch s actor (Command.referee_respond_tb_request team id accept reason) now =
    as_captain actor team reason (λ proxy. respond_tb_request s proxy id accept now)
dispatch s actor (Command.start_tb reason) now = start_tb s actor reason now
dispatch s actor (Command.confirm_tb_result team) now = confirm_tb_result s actor team
dispatch s actor (Command.record_surrender team ids reason) now =
    record_surrender s actor team ids reason
dispatch s actor (Command.confirm_beatmap_result piece team) now =
    confirm_beatmap_result s actor piece team now
dispatch s actor Command.unsupported now = err ErrorCode.invalid_request

-- The end of Execute: no accepted command is without events, and the version goes up by one.
unfoldable pub commit : State × List Event → Fallible Transition
commit (s, []) = err ErrorCode.invalid_request
commit (s, e ∷ events) =
    ok (record { state = record s { version = inc_u64 s.version }; events = e ∷ events })

unfoldable pub execute : State → Actor → Command → Time → Fallible Transition
execute s actor command now = dispatch s actor command now >>= commit
