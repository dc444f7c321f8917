-- ===== src/Recovery.antt =====
-- States that internal/matchengine/engine.go brings about and internal/matchengine/validation.go
-- rejects, so that a match stored in them cannot be recovered.
use rct_hub_backend.Base.{◌≡◌, ◌≢◌, false, some, Text, List, arith, ◌∷◌, []}
use rct_hub_backend.Base.Int.{pos}
use rct_hub_backend.Model.Kinds.{Phase}
use rct_hub_backend.Model.Errors.{ok, >>=-eq-ok}
use rct_hub_backend.Model.Timer.{Time, resume}
use rct_hub_backend.Model.State.{State, Actor, Cell, TbRequestState}
use rct_hub_backend.Model.Events.{Command, Event, Transition}
use rct_hub_backend.Engine.Play.{place_piece}
use rct_hub_backend.Engine.Clock.{resume_timer}
use rct_hub_backend.Engine.Execute.{execute, dispatch, commit}
use rct_hub_backend.Validation.{
  validate_state, validate_recovery_evidence, validate_turn_and_timer, valid_pending_request,
  valid_timer_shape,
}
use rct_hub_backend.Effects.Play.{place_piece-effect}
use rct_hub_backend.Effects.Clock.{resume_timer-effect}

commit_state :
    (r : State × List Event) {t : Transition}
    → commit r ≡ ok t
    → (t.state.phase ≡ r.0.phase)
      × (t.state.pending_tb_request ≡ r.0.pending_tb_request)
      × (t.state.timer ≡ r.0.timer)
unfolding commit
commit_state (s, []) h = cc
commit_state (s, e ∷ events) h = ground arith

waiting-pending :
    (s : State) (p : TbRequestState)
    → s.phase ≡ Phase.waiting_for_result
    → s.pending_tb_request ≡ some p
    → validate_state s ≡ false
unfolding validate_state validate_recovery_evidence valid_pending_request
waiting-pending s p h e = ground arith

empty_timer :
    (s : State) → s.timer.duration ≡ pos 0 → s.timer.started_at ≢ 0 → validate_state s ≡ false
unfolding validate_state validate_turn_and_timer valid_timer_shape
empty_timer s h e = ground arith

-- While a request for the tiebreaker is pending, an accepted PlacePiece leads to a state that
-- ValidateState rejects.
pub place_piece-pending :
    (s : State) (actor : Actor) (slot piece : Text) (cell : Cell) (now : Time) (p : TbRequestState)
    {t : Transition}
    → s.pending_tb_request ≡ some p
    → execute s actor (Command.place_piece slot piece cell) now ≡ ok t
    → validate_state t.state ≡ false
unfolding execute dispatch
place_piece-pending s actor slot piece cell now p {t} pending h =
    let (r, accepted, committed) = >>=-eq-ok (place_piece s actor slot piece cell now) commit h in
    let effect = place_piece-effect s actor now slot piece cell accepted in
    let (phase, same, _) = commit_state r committed in
    waiting-pending t.state p (ground (arith, effect)) (ground (arith, effect))

-- A timer that was paused with nothing left, resumed by ResumeTimer at any instant after Go's zero
-- time, leads to a state that ValidateState rejects.
pub resume_timer-empty :
    (s : State) (actor : Actor) (reason : Text) (now : Time) {t : Transition}
    → s.timer.remaining_at_pause ≡ pos 0
    → now ≢ 0
    → execute s actor (Command.resume_timer reason) now ≡ ok t
    → validate_state t.state ≡ false
unfolding execute dispatch resume
resume_timer-empty s actor reason now {t} nothing later h =
    let (r, accepted, committed) = >>=-eq-ok (resume_timer s actor reason now) commit h in
    let effect = resume_timer-effect s actor now reason accepted in
    let (_, _, same) = commit_state r committed in
    empty_timer t.state (ground (arith, effect)) (ground (arith, effect))
