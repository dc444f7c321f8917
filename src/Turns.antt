-- ===== src/Turns.antt =====
-- How a turn of internal/matchengine/engine.go ends.
use rct_hub_backend.Base.{◌≡◌, false, List, Text, refl, ap, ◌∙◌, arith}
use rct_hub_backend.Base.Int.{inc64}
use rct_hub_backend.Model.Kinds.{TeamSide, ResultReason}
use rct_hub_backend.Model.Errors.{ok}
use rct_hub_backend.Model.Timer.{Time, Timer, running_timer}
use rct_hub_backend.Model.State.{State, Actor, MatchResult}
use rct_hub_backend.Model.Events.{Event}
use rct_hub_backend.Engine.Analysis.{Analysis, analyze}
use rct_hub_backend.Engine.Rules.{pick_team}
use rct_hub_backend.Engine.Terminal.{
  should_force_tb, forced_tb_requirements_met, start_forced_tb_preparation, end_in_stalemate,
  pick_or_terminal, enter_pick_or_terminal, finish_match, won_result,
}
use rct_hub_backend.Engine.Play.{rob_piece, confirm_beatmap_result, after_robbery, after_result}
use rct_hub_backend.Effects.Play.{rob_piece-effect, confirm_beatmap_result-effect}

-- The timer does not matter to the tiebreaker.
timer-forced :
    (s : State) (t : Timer) → should_force_tb (record s { timer = t }) ≡ should_force_tb s
unfolding should_force_tb forced_tb_requirements_met
timer-forced s t = refl

forced-started :
    (s : State) (now : Time) → should_force_tb (start_forced_tb_preparation s now).0 ≡ false
unfolding should_force_tb start_forced_tb_preparation
forced-started s now = ground arith

stalemate-started : (s : State) (a : Analysis) → should_force_tb (end_in_stalemate s a).0 ≡ false
unfolding should_force_tb end_in_stalemate
stalemate-started s a = ground arith

pick_or_terminal-forced :
    (s : State) (now : Time) → should_force_tb (pick_or_terminal s now).0 ≡ false
unfolding pick_or_terminal
pick_or_terminal-forced s now = ground (
  arith,
  forced-started s now,
  stalemate-started s (analyze s),
  timer-forced s (running_timer now s.timers.pick),
)

finished_forced :
    (s : State) (team : TeamSide) (result : MatchResult)
    → should_force_tb (finish_match s team result) ≡ false
unfolding should_force_tb finish_match
finished_forced s team result = ground arith

-- Whatever the state in which a turn ends, enterPickOrTerminal never leaves the match in a pick for
-- which the tiebreaker is forced.
pub enter_pick_or_terminal-forced :
    (s : State) (now : Time) → should_force_tb (enter_pick_or_terminal s now).0 ≡ false
unfolding enter_pick_or_terminal
enter_pick_or_terminal-forced s now = pick_or_terminal-forced _ now

after_robbery-forced :
    (s : State) (team : TeamSide) (now : Time)
    → should_force_tb (after_robbery s team now).0 ≡ false
unfolding after_robbery
after_robbery-forced s team now = ground (
  arith,
  forced-started s now,
  finished_forced s team (won_result team ResultReason.four_alignment),
)

after_result-forced :
    (s : State) (team : TeamSide) (now : Time) → should_force_tb (after_result s team now).0 ≡ false
unfolding after_result
after_result-forced s team now = ground (
  arith,
  enter_pick_or_terminal-forced
      (record s { turn = inc64 s.turn; active_team = pick_team s.first_pick (inc64 s.turn) }) now,
  finished_forced s team (won_result team ResultReason.four_alignment),
)

-- An accepted RobPiece never leaves the match in a pick for which the tiebreaker is forced.
pub rob_piece-forced :
    (s : State) (actor : Actor) (target : Text) (sets : List (List Text)) (now : Time)
    {r : State × List Event}
    → rob_piece s actor target sets now ≡ ok r
    → should_force_tb r.0 ≡ false
rob_piece-forced s actor target sets now h =
    let (_, _, _, _, _, _, _, e) = rob_piece-effect s actor now target sets h in
    ap should_force_tb e ∙ after_robbery-forced _ s.active_team now

-- An accepted ConfirmBeatmapResult never leaves the match in a pick for which the tiebreaker is
-- forced.
pub confirm_beatmap_result-forced :
    (s : State) (actor : Actor) (piece : Text) (team : TeamSide) (now : Time)
    {r : State × List Event}
    → confirm_beatmap_result s actor piece team now ≡ ok r
    → should_force_tb r.0 ≡ false
confirm_beatmap_result-forced s actor piece team now h =
    let (_, _, _, e) = confirm_beatmap_result-effect s actor now piece team h in
    ap should_force_tb e ∙ after_result-forced _ team now
