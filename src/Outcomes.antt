-- ===== src/Outcomes.antt =====
-- How commands of internal/matchengine/engine.go end a match.
use rct_hub_backend.Base.{
  ◌≡◌, ◌↔◌, true, false, Bool, some, none, Text, List, [], ◌∙◌, arith, insert, subst, sym,
}
use rct_hub_backend.Model.Kinds.{TeamSide, Lifecycle, Phase, ResultReason, team_side_Eq}
use rct_hub_backend.Model.Errors.{ok}
use rct_hub_backend.Model.Timer.{Time}
use rct_hub_backend.Model.State.{State, Actor}
use rct_hub_backend.Model.Events.{Command, Event, Transition}
use rct_hub_backend.Board.{has_four, set_owner}
use rct_hub_backend.Base.Int.{inc64}
use rct_hub_backend.Engine.Rules.{pick_team}
use rct_hub_backend.Engine.Terminal.{
  won_result, start_forced_tb_preparation, pick_or_terminal, end_in_stalemate, finish_match,
  enter_pick_or_terminal, expire_tb_request,
}
use rct_hub_backend.Engine.Play.{confirm_beatmap_result, rob_piece, after_robbery, after_result}
use rct_hub_backend.Engine.Execute.{execute}
use rct_hub_backend.Effects.Play.{rob_piece-effect, confirm_beatmap_result-effect}
use rct_hub_backend.Access.Laws.{execute-IsAllowed}
use rct_hub_backend.Access.Commands

-- A match that is decided, aborted or left to adjudication.
unfoldable pub is_over : Lifecycle → Bool
is_over Lifecycle.finished = true
is_over Lifecycle.aborted = true
is_over Lifecycle.adjudication_required = true
is_over _ = false

-- A match that is finished, aborted or left to adjudication accepts no command, whoever issues it.
pub execute-is_over :
    (s : State) (actor : Actor) (c : Command) (now : Time) (t : Transition)
    → is_over s.lifecycle ≡ true
    → ¬ (execute s actor c now ≡ ok t)
unfolding is_over
execute-is_over s actor c now t over h = ground (arith, execute-IsAllowed s actor c now h)

-- The match is won by the team with four in a line.
abbrev pub IsFourWin : State → TeamSide → Type 0
IsFourWin s team =
    (s.lifecycle ≡ Lifecycle.finished)
    × (s.winner ≡ some team)
    × (s.result ≡ some (won_result team ResultReason.four_alignment))

pick_or_terminal-result :
    (s : State) (now : Time) (team : TeamSide)
    → s.result ≡ none
    → ((pick_or_terminal s now).0.board ≡ s.board)
      × ¬ ((pick_or_terminal s now).0.result ≡ some (won_result team ResultReason.four_alignment))
unfolding pick_or_terminal end_in_stalemate start_forced_tb_preparation finish_match
pick_or_terminal-result s now team fresh = ground arith

expire_tb_request-keeps :
    (s : State)
    → ((expire_tb_request s).0.board ≡ s.board) × ((expire_tb_request s).0.result ≡ s.result)
unfolding expire_tb_request
expire_tb_request-keeps s = ground arith

enter_pick_or_terminal-result :
    (s : State) (now : Time) (team : TeamSide)
    → s.result ≡ none
    → ((enter_pick_or_terminal s now).0.board ≡ s.board)
      × ¬ (
          (enter_pick_or_terminal s now).0.result
          ≡ some (won_result team ResultReason.four_alignment))
unfolding enter_pick_or_terminal
enter_pick_or_terminal-result s now team fresh =
    let picking : State = record s { phase = Phase.pick } in
    let (board, result) = expire_tb_request-keeps picking in
    let (same, other) =
      pick_or_terminal-result (expire_tb_request picking).0 now team (result ∙ fresh) in
    (same ∙ board, other)

after_result-has_four :
    (s : State) (team : TeamSide) (now : Time)
    → s.result ≡ none
    → ((after_result s team now).0.board ≡ s.board)
      × (IsFourWin (after_result s team now).0 team ↔ (has_four s.board team ≡ true))
unfolding after_result finish_match
after_result-has_four s team now fresh =
    let next = pick_team s.first_pick (inc64 s.turn) in
    let later =
      enter_pick_or_terminal-result (record s { turn = inc64 s.turn; active_team = next }) now team
        fresh in
    ground (arith, later)

-- A confirmed result gives the piece to the team; and if the match had no result yet, the match is then
-- finished and won by that team with four in a line if and only if the team has four in a line.
pub confirm_beatmap_result-has_four :
    (s : State) (actor : Actor) (piece : Text) (team : TeamSide) (now : Time)
    {r : State × List Event}
    → s.result ≡ none
    → confirm_beatmap_result s actor piece team now ≡ ok r
    → (set_owner piece team s.board ≡ some r.0.board)
      × (IsFourWin r.0 team ↔ (has_four r.0.board team ≡ true))
confirm_beatmap_result-has_four s actor piece team now {r} fresh h =
    let (_, board, owned, e) = confirm_beatmap_result-effect s actor now piece team h in
    let (same, four) =
      after_result-has_four (record s { board = board; pending_piece_id = [] }) team now fresh in
    rw e (rw same (owned, four))

forced_keeps :
    (s : State) (now : Time)
    → ((start_forced_tb_preparation s now).0.lifecycle ≡ s.lifecycle)
      × ((start_forced_tb_preparation s now).0.board ≡ s.board)
unfolding start_forced_tb_preparation
forced_keeps s now = ground arith

robbed_lifecycle :
    (s : State) (team : TeamSide) (now : Time)
    → s.lifecycle ≡ Lifecycle.running
    → ((after_robbery s team now).0.lifecycle ≡ Lifecycle.finished)
      ↔ (has_four (after_robbery s team now).0.board team ≡ true)
unfolding after_robbery start_forced_tb_preparation
robbed_lifecycle s team now h = ground arith

-- A robbery finishes the match if and only if the robbing team has a line of four after it.
pub rob_piece-has_four :
    (s : State) (actor : Actor) (target : Text) (sets : List (List Text)) (now : Time)
    {r : State × List Event}
    → rob_piece s actor target sets now ≡ ok r
    → (r.0.lifecycle ≡ Lifecycle.finished) ↔ (has_four r.0.board s.active_team ≡ true)
rob_piece-has_four s actor target sets now h =
    let (_, _, _, _, _, board, _, e) = rob_piece-effect s actor now target sets h in
    let allowed = Commands.rob_piece-IsAllowed s actor now target sets h in
    let robbed : State = record s {
      board = board;
      robbery_used = insert s.active_team true s.robbery_used;
    } in
    subst (λ u. (u.lifecycle ≡ Lifecycle.finished) ↔ (has_four u.board s.active_team ≡ true))
      (sym e) (robbed_lifecycle robbed s.active_team now (ground (arith, allowed)))
