-- ===== src/Engine/Terminal.antt =====
-- How internal/matchengine/engine.go enters the next pick, a tiebreaker or the end of the match.
use rct_hub_backend.Base.{
  zero, suc, false, not, ◌&&◌, ◌||◌, Bool, List, [], ◌∷◌, ◌++◌, none, some, get_or, ltb,
  if◌then◌else◌, ◌==◌, nat_Eq,
}
use rct_hub_backend.Base.Int.{ℤ, pos, negsuc, ltb_ℤ, inc64}
use rct_hub_backend.Model.Kinds.{
  TeamSide, Lifecycle, Phase, ResultReason, TbBasis, team_side_Eq, lifecycle_Eq, phase_Eq,
}
use rct_hub_backend.Model.Timer.{Time, zero_timer, running_timer}
use rct_hub_backend.Model.State.{MatchResult, State, opponent, final_ban_turn, first_pick_turn}
use rct_hub_backend.Model.Events.{EventType, Event, event, team_event}
use rct_hub_backend.Board.{has_four}
use rct_hub_backend.Engine.Analysis.{Analysis, analyze}
use rct_hub_backend.Engine.Robbery.{team_has_legal_robbery}

unfoldable pub finish_match : State → TeamSide → MatchResult → State
finish_match s winner result = record s {
  winner = some winner;
  result = some result;
  lifecycle = Lifecycle.finished;
  phase = Phase.none;
  active_team = TeamSide.unset;
  pending_piece_id = [];
  pending_tb_request = none;
  stalemate = none;
  suspension = none;
  abort_reason = [];
  timer = zero_timer;
}

-- Result{Winner: winner, Reason: reason}
abbrev pub won_result : TeamSide → ResultReason → MatchResult
won_result winner reason = record {
  winner = winner;
  reason = reason;
  surrendering_team = none;
  confirming_player_ids = [];
  red_won_count = 0;
  blue_won_count = 0;
}

unfoldable pub forced_tb_requirements_met : State → Bool
forced_tb_requirements_met s =
    not (ltb_ℤ s.turn (pos 15) || has_four s.board TeamSide.red || has_four s.board TeamSide.blue)
    && (get_or TeamSide.red s.robbery_used false
        || not (team_has_legal_robbery s.board TeamSide.red))
    && (get_or TeamSide.blue s.robbery_used false
        || not (team_has_legal_robbery s.board TeamSide.blue))

unfoldable pub should_force_tb : State → Bool
should_force_tb s =
    s.lifecycle == Lifecycle.running && s.phase == Phase.pick && forced_tb_requirements_met s

unfoldable pub start_forced_tb_preparation : State → Time → State × List Event
start_forced_tb_preparation s now =
    let basis : TbBasis = TbBasis.forced_after_robbery_checks in
    (
      record s {
        phase = Phase.tb_preparation;
        active_team = TeamSide.unset;
        pending_tb_request = none;
        tb_entry = some (record { basis = basis; request_id = []; requested_by = TeamSide.unset });
        timer = running_timer now s.timers.tb_preparation;
      },
      record (event EventType.tb_forced) { basis = basis }
          ∷ record (event EventType.tb_preparation_started) { basis = basis }
          ∷ event EventType.timer_started
          ∷ [],
    )

-- The first step of enterPickOrTerminal: a request that is still open after turn 14 expires.
unfoldable pub expire_tb_request : State → State × List Event
expire_tb_request s = elim s.pending_tb_request [
  | none ↦ (s, [])
  | some pending ↦
      if ltb_ℤ (pos 14) s.turn
      then (
        record s { pending_tb_request = none },
        record (team_event EventType.tb_request_expired pending.requested_by) {
          request_id = pending.id;
          basis = pending.basis;
        }
            ∷ [],
      )
      else (s, [])
]

-- The last part of enterPickOrTerminal, for a stalemate.
unfoldable pub end_in_stalemate : State → Analysis → State × List Event
unfolding finish_match
end_in_stalemate s₀ analysis =
    let red = analysis.won_counts TeamSide.red in
    let blue = analysis.won_counts TeamSide.blue in
    let s = record s₀ { timer = zero_timer; pending_tb_request = none } in
    let winner : TeamSide = if ltb red blue then TeamSide.blue else TeamSide.red in
    if red == blue
    then (
      record s {
        lifecycle = Lifecycle.adjudication_required;
        phase = Phase.none;
        active_team = TeamSide.unset;
        stalemate = some (record { red_won_count = red; blue_won_count = blue });
      },
      event EventType.stalemate_detected ∷ event EventType.adjudication_required ∷ [],
    )
    else (
      finish_match s winner (record (won_result winner ResultReason.stalemate_won_count) {
        red_won_count = red;
        blue_won_count = blue;
      }),
      event EventType.stalemate_detected ∷ team_event EventType.match_finished winner ∷ [],
    )

-- The rest of enterPickOrTerminal, once an open request may have expired.
unfoldable pub pick_or_terminal : State → Time → State × List Event
pick_or_terminal s now =
    let analysis = analyze s in
    if should_force_tb s
    then start_forced_tb_preparation s now
    else if analysis.stalemate
    then end_in_stalemate s analysis
    else (record s { timer = running_timer now s.timers.pick }, event EventType.timer_started ∷ [])

unfoldable pub enter_pick_or_terminal : State → Time → State × List Event
enter_pick_or_terminal s₀ now =
    let (s, expired) = expire_tb_request (record s₀ { phase = Phase.pick }) in
    let (s', events) = pick_or_terminal s now in (s', expired ++ events)

abbrev ban_team : TeamSide → TeamSide → ℤ → TeamSide
ban_team first_ban active (negsuc (suc zero)) = opponent first_ban
ban_team first_ban active (negsuc zero) = opponent first_ban
ban_team first_ban active (pos zero) = first_ban
ban_team first_ban active _ = active

-- What banPoolSlot and skipCurrentAction both do after a ban turn.
unfoldable pub advance_ban : State → Time → State × List Event
advance_ban s now =
    let turn = inc64 s.turn in
    let team = ban_team s.first_ban s.active_team turn in
    let (s', events) =
      enter_pick_or_terminal (record s { turn = first_pick_turn; active_team = s.first_pick })
        now in
    if ltb_ℤ final_ban_turn turn
    then (
      s',
      team_event EventType.turn_advanced s.first_pick
          ∷ team_event EventType.pick_phase_started s.first_pick
          ∷ events,
    )
    else (
      record s { turn = turn; active_team = team; timer = running_timer now s.timers.ban },
      team_event EventType.turn_advanced team ∷ event EventType.timer_started ∷ [],
    )
