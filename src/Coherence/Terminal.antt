-- ===== src/Coherence/Terminal.antt =====
-- The ends of a turn lead to coherent states.
use rct_hub_backend.Base.{◌≡◌, true, false, arith, is_some}
use rct_hub_backend.Base.Int.{ℤ, pos, negsuc, inc64, ◌≤ℤ◌}
use rct_hub_backend.Model.Kinds.{TeamSide, Lifecycle, Phase}
use rct_hub_backend.Model.Timer.{Time}
use rct_hub_backend.Model.State.{State, side_valid}
use rct_hub_backend.Engine.Rules.{pick_team}
use rct_hub_backend.Engine.Analysis.{Analysis, analyze}
use rct_hub_backend.Engine.Terminal.{
  start_forced_tb_preparation, end_in_stalemate, pick_or_terminal, expire_tb_request,
  enter_pick_or_terminal, advance_ban,
}
use rct_hub_backend.Validation.{valid_lifecycle_data, is_undecided}
use rct_hub_backend.Coherence.Defs.{IsPickReady, IsStarted}

pub pick_team_valid :
    (first : TeamSide) (turn : ℤ)
    → side_valid first ≡ true
    → side_valid (pick_team first turn) ≡ true
unfolding pick_team
pick_team_valid first turn h = ground arith

module _ (s : State) (now : Time) where
  pub start_forced-IsStarted : IsPickReady s → IsStarted (start_forced_tb_preparation s now).0
  unfolding start_forced_tb_preparation valid_lifecycle_data
  start_forced-IsStarted h = ground arith

  pub end_in_stalemate-IsStarted :
      (analysis : Analysis) → IsPickReady s → IsStarted (end_in_stalemate s analysis).0
  unfolding end_in_stalemate valid_lifecycle_data
  end_in_stalemate-IsStarted analysis h = ground arith

  pub pick_or_terminal-IsStarted :
      IsPickReady s → s.phase ≡ Phase.pick → IsStarted (pick_or_terminal s now).0
  unfolding pick_or_terminal valid_lifecycle_data
  pick_or_terminal-IsStarted h p = ground (
    arith,
    start_forced-IsStarted h,
    end_in_stalemate-IsStarted (analyze s) h,
    pick_team_valid s.first_pick s.turn h.first_pick,
  )

expire_tb_request-IsPickReady :
    (s : State)
    → IsPickReady s
    → IsPickReady (expire_tb_request s).0 × ((expire_tb_request s).0.phase ≡ s.phase)
unfolding expire_tb_request
expire_tb_request-IsPickReady s h = ground arith

pub enter_pick_or_terminal-IsStarted :
    (s : State) (now : Time) → IsPickReady s → IsStarted (enter_pick_or_terminal s now).0
unfolding enter_pick_or_terminal
enter_pick_or_terminal-IsStarted s now h =
    let picking : State = record s { phase = Phase.pick } in
    let ready : IsPickReady picking = ground arith in
    let (ready', phase) = expire_tb_request-IsPickReady picking ready in
    pick_or_terminal-IsStarted (expire_tb_request picking).0 now ready' phase

-- A ban phase in its turns, with the team to ban.
pub record IsBanReady (s : State) : Type 0 where
  pub first_ban : side_valid s.first_ban ≡ true
  pub first_pick : side_valid s.first_pick ≡ true
  pub running : s.lifecycle ≡ Lifecycle.running
  pub phase : s.phase ≡ Phase.ban
  pub undecided : is_undecided s ≡ true
  pub not_suspended : is_some s.suspension ≡ false
  pub early : negsuc 2 ≤ℤ s.turn
  pub late : s.turn ≤ℤ pos 0

pub advance_ban-IsStarted :
    (s : State) (now : Time) → IsBanReady s → IsStarted (advance_ban s now).0
unfolding advance_ban inc64 valid_lifecycle_data
advance_ban-IsStarted s now h =
    let picking : State = record s { turn = pos 1; active_team = s.first_pick } in
    let ready : s.lifecycle ≡ Lifecycle.running → IsPickReady picking =
      λ _. unfold pick_team in ground arith in
    ground (arith, enter_pick_or_terminal-IsStarted picking now, ready h.running)
