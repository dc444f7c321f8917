-- ===== src/Frame/Terminal.antt =====
-- The ends of a turn.
use rct_hub_backend.Base.{Bool, Map, Text, arith, suc, ◌≤◌}
use rct_hub_backend.Base.Int.{pos, pos_part, inc64}
use rct_hub_backend.Model.Kinds.{TeamSide, Phase}
use rct_hub_backend.Model.Timer.{Time}
use rct_hub_backend.Model.State.{State, Board, PoolSlot}
use rct_hub_backend.Engine.Rules.{pick_team}
use rct_hub_backend.Engine.Analysis.{Analysis, analyze}
use rct_hub_backend.Engine.Terminal.{
  start_forced_tb_preparation, expire_tb_request, end_in_stalemate, pick_or_terminal,
  enter_pick_or_terminal, advance_ban,
}
use rct_hub_backend.Engine.Play.{after_robbery, after_result}
use rct_hub_backend.Engine.Clock.{skip_turn, suspend_again}
use rct_hub_backend.Frame.Defs.{IsStep, IsStill}

expire-IsStill : (s : State) → IsStill s (expire_tb_request s).0
unfolding expire_tb_request
expire-IsStill s = ground arith

stalemate-IsStill : (s : State) (analysis : Analysis) → IsStill s (end_in_stalemate s analysis).0
unfolding end_in_stalemate
stalemate-IsStill s analysis = ground arith

module _ (s : State) (now : Time) where
  pub forced-IsStill : IsStill s (start_forced_tb_preparation s now).0
  unfolding start_forced_tb_preparation
  forced-IsStill = ground arith

  pick_or_terminal-IsStill : IsStill s (pick_or_terminal s now).0
  unfolding pick_or_terminal
  pick_or_terminal-IsStill = ground (arith, forced-IsStill, stalemate-IsStill s (analyze s))

pub enter-IsStill : (s : State) (now : Time) → IsStill s (enter_pick_or_terminal s now).0
unfolding enter_pick_or_terminal
enter-IsStill s now =
    let picking : State = record s { phase = Phase.pick } in
    ground
      (arith, expire-IsStill picking, pick_or_terminal-IsStill (expire_tb_request picking).0 now)

pub advance_ban-IsStep : (s : State) (now : Time) → IsStep s (advance_ban s now).0
unfolding advance_ban inc64
advance_ban-IsStep s now =
    let next : State = record s { turn = pos 1; active_team = s.first_pick } in
    ground (arith, enter-IsStill next now)

-- The turn after a pick.
module _ (s : State) (now : Time) where
  next_turn : State
  next_turn = record s { turn = inc64 s.turn; active_team = pick_team s.first_pick (inc64 s.turn) }

  pub inc64-le : pos_part (inc64 s.turn) ≤ suc (pos_part s.turn)
  unfolding inc64
  inc64-le = ground arith

  pub after_result-IsStep : (team : TeamSide) → IsStep s (after_result s team now).0
  unfolding after_result next_turn
  after_result-IsStep team = ground (arith, enter-IsStill next_turn now, inc64-le)

  pub after_robbery-IsStill : (team : TeamSide) → IsStill s (after_robbery s team now).0
  unfolding after_robbery
  after_robbery-IsStill team = ground (arith, forced-IsStill s now)

  pub skip_turn-IsStep : IsStep s (skip_turn s now).0
  unfolding skip_turn next_turn
  skip_turn-IsStep = ground (arith, enter-IsStill next_turn now, inc64-le, advance_ban-IsStep s now)

pub suspend_again-IsStill :
    (was_suspended : Bool) (s : State) (reason : Text) (now : Time)
    → IsStill s (suspend_again was_suspended s reason now).0
unfolding suspend_again
suspend_again-IsStill was_suspended s reason now = ground arith

pub ban-IsStep :
    (s : State) (now : Time) (pool : Map Text PoolSlot)
    → IsStep s (advance_ban (record s { pool_slots = pool }) now).0
ban-IsStep s now pool = ground (arith, advance_ban-IsStep (record s { pool_slots = pool }) now)

pub shiro-IsStep :
    (s : State) (now : Time) (board : Board) (pool : Map Text PoolSlot)
    → IsStep s
        (enter_pick_or_terminal
          (record s {
            board = board;
            pool_slots = pool;
            turn = inc64 s.turn;
            active_team = pick_team s.first_pick (inc64 s.turn);
          })
          now).0
shiro-IsStep s now board pool =
    let placed : State = record s {
      board = board;
      pool_slots = pool;
      turn = inc64 s.turn;
      active_team = pick_team s.first_pick (inc64 s.turn);
    } in
    ground (arith, enter-IsStill placed now, inc64-le s now)
