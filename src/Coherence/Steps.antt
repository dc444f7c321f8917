-- ===== src/Coherence/Steps.antt =====
-- What the handlers of internal/matchengine/engine.go do to a running match keeps it coherent.
use rct_hub_backend.Base.{
  ◌≡◌, ◌≢◌, ◌⊎◌, inl, inr, refl, Bool, Bool-cases, true, false, Text, arith, is_empty, [], none,
  Map,
}
use rct_hub_backend.Base.Int.{pos, inc64, ◌≤ℤ◌, max_int64}
use rct_hub_backend.Model.Kinds.{TeamSide, Lifecycle, Phase, ResultReason}
use rct_hub_backend.Model.Timer.{Time, pause, zero_timer}
use rct_hub_backend.Model.State.{State, Board, PoolSlot, MatchResult, side_valid}
use rct_hub_backend.Board.{has_four}
use rct_hub_backend.Engine.Rules.{pick_team}
use rct_hub_backend.Engine.Terminal.{
  finish_match, won_result, should_force_tb, enter_pick_or_terminal, advance_ban,
}
use rct_hub_backend.Engine.Play.{after_robbery, after_result}
use rct_hub_backend.Engine.Clock.{skip_turn, suspend_again}
use rct_hub_backend.Validation.{valid_lifecycle_data}
use rct_hub_backend.Coherence.Defs.{IsPickReady, IsStarted, IsRunning, IsRunning-IsStarted}
use rct_hub_backend.Coherence.Terminal.{
  start_forced-IsStarted, enter_pick_or_terminal-IsStarted, IsBanReady, advance_ban-IsStarted,
}

module _ (s : State) (now : Time) (c : IsRunning s) where
  pub finish_match-IsStarted :
      (team : TeamSide) (result : MatchResult)
      → side_valid team ≡ true
      → result.winner ≡ team
      → IsStarted (finish_match s team result)
  unfolding finish_match valid_lifecycle_data
  finish_match-IsStarted team result v w = ground arith

  pub abort-IsStarted :
      (reason : Text)
      → is_empty reason ≡ false
      → IsStarted (record s {
        lifecycle = Lifecycle.aborted;
        phase = Phase.none;
        active_team = TeamSide.unset;
        pending_piece_id = [];
        pending_tb_request = none;
        suspension = none;
        timer = zero_timer;
        abort_reason = reason;
      })
  unfolding valid_lifecycle_data
  abort-IsStarted reason v = ground arith

  -- The state in which the turn after a pick begins.
  next_turn-IsPickReady :
      s.turn ≢ pos max_int64
      → pos 1 ≤ℤ s.turn
      → IsPickReady
          (record s { turn = inc64 s.turn; active_team = pick_team s.first_pick (inc64 s.turn) })
  unfolding inc64
  next_turn-IsPickReady fits h = ground arith

  pick-IsPickReady : s.phase ≡ Phase.pick → IsPickReady s
  pick-IsPickReady p = ground arith

  late_turn : (s.phase ≡ Phase.waiting_for_result) ⊎ (s.phase ≡ Phase.pick) → pos 1 ≤ℤ s.turn
  late_turn p = ground arith

  active_valid :
      (s.phase ≡ Phase.waiting_for_result) ⊎ (s.phase ≡ Phase.pick)
      → side_valid s.active_team ≡ true
  active_valid p = ground arith

  ban-IsBanReady : s.phase ≡ Phase.ban → IsBanReady s
  ban-IsBanReady p = ground arith

  pub after_result-IsStarted :
      (team : TeamSide)
      → s.turn ≢ pos max_int64
      → s.phase ≡ Phase.waiting_for_result
      → side_valid team ≡ true
      → IsStarted (after_result s team now).0
  unfolding after_result
  after_result-IsStarted team fits p v =
      let ready = next_turn-IsPickReady fits (late_turn (inl p)) in
      let finished =
        finish_match-IsStarted team (won_result team ResultReason.four_alignment) v refl in
      let entered = enter_pick_or_terminal-IsStarted _ now ready in
      elim (Bool-cases (has_four s.board team)) [
        | inl four ↦ rw four finished
        | inr other ↦ rw other entered
      ]

  pub after_robbery-IsStarted :
      s.phase ≡ Phase.pick → IsStarted (after_robbery s s.active_team now).0
  unfolding after_robbery
  after_robbery-IsStarted p =
      let team = s.active_team in
      let finished =
        finish_match-IsStarted team (won_result team ResultReason.four_alignment)
          (active_valid (inr p)) refl in
      let forced = start_forced-IsStarted s now (pick-IsPickReady p) in
      elim (Bool-cases (has_four s.board team)) [
        | inl four ↦ rw four finished
        | inr other ↦ rw other (elim (Bool-cases (should_force_tb s)) [
          | inl force ↦ rw force forced
          | inr play ↦ rw play (IsRunning-IsStarted s c)
        ])
      ]

  pub place_shiro-IsStarted :
      (board : Board) (pool : Map Text PoolSlot)
      → s.turn ≢ pos max_int64
      → s.phase ≡ Phase.pick
      → IsStarted
          (enter_pick_or_terminal
            (record s {
              board = board;
              pool_slots = pool;
              turn = inc64 s.turn;
              active_team = pick_team s.first_pick (inc64 s.turn);
            })
            now).0
  place_shiro-IsStarted board pool fits p =
      enter_pick_or_terminal-IsStarted _ now
        (ground (arith, next_turn-IsPickReady fits (late_turn (inr p))))

  pub ban-IsStarted :
      (pool : Map Text PoolSlot)
      → s.phase ≡ Phase.ban
      → IsStarted (advance_ban (record s { pool_slots = pool }) now).0
  ban-IsStarted pool p = advance_ban-IsStarted _ now (ground (arith, ban-IsBanReady p))

  pub skip_turn-IsStarted :
      s.turn ≢ pos max_int64
      → (s.phase ≡ Phase.ban) ⊎ (s.phase ≡ Phase.pick)
      → IsStarted (skip_turn s now).0
  unfolding skip_turn enter_pick_or_terminal
  skip_turn-IsStarted fits (inl p) = simp p (advance_ban-IsStarted s now (ban-IsBanReady p))
  skip_turn-IsStarted fits (inr p) =
      simp p
        (enter_pick_or_terminal-IsStarted _ now (next_turn-IsPickReady fits (late_turn (inr p))))

pub suspend_again-IsStarted :
    (was_suspended : Bool) (s : State) (reason : Text) (now : Time)
    → IsStarted s
    → IsStarted (suspend_again was_suspended s reason now).0
unfolding suspend_again pause valid_lifecycle_data
suspend_again-IsStarted was_suspended s reason now c = ground arith
