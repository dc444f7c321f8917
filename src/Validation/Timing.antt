-- ===== src/Validation/Timing.antt =====
-- validateTurnAndTimer, validateTimerShape, validateActivePhase and validateSideFlags.
use rct_hub_backend.Base.{
  Bool, true, false, not, ◌&&◌, ◌||◌, [], ◌∷◌, Map, lookup, is_some, if◌then◌else◌, ◌==◌, nat_Eq,
}
use rct_hub_backend.Base.Int.{ℤ, pos, ltb_ℤ, leb_ℤ, int_Eq}
use rct_hub_backend.Model.Kinds.{TeamSide, Lifecycle, Phase, team_side_Eq}
use rct_hub_backend.Model.Timer.{Timer, zero_time}
use rct_hub_backend.Model.State.{
  State, side_valid, opponent, ready_turn, first_ban_turn, second_ban_turn, third_ban_turn,
  final_ban_turn, first_pick_turn,
}
use rct_hub_backend.Engine.Rules.{pick_team}

unfoldable pub valid_timer_shape : Timer → Bool
valid_timer_shape t =
    not (ltb_ℤ t.duration (pos 0) || ltb_ℤ t.remaining_at_pause (pos 0))
    && (if t.duration == pos 0
        then t.started_at == zero_time && not t.paused && t.remaining_at_pause == pos 0
        else not (t.started_at == zero_time)
          && (if t.paused
              then leb_ℤ t.remaining_at_pause t.duration
              else t.remaining_at_pause == pos 0))

abbrev pub requires_timer : Phase → Bool
requires_timer Phase.ban = true
requires_timer Phase.pick = true
requires_timer Phase.waiting_for_result = true
requires_timer Phase.tb_preparation = true
requires_timer _ = false

-- The team whose ban the turn is.
abbrev pub expected_ban_team : TeamSide → ℤ → TeamSide
expected_ban_team first_ban turn =
    if turn == second_ban_turn || turn == third_ban_turn then opponent first_ban else first_ban

abbrev pub valid_idle_turn : Lifecycle → ℤ → Bool
valid_idle_turn Lifecycle.ready turn = turn == ready_turn
valid_idle_turn Lifecycle.adjudication_required turn = leb_ℤ first_pick_turn turn
valid_idle_turn Lifecycle.finished turn = leb_ℤ first_ban_turn turn
valid_idle_turn Lifecycle.aborted turn = leb_ℤ first_ban_turn turn
valid_idle_turn _ turn = true

-- The switch of validateTurnAndTimer.
abbrev pub valid_turn :
    Phase → Lifecycle → (first_ban first_pick : TeamSide) → ℤ → (active : TeamSide) → Bool
valid_turn Phase.none lifecycle first_ban first_pick turn active = valid_idle_turn lifecycle turn
valid_turn Phase.ban lifecycle first_ban first_pick turn active =
    leb_ℤ first_ban_turn turn
    && leb_ℤ turn final_ban_turn
    && active == expected_ban_team first_ban turn
valid_turn Phase.pick lifecycle first_ban first_pick turn active =
    leb_ℤ first_pick_turn turn && active == pick_team first_pick turn
valid_turn Phase.waiting_for_result lifecycle first_ban first_pick turn active =
    leb_ℤ first_pick_turn turn && active == pick_team first_pick turn
valid_turn Phase.tb_preparation lifecycle first_ban first_pick turn active =
    leb_ℤ first_pick_turn turn
valid_turn Phase.tb_playing lifecycle first_ban first_pick turn active = leb_ℤ first_pick_turn turn
valid_turn Phase.unknown lifecycle first_ban first_pick turn active = true

unfoldable pub validate_turn_and_timer : State → Bool
validate_turn_and_timer s =
    valid_timer_shape s.timer
    && valid_turn s.phase s.lifecycle s.first_ban s.first_pick s.turn s.active_team
    && (if requires_timer s.phase
        then ltb_ℤ (pos 0) s.timer.duration
        else s.timer.duration == pos 0)

abbrev pub is_valid_active_phase : Phase → TeamSide → Bool
is_valid_active_phase Phase.ban team = side_valid team
is_valid_active_phase Phase.pick team = side_valid team
is_valid_active_phase Phase.waiting_for_result team = side_valid team
is_valid_active_phase Phase.tb_preparation team = team == TeamSide.unset
is_valid_active_phase Phase.tb_playing team = team == TeamSide.unset
is_valid_active_phase _ team = false

unfoldable pub validate_active_phase : State → Bool
validate_active_phase s = is_valid_active_phase s.phase s.active_team

abbrev keys_valid : Map TeamSide Bool → Bool
keys_valid [] = true
keys_valid ((side, _) ∷ flags) = side_valid side && keys_valid flags

unfoldable pub validate_side_flags : Map TeamSide Bool → Bool
validate_side_flags flags =
    is_some (lookup TeamSide.red flags) && is_some (lookup TeamSide.blue flags) && keys_valid flags
