-- ===== src/Validation/Main.antt =====
-- validateLifecycleState and ValidateState.
use rct_hub_backend.Base.{
  Bool, true, false, not, ◌&&◌, ◌||◌, Text, [], ◌∷◌, Option, none, some, Map, get_or, is_some,
  is_empty, if◌then◌else◌, ◌==◌, nat_Eq,
}
use rct_hub_backend.Base.Int.{pos, ltb_ℤ}
use rct_hub_backend.Model.Kinds.{
  TeamSide, Lifecycle, Phase, PoolSlotState, team_side_Eq, lifecycle_Eq, phase_Eq,
  pool_slot_state_Eq,
}
use rct_hub_backend.Model.Errors.{Fallible, ok, err}
use rct_hub_backend.Model.Timer.{timers_valid}
use rct_hub_backend.Model.State.{PoolSlot, Board, MatchResult, SuspensionState, State, side_valid}
use rct_hub_backend.Setup.{validate_rosters}
use rct_hub_backend.Validation.Timing.{
  validate_turn_and_timer, validate_active_phase, validate_side_flags,
}
use rct_hub_backend.Validation.Pieces.{validate_pool_and_board}
use rct_hub_backend.Validation.Evidence.{validate_recovery_evidence}

abbrev valid_lifecycle : Lifecycle → Bool
valid_lifecycle Lifecycle.unknown = false
valid_lifecycle _ = true

abbrev valid_phase : Phase → Bool
valid_phase Phase.unknown = false
valid_phase _ = true

-- No winner, result, stalemate evidence or abort reason.
abbrev pub is_undecided : State → Bool
is_undecided s =
    not (is_some s.winner)
    && not (is_some s.result)
    && not (is_some s.stalemate)
    && is_empty s.abort_reason

unfoldable pub all_available : Map Text PoolSlot → Bool
all_available [] = true
all_available ((_, slot) ∷ m) = slot.state == PoolSlotState.available && all_available m

abbrev is_empty_board : Board → Bool
is_empty_board [] = true
is_empty_board (_ ∷ _) = false

abbrev valid_suspended : State → Option SuspensionState → Bool
valid_suspended s none = false
valid_suspended s (some suspension) =
    (if suspension.had_timer
      then s.timer.paused
      else not (ltb_ℤ (pos 0) s.timer.duration || s.timer.paused)
        && not suspension.timer_was_paused)

abbrev valid_winner : Option TeamSide → Option MatchResult → Bool
valid_winner none r = false
valid_winner (some winner) none = false
valid_winner (some winner) (some r) = side_valid winner && r.winner == winner

-- The switch on the lifecycle.
unfoldable pub valid_lifecycle_data : State → Lifecycle → Bool
unfolding all_available validate_active_phase
valid_lifecycle_data s Lifecycle.ready =
    s.version == 0
    && s.phase == Phase.none
    && s.active_team == TeamSide.unset
    && not (is_some s.suspension)
    && is_undecided s
    && is_empty_board s.board
    && all_available s.pool_slots
    && not (get_or TeamSide.red s.robbery_used false)
    && not (get_or TeamSide.blue s.robbery_used false)
    && not (get_or TeamSide.red s.team_pause_used false)
    && not (get_or TeamSide.blue s.team_pause_used false)
valid_lifecycle_data s Lifecycle.running =
    not (s.phase == Phase.none)
    && not (is_some s.suspension)
    && is_undecided s
    && validate_active_phase s
valid_lifecycle_data s Lifecycle.suspended =
    not (s.phase == Phase.none)
    && is_some s.suspension
    && is_undecided s
    && valid_suspended s s.suspension
    && validate_active_phase s
valid_lifecycle_data s Lifecycle.adjudication_required =
    s.phase == Phase.none
    && s.active_team == TeamSide.unset
    && is_some s.stalemate
    && not (is_some s.winner)
    && not (is_some s.result)
    && not (is_some s.suspension)
    && is_empty s.abort_reason
valid_lifecycle_data s Lifecycle.finished =
    s.phase == Phase.none
    && s.active_team == TeamSide.unset
    && valid_winner s.winner s.result
    && not (is_some s.suspension)
    && not (is_some s.stalemate)
    && is_empty s.abort_reason
valid_lifecycle_data s Lifecycle.aborted =
    s.phase == Phase.none
    && s.active_team == TeamSide.unset
    && not (is_empty s.abort_reason)
    && not (is_some s.winner)
    && not (is_some s.result)
    && not (is_some s.suspension)
    && not (is_some s.stalemate)
valid_lifecycle_data s Lifecycle.unknown = true

unfoldable pub validate_lifecycle_state : State → Bool
validate_lifecycle_state s =
    not (not (s.lifecycle == Lifecycle.ready) && s.version == 0)
    && valid_lifecycle_data s s.lifecycle

abbrev is_ok {ℓ} : {A : Type ℓ} → Fallible A → Bool
is_ok (ok _) = true
is_ok (err _) = false

unfoldable pub validate_state : State → Bool
validate_state s =
    valid_lifecycle s.lifecycle
    && valid_phase s.phase
    && side_valid s.first_ban
    && side_valid s.first_pick
    && is_ok (validate_rosters s.rosters)
    && timers_valid s.timers
    && validate_side_flags s.robbery_used
    && validate_side_flags s.team_pause_used
    && validate_pool_and_board s
    && validate_turn_and_timer s
    && validate_lifecycle_state s
    && validate_recovery_evidence s
