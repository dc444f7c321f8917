-- ===== src/Examples/Witnesses.antt =====
-- Each theorem at an input where its hypotheses hold.
use rct_hub_backend.Base.{
  ◌≡◌, ◌≤◌, ◌-◌, ◌↔◌, refl, true, false, none, some, Option, if◌then◌else◌, ◌==◌, ◌∷◌, codes, Text,
  text_Eq, lookup, contains, all, length, arith,
}
use rct_hub_backend.Base.Int.{pos, negsuc, pos_part, int_Eq}
use rct_hub_backend.Model.Kinds.{TeamSide, Lifecycle, Phase, PoolSlotState, Outcome, ForceMod, Zone}
use rct_hub_backend.Model.Errors.{ok}
use rct_hub_backend.Model.Timer.{remaining, expired, pause, resume}
use rct_hub_backend.Model.State.{Cell, PoolSlot, BoardPiece, PlayerId}
use rct_hub_backend.Model.Events.{Command}
use rct_hub_backend.Board.{
  piece_at, piece_by_id, zone_at, contains_piece_id, has_four, bury, won_by, set_owner,
}
use rct_hub_backend.Engine.Rules.{placement_force_mod}
use rct_hub_backend.Engine.Robbery.{flatten_sacrifice_sets}
use rct_hub_backend.Engine.Terminal.{should_force_tb, enter_pick_or_terminal}
use rct_hub_backend.Engine.Execute.{execute}
use rct_hub_backend.Validation.{validate_state, validate_lifecycle_state, valid_turn}
use rct_hub_backend.Access.Tables.{IsAllowed}
use rct_hub_backend.Access.Laws.{execute-IsAllowed}
use rct_hub_backend.Coherence.Defs.{IsStarted}
use rct_hub_backend.Coherence.Laws.{execute-IsStarted}
use rct_hub_backend.Frame.Laws.{IsCommit, execute-IsCommit}
use rct_hub_backend.Ready.Laws.{new_ready_state-valid, new_ready_state-IsCoherent}
use rct_hub_backend.Reach.{Reach-valid}
use rct_hub_backend.Outcomes.{
  IsFourWin, execute-is_over, confirm_beatmap_result-has_four, rob_piece-has_four,
}
use rct_hub_backend.Turns.{
  enter_pick_or_terminal-forced, rob_piece-forced, confirm_beatmap_result-forced,
}
use rct_hub_backend.Robbing.{on_piece, rob_piece-piece_at}
use rct_hub_backend.Placement.{place_piece-piece_at}
use rct_hub_backend.Countdown.{
  remaining-bounds, remaining-elapsed, resume-pause, resume_match-suspend_match,
}
use rct_hub_backend.Sets.{
  concat, distinct, flatten_sacrifice_sets-distinct, validate_surrender_evidence-distinct,
}
use rct_hub_backend.Recovery.{place_piece-pending, resume_timer-empty}
use rct_hub_backend.Examples.Fixture.{
  config, ready, started, start, picking, requested, request, paused_out, waiting, red_roster, blue,
  referee,
}
use rct_hub_backend.Examples.Steps.{
  sacrifice, config-ready, ready-start, placed, picking-placed, robbed, picking-robbed, confirmed,
  waiting-confirmed, picking-suspended, resumed, suspended-resumed, requested_place,
  requested-place, empty_resume, paused_out-resume, submitted, evidence, submitted-evidence,
  ready_turn_fits, one_step, finished_over, picking_cells, later_than_zero,
}

execute-IsAllowed_example : IsAllowed ready referee Command.start_match 100
execute-IsAllowed_example = execute-IsAllowed ready referee Command.start_match 100 ready-start

execute-IsStarted_example : IsStarted started
execute-IsStarted_example =
    execute-IsStarted ready referee Command.start_match 100
      (new_ready_state-IsCoherent config config-ready) ready_turn_fits ready-start

Reach-valid_example :
    (validate_lifecycle_state started ≡ true)
    × (valid_turn Phase.ban Lifecycle.running TeamSide.red TeamSide.blue (negsuc 2) TeamSide.red
        ≡ true)
    × (started.version ≡ 1)
    × (pos_part started.turn ≤ 1)
    × (started.first_ban ≡ config.first_ban)
    × (started.first_pick ≡ config.first_pick)
    × (started.rosters ≡ config.rosters)
    × (started.timers ≡ config.timers)
Reach-valid_example = Reach-valid config config-ready one_step (omega arith)

new_ready_state-valid_example : validate_state ready ≡ true
new_ready_state-valid_example = new_ready_state-valid config config-ready

execute-IsCommit_example : IsCommit ready start
execute-IsCommit_example = execute-IsCommit ready referee Command.start_match 100 ready-start

execute-is_over_example : ¬ (
    execute
      (record started { lifecycle = Lifecycle.finished })
      referee
      (Command.abort_match (codes "x"))
      100
    ≡ ok start)
execute-is_over_example =
    execute-is_over (record started { lifecycle = Lifecycle.finished }) referee
      (Command.abort_match (codes "x")) 100 start finished_over

confirm_beatmap_result-has_four_example :
    (set_owner (codes "p") TeamSide.blue waiting.board ≡ some confirmed.0.board)
    × (IsFourWin confirmed.0 TeamSide.blue ↔ (has_four confirmed.0.board TeamSide.blue ≡ true))
confirm_beatmap_result-has_four_example =
    confirm_beatmap_result-has_four waiting referee (codes "p") TeamSide.blue 150 refl
      waiting-confirmed

rob_piece-has_four_example :
    (robbed.0.lifecycle ≡ Lifecycle.finished) ↔ (has_four robbed.0.board TeamSide.blue ≡ true)
rob_piece-has_four_example =
    rob_piece-has_four picking blue (codes "r1") sacrifice 150 picking-robbed

rob_piece-piece_at_example :
    (distinct (concat sacrifice) ≡ true)
    × (found : Cell × BoardPiece) × (piece_by_id (codes "r1") picking.board ≡ some found)
    × ((other : Cell)
        → piece_at robbed.0.board other ≡ (
            if found.0 == other
            then some (won_by TeamSide.blue found.1)
            else on_piece (bury (concat sacrifice)) (piece_at picking.board other)))
rob_piece-piece_at_example =
    rob_piece-piece_at picking blue (codes "r1") sacrifice 150 picking_cells picking-robbed

place_piece-piece_at_example :
    (slot : PoolSlot) × (lookup (codes "FM1") picking.pool_slots ≡ some slot)
    × (slot.state ≡ PoolSlotState.available)
    × (zone : Zone) × (zone_at (codes "A4") ≡ some zone)
    × (force : Option ForceMod) × (placement_force_mod slot.slot_mod zone ≡ ok force)
    × (contains_piece_id (codes "p") picking.board ≡ false)
    × (piece_at picking.board (codes "A4") ≡ none)
    × ((other : Cell)
        → piece_at placed.0.board other ≡ (
            if codes "A4" == other
            then some (record {
              id = codes "p";
              source_pool_slot_id = slot.id;
              piece_mod = slot.slot_mod;
              force_mod = force;
              selected_by = TeamSide.blue;
              owner = none;
              outcome = Outcome.waiting_result;
            })
            else piece_at picking.board other))
    × ((key : Text)
        → lookup key placed.0.pool_slots ≡ (
            if slot.id == key
            then some (record slot { state = PoolSlotState.selected })
            else lookup key picking.pool_slots))
place_piece-piece_at_example =
    place_piece-piece_at picking blue 150 (codes "FM1") (codes "p") (codes "A4") picking-placed

remaining-bounds_example :
    (remaining picking.timer 150 ≡ pos (pos_part (remaining picking.timer 150)))
    × (pos_part (remaining picking.timer 150) ≤ 90_000_000_000)
remaining-bounds_example = remaining-bounds picking.timer 150 90_000_000_000 refl refl (omega arith)

remaining-elapsed_example :
    (remaining picking.timer 150 ≡ pos 89_999_999_950)
    × ((expired picking.timer 150 ≡ true) ↔ (90_000_000_000 ≤ 50))
remaining-elapsed_example =
    remaining-elapsed picking.timer 50 90_000_000_000 refl refl (omega arith)

resume-pause_example :
    (remaining (pause picking.timer 150) 900 ≡ remaining picking.timer 150)
    × (remaining (resume (pause picking.timer 150) 900) 1000
        ≡ pos (pos_part (remaining picking.timer 150) - 100))
resume-pause_example =
    resume-pause picking.timer 150 900 100 (omega arith) (omega arith) (omega arith)

resume_match-suspend_match_example :
    (resumed.0 ≡ record picking { suspension = none; timer = resumed.0.timer })
    × (remaining resumed.0.timer 1000 ≡ pos (pos_part (remaining picking.timer 150) - 100))
resume_match-suspend_match_example =
    resume_match-suspend_match picking referee referee (codes "net") (codes "net") 150 900 100
      (omega arith) (omega arith) (omega arith) picking-suspended suspended-resumed

flatten_sacrifice_sets-distinct_example :
    flatten_sacrifice_sets sacrifice
    ≡ (if distinct (concat sacrifice) then some (concat sacrifice) else none)
flatten_sacrifice_sets-distinct_example = flatten_sacrifice_sets-distinct sacrifice

validate_surrender_evidence-distinct_example :
    (distinct evidence ≡ true)
    × (all (λ id. contains id (red_roster.leader_id ∷ red_roster.player_ids)) evidence ≡ true)
    × ((id : PlayerId) → contains id evidence ≡ contains id submitted)
    × (contains (pos 1) submitted ≡ true)
    × (4 ≤ length evidence)
validate_surrender_evidence-distinct_example =
    validate_surrender_evidence-distinct red_roster submitted submitted-evidence

place_piece-pending_example : validate_state requested_place.state ≡ false
place_piece-pending_example =
    place_piece-pending requested blue (codes "FM1") (codes "p") (codes "A4") 150 request refl
      requested-place

resume_timer-empty_example : validate_state empty_resume.state ≡ false
resume_timer-empty_example =
    resume_timer-empty paused_out referee (codes "ok") 150 refl later_than_zero paused_out-resume

enter_pick_or_terminal-forced_example :
    should_force_tb (enter_pick_or_terminal picking 150).0 ≡ false
enter_pick_or_terminal-forced_example = enter_pick_or_terminal-forced picking 150

rob_piece-forced_example : should_force_tb robbed.0 ≡ false
rob_piece-forced_example = rob_piece-forced picking blue (codes "r1") sacrifice 150 picking-robbed

confirm_beatmap_result-forced_example : should_force_tb confirmed.0 ≡ false
confirm_beatmap_result-forced_example =
    confirm_beatmap_result-forced waiting referee (codes "p") TeamSide.blue 150 waiting-confirmed
