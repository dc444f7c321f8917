-- ===== src/Examples/Steps.antt =====
-- Runs of the model on the fixture.
use rct_hub_backend.Base.{
  ◌≡◌, refl, ◌∷◌, [], ◌≢◌, ℕ, contains, text_eq, text_Eq, arith, true, false, codes, some, Text,
  List,
}
use rct_hub_backend.Base.Int.{pos, max_int64}
use rct_hub_backend.Model.Kinds.{TeamSide, Lifecycle}
use rct_hub_backend.Model.Errors.{ok}
use rct_hub_backend.Model.Events.{Command, Event, Transition}
use rct_hub_backend.Model.State.{State, PlayerId}
use rct_hub_backend.Board.{has_four, set_owner, won_by}
use rct_hub_backend.Setup.{new_ready_state}
use rct_hub_backend.Engine.Execute.{execute}
use rct_hub_backend.Engine.Play.{place_piece, rob_piece, confirm_beatmap_result}
use rct_hub_backend.Engine.Clock.{suspend_match, resume_match}
use rct_hub_backend.Engine.Tiebreak.{validate_surrender_evidence, collect_evidence}
use rct_hub_backend.Reach.{Reach, here, next}
use rct_hub_backend.Outcomes.{is_over}
use rct_hub_backend.Sets.{distinct}
use rct_hub_backend.Robbing.{cells}
use rct_hub_backend.Examples.Fixture.{
  config, red_roster, ready, started, start, picking, requested, paused_out, waiting, blue, referee,
  value,
}

abbrev pub sacrifice : List (List Text)
sacrifice = (codes "b1" ∷ codes "b2" ∷ codes "b3" ∷ []) ∷ []

pub config-ready : new_ready_state config ≡ ok ready
unfolding new_ready_state rct_hub_backend.Setup.build_pool rct_hub_backend.Setup.add_slot
    rct_hub_backend.Base.lookup rct_hub_backend.Base.insert rct_hub_backend.Base.text_eq
    rct_hub_backend.Setup.validate_rosters rct_hub_backend.Setup.check_roster
    rct_hub_backend.Base.contains rct_hub_backend.Setup.check_players
    rct_hub_backend.Model.Timer.timers_valid rct_hub_backend.Setup.ready_state
config-ready = refl

pub ready-start : execute ready referee Command.start_match 100 ≡ ok start
unfolding execute rct_hub_backend.Engine.Execute.dispatch rct_hub_backend.Engine.Play.start_match
    rct_hub_backend.Engine.Execute.commit rct_hub_backend.Base.Int.inc_u64
ready-start = refl

abbrev pub placed : State × List Event
placed = value (place_piece picking blue (codes "FM1") (codes "p") (codes "A4") 150) (picking, [])

pub picking-placed : place_piece picking blue (codes "FM1") (codes "p") (codes "A4") 150 ≡ ok placed
unfolding place_piece rct_hub_backend.Model.Timer.expired rct_hub_backend.Model.Timer.remaining
    rct_hub_backend.Board.contains_piece_id rct_hub_backend.Base.text_eq rct_hub_backend.Base.lookup
    rct_hub_backend.Board.zone_at rct_hub_backend.Board.empty
    rct_hub_backend.Engine.Rules.placement_force_mod
picking-placed = refl

abbrev pub robbed : State × List Event
robbed = value (rob_piece picking blue (codes "r1") sacrifice 150) (picking, [])

pub picking-robbed : rob_piece picking blue (codes "r1") sacrifice 150 ≡ ok robbed
unfolding rob_piece rct_hub_backend.Model.Timer.expired rct_hub_backend.Model.Timer.remaining
    rct_hub_backend.Board.piece_by_id rct_hub_backend.Base.text_eq
    rct_hub_backend.Engine.Robbery.target_is_shiro rct_hub_backend.Engine.Robbery.target_is_opponent
    rct_hub_backend.Board.is_won_by rct_hub_backend.Engine.Robbery.flatten_sacrifice_sets
    rct_hub_backend.Engine.Robbery.flatten_from rct_hub_backend.Engine.Robbery.flatten_set
    rct_hub_backend.Base.contains rct_hub_backend.Engine.Robbery.valid_normal_robbery_sacrifice
    rct_hub_backend.Board.is_alignment mathlib.Core.List.flat_map
    rct_hub_backend.Engine.Robbery.board_after_robbery set_owner rct_hub_backend.Board.mark_dead
    rct_hub_backend.Base.get_or rct_hub_backend.Base.insert rct_hub_backend.Base.lookup
    rct_hub_backend.Base.Int.sub64 rct_hub_backend.Base.Int.wrap64 rct_hub_backend.Base.all
    rct_hub_backend.Base.any rct_hub_backend.Base.any_pair rct_hub_backend.Base.to_set
    rct_hub_backend.Board.alignments_at rct_hub_backend.Board.candidate
    rct_hub_backend.Board.find_alignments has_four rct_hub_backend.Board.line_cell
    rct_hub_backend.Board.line_from rct_hub_backend.Board.piece_participates_in_alignment
    rct_hub_backend.Board.won_piece_id rct_hub_backend.Board.bury
    rct_hub_backend.Board.position_cell rct_hub_backend.Board.won_by
    rct_hub_backend.Engine.Play.after_robbery rct_hub_backend.Engine.Play.require_strategist_turn
    rct_hub_backend.Engine.Robbery.any_target rct_hub_backend.Engine.Robbery.can_rob
    rct_hub_backend.Engine.Robbery.can_rob_with rct_hub_backend.Engine.Robbery.can_rob_with_two
    rct_hub_backend.Engine.Robbery.team_has_legal_robbery
    rct_hub_backend.Engine.Robbery.valid_shiro_robbery_sacrifice
    rct_hub_backend.Engine.Rules.require_active_strategist
    rct_hub_backend.Engine.Rules.require_running_phase
    rct_hub_backend.Engine.Rules.require_strategist_timer
    rct_hub_backend.Engine.Terminal.finish_match
    rct_hub_backend.Engine.Terminal.forced_tb_requirements_met
    rct_hub_backend.Engine.Terminal.should_force_tb
    rct_hub_backend.Engine.Terminal.start_forced_tb_preparation rct_hub_backend.Model.Timer.time_sub
picking-robbed = refl

abbrev pub confirmed : State × List Event
confirmed =
    value (confirm_beatmap_result waiting referee (codes "p") TeamSide.blue 150) (waiting, [])

pub waiting-confirmed :
    confirm_beatmap_result waiting referee (codes "p") TeamSide.blue 150 ≡ ok confirmed
unfolding confirm_beatmap_result rct_hub_backend.Base.text_eq set_owner
waiting-confirmed = refl

abbrev pub suspended : State × List Event
suspended = value (suspend_match picking referee (codes "net") 150) (picking, [])

pub picking-suspended : suspend_match picking referee (codes "net") 150 ≡ ok suspended
unfolding suspend_match rct_hub_backend.Engine.Rules.missing_reason rct_hub_backend.Base.is_blank
picking-suspended = refl

abbrev pub resumed : State × List Event
resumed = value (resume_match suspended.0 referee (codes "net") 900) (picking, [])

pub suspended-resumed : resume_match suspended.0 referee (codes "net") 900 ≡ ok resumed
unfolding resume_match suspend_match rct_hub_backend.Engine.Rules.missing_reason
    rct_hub_backend.Base.is_blank
suspended-resumed = refl

abbrev pub requested_place : Transition
requested_place =
    value (execute requested blue (Command.place_piece (codes "FM1") (codes "p") (codes "A4")) 150)
      start

pub requested-place :
    execute requested blue (Command.place_piece (codes "FM1") (codes "p") (codes "A4")) 150
    ≡ ok requested_place
unfolding execute rct_hub_backend.Engine.Execute.dispatch place_piece
    rct_hub_backend.Model.Timer.expired rct_hub_backend.Model.Timer.remaining
    rct_hub_backend.Board.contains_piece_id rct_hub_backend.Base.text_eq rct_hub_backend.Base.lookup
    rct_hub_backend.Board.zone_at rct_hub_backend.Board.empty
    rct_hub_backend.Engine.Rules.placement_force_mod rct_hub_backend.Engine.Execute.commit
requested-place = refl

abbrev pub empty_resume : Transition
empty_resume = value (execute paused_out referee (Command.resume_timer (codes "ok")) 150) start

pub paused_out-resume :
    execute paused_out referee (Command.resume_timer (codes "ok")) 150 ≡ ok empty_resume
unfolding execute rct_hub_backend.Engine.Execute.dispatch rct_hub_backend.Engine.Clock.resume_timer
    rct_hub_backend.Engine.Rules.missing_reason rct_hub_backend.Base.is_blank
    rct_hub_backend.Engine.Execute.commit
paused_out-resume = refl

abbrev pub submitted : List PlayerId
submitted = pos 1 ∷ pos 2 ∷ pos 3 ∷ pos 2 ∷ pos 4 ∷ []

abbrev pub evidence : List PlayerId
evidence = pos 1 ∷ pos 2 ∷ pos 3 ∷ pos 4 ∷ []

pub submitted-evidence : validate_surrender_evidence red_roster submitted ≡ some evidence
unfolding validate_surrender_evidence collect_evidence contains
submitted-evidence = refl

pub ready_turn_fits : ready.turn ≢ pos max_int64
ready_turn_fits = ground arith

pub one_step : Reach ready 1 started
one_step = next here referee Command.start_match 100 start ready-start refl

pub finished_over : is_over Lifecycle.finished ≡ true
unfolding is_over
finished_over = refl

pub picking_cells : distinct (cells picking.board) ≡ true
unfolding distinct cells contains text_eq
picking_cells = refl

abbrev pub instant : ℕ
instant = 150

pub later_than_zero : instant ≢ 0
later_than_zero = omega arith

abbrev pub later_instant : ℕ
later_instant = 200

pub two_hundred_later : later_instant ≢ 0
two_hundred_later = omega arith

pub started_newer : started.version ≢ 0
started_newer = omega arith
