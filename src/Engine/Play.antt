-- ===== src/Engine/Play.antt =====
-- The play commands of internal/matchengine/engine.go: start, ban, placement, Shiro, robbery and the
-- result of a beatmap.
use rct_hub_backend.Base.{
  Bool, true, not, ◌&&◌, ◌||◌, Text, List, [], ◌∷◌, Option, none, some, Map, lookup, insert,
  if◌then◌else◌, is_empty, ◌==◌, text_Eq,
}
use rct_hub_backend.Base.Int.{inc64}
use rct_hub_backend.Model.Kinds.{
  TeamSide, Lifecycle, Phase, Mod, PoolSlotState, Outcome, ResultReason, Capability, team_side_Eq,
  lifecycle_Eq, mod_Eq, pool_slot_state_Eq, capability_Eq,
}
use rct_hub_backend.Model.Errors.{ErrorCode, Fallible, ok, err, ◌>>=◌, ◌>>◌, fail_if}
use rct_hub_backend.Model.Timer.{Time, running_timer}
use rct_hub_backend.Model.State.{
  Cell, PoolSlot, BoardPiece, State, Actor, side_valid, first_ban_turn,
}
use rct_hub_backend.Model.Events.{EventType, Event, event, team_event}
use rct_hub_backend.Board.{
  zone_at, empty, place, set_owner, piece_by_id, contains_piece_id, has_four,
}
use rct_hub_backend.Engine.Rules.{
  Step, require_running_phase, require_active_strategist, require_strategist_timer,
  placement_force_mod, pick_team,
}
use rct_hub_backend.Engine.Robbery.{
  target_is_shiro, target_is_opponent, flatten_sacrifice_sets, valid_shiro_robbery_sacrifice,
  valid_normal_robbery_sacrifice, board_after_robbery,
}
use rct_hub_backend.Engine.Terminal.{
  finish_match, won_result, should_force_tb, start_forced_tb_preparation, enter_pick_or_terminal,
  advance_ban,
}

-- v, ok := e; if !ok { return ruleError(code) }
abbrev pub require_some {ℓ} : {A : Type ℓ} → Option A → ErrorCode → Fallible A
require_some none e = err e
require_some (some a) e = ok a

unfoldable pub start_match : State → Actor → Time → Step
start_match s actor now = do
  fail_if (not (actor.capability == Capability.referee) && not actor.admin_override)
      ErrorCode.action_not_allowed
  fail_if (not (s.lifecycle == Lifecycle.ready)) ErrorCode.match_lifecycle_conflict
  ok (
    record s {
      lifecycle = Lifecycle.running;
      phase = Phase.ban;
      turn = first_ban_turn;
      active_team = s.first_ban;
      timer = running_timer now s.timers.ban;
    },
    event EventType.match_started
        ∷ team_event EventType.ban_phase_started s.first_ban
        ∷ event EventType.timer_started
        ∷ [],
  )

-- The three checks with which a strategist's command begins.
unfoldable pub require_strategist_turn : State → Phase → Actor → Time → Fallible (Unit {0})
unfolding require_running_phase require_active_strategist require_strategist_timer
require_strategist_turn s phase actor now = do
  require_running_phase s phase
  require_active_strategist s actor
  require_strategist_timer s.timer now

-- slot.State != PoolSlotAvailable || slot.Mod == ModShiro || slot.Mod == ModTB
abbrev pub is_blocked : PoolSlot → Bool
is_blocked slot =
    not (slot.state == PoolSlotState.available)
    || slot.slot_mod == Mod.shiro
    || slot.slot_mod == Mod.tb

-- slot.State = state; state.PoolSlots[slot.ID] = slot
unfoldable pub set_slot : PoolSlot → PoolSlotState → Map Text PoolSlot → Map Text PoolSlot
set_slot slot state pool = insert slot.id (record slot { state = state }) pool

unfoldable pub ban_pool_slot : State → Actor → Text → Time → Step
unfolding require_strategist_turn set_slot
ban_pool_slot s actor pool_slot_id now = do
  require_strategist_turn s Phase.ban actor now
  slot ← require_some (lookup pool_slot_id s.pool_slots) ErrorCode.invalid_pool_slot
  fail_if (is_blocked slot) ErrorCode.pool_slot_unavailable
  let banned = record s { pool_slots = set_slot slot PoolSlotState.banned s.pool_slots }
  let (s', events) = advance_ban banned now
  ok (
    s',
    record (team_event EventType.pool_slot_banned s.active_team) { pool_slot_id = slot.id }
        ∷ events,
  )

unfoldable pub place_piece : State → Actor → Text → Text → Cell → Time → Step
unfolding require_strategist_turn set_slot
place_piece s actor pool_slot_id piece_id cell now = do
  require_strategist_turn s Phase.pick actor now
  fail_if (is_empty piece_id || contains_piece_id piece_id s.board) ErrorCode.invalid_request
  slot ← require_some (lookup pool_slot_id s.pool_slots) ErrorCode.invalid_pool_slot
  fail_if (is_blocked slot) ErrorCode.pool_slot_unavailable
  zone ← require_some (zone_at cell) ErrorCode.invalid_board_cell
  fail_if (not (empty s.board cell)) ErrorCode.invalid_board_cell
  force_mod ← placement_force_mod slot.slot_mod zone
  let piece : BoardPiece = record {
    id = piece_id;
    source_pool_slot_id = slot.id;
    piece_mod = slot.slot_mod;
    force_mod = force_mod;
    selected_by = s.active_team;
    owner = none;
    outcome = Outcome.waiting_result;
  }
  ok (
    record s {
      board = place cell piece s.board;
      pool_slots = set_slot slot PoolSlotState.selected s.pool_slots;
      phase = Phase.waiting_for_result;
      pending_piece_id = piece_id;
      timer = running_timer now s.timers.result_confirmation;
    },
    record (team_event EventType.piece_placed s.active_team) {
      pool_slot_id = slot.id;
      board_piece_id = piece_id;
      cell = cell;
    }
        ∷ record (event EventType.result_confirmation_requested) { board_piece_id = piece_id }
        ∷ event EventType.timer_started
        ∷ [],
  )

-- The first Shiro slot that the loop over the pool meets.
unfoldable pub find_shiro : Map Text PoolSlot → Option PoolSlot
find_shiro [] = none
find_shiro ((_, slot) ∷ m) = if slot.slot_mod == Mod.shiro then some slot else find_shiro m

unfoldable pub place_shiro : State → Actor → Text → Cell → Time → Step
unfolding require_strategist_turn set_slot
place_shiro s actor piece_id cell now = do
  require_strategist_turn s Phase.pick actor now
  fail_if (is_empty piece_id || contains_piece_id piece_id s.board) ErrorCode.invalid_request
  fail_if (not (empty s.board cell)) ErrorCode.invalid_board_cell
  shiro ← require_some (find_shiro s.pool_slots) ErrorCode.pool_slot_unavailable
  fail_if (not (shiro.state == PoolSlotState.available)) ErrorCode.pool_slot_unavailable
  let piece : BoardPiece = record {
    id = piece_id;
    source_pool_slot_id = shiro.id;
    piece_mod = Mod.shiro;
    force_mod = none;
    selected_by = s.active_team;
    owner = none;
    outcome = Outcome.white;
  }
  let team = pick_team s.first_pick (inc64 s.turn)
  let placed = record s {
    board = place cell piece s.board;
    pool_slots = set_slot shiro PoolSlotState.selected s.pool_slots;
    turn = inc64 s.turn;
    active_team = team;
  }
  let (s', events) = enter_pick_or_terminal placed now
  ok (
    s',
    record (team_event EventType.shiro_placed s.active_team) {
      pool_slot_id = shiro.id;
      board_piece_id = piece_id;
      cell = cell;
    }
        ∷ team_event EventType.turn_advanced team
        ∷ events,
  )

-- What robPiece does once the robbery is legal.
unfoldable pub after_robbery : State → TeamSide → Time → State × List Event
unfolding finish_match
after_robbery s team now =
    if has_four s.board team
    then (
      finish_match s team (won_result team ResultReason.four_alignment),
      team_event EventType.match_finished team ∷ [],
    )
    else if should_force_tb s
    then start_forced_tb_preparation s now
    else (s, [])

unfoldable pub rob_piece : State → Actor → Text → List (List Text) → Time → Step
unfolding require_strategist_turn
rob_piece s actor target_piece_id sacrifice_sets now = do
  require_strategist_turn s Phase.pick actor now
  let team = s.active_team
  (_, target) ←
      require_some (piece_by_id target_piece_id s.board) ErrorCode.robbery_requirements_not_met
  let is_shiro = target_is_shiro target
  fail_if (not is_shiro && not (target_is_opponent team target))
      ErrorCode.robbery_requirements_not_met
  sacrifice_ids ← require_some (flatten_sacrifice_sets sacrifice_sets) ErrorCode.alignment_overlap
  fail_if
      (not (
        if is_shiro
        then valid_shiro_robbery_sacrifice s.board team sacrifice_sets
        else valid_normal_robbery_sacrifice s.board team sacrifice_sets))
      ErrorCode.robbery_requirements_not_met
  next_board ←
      require_some
        (board_after_robbery s.board team target.id sacrifice_ids (if is_shiro then 2 else 3))
        ErrorCode.robbery_requirements_not_met
  let robbed = record s { board = next_board; robbery_used = insert team true s.robbery_used }
  let (s', events) = after_robbery robbed team now
  ok (
    s',
    record (team_event EventType.pieces_sacrificed team) { board_piece_ids = sacrifice_ids }
        ∷ record (team_event EventType.piece_robbed team) { board_piece_id = target.id }
        ∷ events,
  )

-- What confirmBeatmapResult does once the piece has its owner.
unfoldable pub after_result : State → TeamSide → Time → State × List Event
unfolding finish_match
after_result s team now =
    let next = pick_team s.first_pick (inc64 s.turn) in
    let (s', events) =
      enter_pick_or_terminal (record s { turn = inc64 s.turn; active_team = next }) now in
    if has_four s.board team
    then (
      finish_match s team (won_result team ResultReason.four_alignment),
      team_event EventType.match_finished team ∷ [],
    )
    else (s', team_event EventType.turn_advanced next ∷ events)

unfoldable pub confirm_beatmap_result : State → Actor → Text → TeamSide → Time → Step
unfolding require_running_phase
confirm_beatmap_result s actor board_piece_id winning_team now = do
  require_running_phase s Phase.waiting_for_result
  fail_if (not (actor.capability == Capability.referee)) ErrorCode.action_not_allowed
  fail_if (is_empty board_piece_id || not (board_piece_id == s.pending_piece_id))
      ErrorCode.result_not_pending
  fail_if (not (side_valid winning_team)) ErrorCode.invalid_request
  board ← require_some (set_owner board_piece_id winning_team s.board) ErrorCode.result_not_pending
  let (s', events) =
      after_result (record s { board = board; pending_piece_id = [] }) winning_team now
  ok (
    s',
    record (team_event EventType.beatmap_result_confirmed winning_team) {
      board_piece_id = board_piece_id;
    }
        ∷ record (team_event EventType.piece_won winning_team) { board_piece_id = board_piece_id }
        ∷ events,
  )
