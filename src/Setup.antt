-- ===== src/Setup.antt =====
-- NewReadyState and the roster checks of internal/matchengine/model.go. cloneRosters copies a value
-- that nothing else can reach, so it is the identity here.

use rct_hub_backend.Base.{
  ℕ, suc, false, not, ◌||◌, Text, List, [], ◌∷◌, Option, none, some, Map, lookup, insert, contains,
  length, is_some, is_empty, if◌then◌else◌, ◌==◌, nat_Eq, text_Eq,
}
use rct_hub_backend.Base.Int.{pos, leb_ℤ, int_Eq}
use rct_hub_backend.Model.Kinds.{
  TeamSide, Lifecycle, Phase, Mod, PoolSlotState, mod_Eq, team_side_Eq,
}
use rct_hub_backend.Model.Errors.{ErrorCode, Fallible, ok, err, ◌>>=◌, ◌>>◌, fail_if}
use rct_hub_backend.Model.Timer.{timers_valid, zero_timer}
use rct_hub_backend.Model.State.{
  PlayerId, PoolSlot, Roster, Configuration, State, side_valid, mod_valid, ready_turn,
}
use rct_hub_backend.Board.{new_board}

-- The loop over one team's players; `seen` holds the keys of the map of that name.
unfoldable pub check_players :
    (leader : PlayerId) (players seen : List PlayerId) → Fallible (List PlayerId)
check_players leader [] seen = ok seen
check_players leader (id ∷ players) seen =
    let rest = check_players leader players (id ∷ seen) in
    if leb_ℤ id (pos 0) || id == leader || contains id seen
    then err ErrorCode.invalid_request
    else rest

unfoldable pub check_roster : Option Roster → (seen : List PlayerId) → Fallible (List PlayerId)
check_roster none seen = err ErrorCode.invalid_request
check_roster (some roster) seen = do
  fail_if (leb_ℤ roster.leader_id (pos 0)) ErrorCode.invalid_request
  fail_if (contains roster.leader_id seen) ErrorCode.invalid_request
  check_players roster.leader_id roster.player_ids (roster.leader_id ∷ seen)

-- validateAndCloneRosters; the clone is the argument itself.
unfoldable pub validate_rosters : Map TeamSide Roster → Fallible (Unit {0})
validate_rosters rosters = do
  fail_if (not (length rosters == 2)) ErrorCode.invalid_request
  seen ← check_roster (lookup TeamSide.red rosters) []
  all_seen ← check_roster (lookup TeamSide.blue rosters) seen
  ok tt

-- The variables of the loop over the configured slots.
pub record PoolBuild : Type 0 where
  pub pool : Map Text PoolSlot
  pub shiro_count : ℕ
  pub tb_count : ℕ

abbrev pub count_mod : Mod → PoolSlot → ℕ → ℕ
count_mod m slot n = if slot.slot_mod == m then suc n else n

-- The body of that loop.
unfoldable pub add_slot : PoolSlot → PoolBuild → Fallible PoolBuild
add_slot configured build = do
  fail_if (is_empty configured.id || not (mod_valid configured.slot_mod)) ErrorCode.invalid_request
  fail_if (is_some (lookup configured.id build.pool)) ErrorCode.invalid_request
  ok (record {
    pool = insert configured.id (record configured { state = PoolSlotState.available }) build.pool;
    shiro_count = count_mod Mod.shiro configured build.shiro_count;
    tb_count = count_mod Mod.tb configured build.tb_count;
  })

unfoldable pub build_pool : List PoolSlot → PoolBuild → Fallible PoolBuild
build_pool [] build = ok build
build_pool (slot ∷ slots) build = add_slot slot build >>= build_pool slots

abbrev pub empty_build : PoolBuild
empty_build = record { pool = []; shiro_count = 0; tb_count = 0 }

-- The state that NewReadyState returns; its rosters are a copy of the configured ones.
unfoldable pub ready_state : Configuration → Map Text PoolSlot → State
unfolding new_board
ready_state c pool = record {
  version = 0;
  lifecycle = Lifecycle.ready;
  phase = Phase.none;
  first_ban = c.first_ban;
  first_pick = c.first_pick;
  turn = ready_turn;
  active_team = TeamSide.unset;
  pool_slots = pool;
  board = new_board;
  timer = zero_timer;
  robbery_used = (TeamSide.red, false) ∷ (TeamSide.blue, false) ∷ [];
  team_pause_used = (TeamSide.red, false) ∷ (TeamSide.blue, false) ∷ [];
  rosters = c.rosters;
  timers = c.timers;
  pending_piece_id = [];
  pending_tb_request = none;
  tb_entry = none;
  winner = none;
  result = none;
  stalemate = none;
  suspension = none;
  abort_reason = [];
}

unfoldable pub new_ready_state : Configuration → Fallible State
new_ready_state c = do
  fail_if (not (side_valid c.first_ban) || not (side_valid c.first_pick)) ErrorCode.invalid_request
  build ← build_pool c.pool_slots empty_build
  fail_if (not (build.shiro_count == 1) || not (build.tb_count == 1)) ErrorCode.invalid_request
  validate_rosters c.rosters
  fail_if (not (timers_valid c.timers)) ErrorCode.invalid_request
  ok (ready_state c build.pool)
