-- ===== src/Examples/Fixture.antt =====
-- A configuration with five slots, and states of a match on it.
use rct_hub_backend.Base.{[], ◌∷◌, true, false, codes, none, some, Text}
use rct_hub_backend.Base.Int.{pos, negsuc}
use rct_hub_backend.Model.Kinds.{
  TeamSide, Lifecycle, Phase, Mod, PoolSlotState, Outcome, TbBasis, Capability,
}
use rct_hub_backend.Model.Errors.{Fallible, ok, err}
use rct_hub_backend.Model.Timer.{zero_timer, running_timer, seconds, standard_timer_configuration}
use rct_hub_backend.Model.State.{
  PoolSlot, BoardPiece, Roster, Configuration, TbRequestState, State, Actor,
}
use rct_hub_backend.Model.Events.{EventType, event, team_event, Transition}

abbrev pub slot : Text → Mod → PoolSlot
slot id m = record { id = id; slot_mod = m; state = PoolSlotState.available }

abbrev pub red_roster : Roster
red_roster = record { leader_id = pos 1; player_ids = pos 2 ∷ pos 3 ∷ pos 4 ∷ pos 5 ∷ [] }

abbrev pub config : Configuration
config = record {
  first_ban = TeamSide.red;
  first_pick = TeamSide.blue;
  pool_slots =
      slot (codes "NM1") Mod.nm
      ∷ slot (codes "HD1") Mod.hd
      ∷ slot (codes "FM1") Mod.fm
      ∷ slot (codes "S") Mod.shiro
      ∷ slot (codes "TB") Mod.tb
      ∷ [];
  rosters =
      (TeamSide.red, red_roster)
      ∷ (TeamSide.blue, record { leader_id = pos 11; player_ids = pos 12 ∷ pos 13 ∷ pos 14 ∷ [] })
      ∷ [];
  timers = standard_timer_configuration;
}

abbrev pub blue : Actor
blue = record {
  capability = Capability.strategist;
  team = some TeamSide.blue;
  admin_override = false;
}

abbrev pub referee : Actor
referee = record { capability = Capability.referee; team = none; admin_override = false }

-- NewReadyState of the configuration.
abbrev pub ready : State
ready = record {
  version = 0;
  lifecycle = Lifecycle.ready;
  phase = Phase.none;
  first_ban = TeamSide.red;
  first_pick = TeamSide.blue;
  turn = pos 0;
  active_team = TeamSide.unset;
  pool_slots =
      (codes "NM1", slot (codes "NM1") Mod.nm)
      ∷ (codes "HD1", slot (codes "HD1") Mod.hd)
      ∷ (codes "FM1", slot (codes "FM1") Mod.fm)
      ∷ (codes "S", slot (codes "S") Mod.shiro)
      ∷ (codes "TB", slot (codes "TB") Mod.tb)
      ∷ [];
  board = [];
  timer = zero_timer;
  robbery_used = (TeamSide.red, false) ∷ (TeamSide.blue, false) ∷ [];
  team_pause_used = (TeamSide.red, false) ∷ (TeamSide.blue, false) ∷ [];
  rosters = config.rosters;
  timers = standard_timer_configuration;
  pending_piece_id = [];
  pending_tb_request = none;
  tb_entry = none;
  winner = none;
  result = none;
  stalemate = none;
  suspension = none;
  abort_reason = [];
}

-- After StartMatch at the instant 100.
abbrev pub started : State
started = record ready {
  version = 1;
  lifecycle = Lifecycle.running;
  phase = Phase.ban;
  turn = negsuc 2;
  active_team = TeamSide.red;
  timer = running_timer 100 (seconds 60);
}

abbrev pub start : Transition
start = record {
  state = started;
  events =
      event EventType.match_started
      ∷ team_event EventType.ban_phase_started TeamSide.red
      ∷ event EventType.timer_started
      ∷ [];
}

abbrev won : Text → TeamSide → BoardPiece
won id team = record {
  id = id;
  source_pool_slot_id = codes "NM1";
  piece_mod = Mod.nm;
  force_mod = none;
  selected_by = team;
  owner = some team;
  outcome = Outcome.won;
}

-- Turn 11, blue to pick: blue has three in the first row and two in the last column, and red the end
-- of that column.
abbrev pub picking : State
picking = record started {
  version = 20;
  phase = Phase.pick;
  turn = pos 11;
  active_team = TeamSide.blue;
  timer = running_timer 100 (seconds 90);
  board =
      (codes "A1", won (codes "b1") TeamSide.blue)
      ∷ (codes "B1", won (codes "b2") TeamSide.blue)
      ∷ (codes "C1", won (codes "b3") TeamSide.blue)
      ∷ (codes "D2", won (codes "b4") TeamSide.blue)
      ∷ (codes "D3", won (codes "b5") TeamSide.blue)
      ∷ (codes "D4", won (codes "r1") TeamSide.red)
      ∷ [];
}

-- The same with a request for the tiebreaker.
abbrev pub request : TbRequestState
request = record { id = codes "q"; requested_by = TeamSide.red; basis = TbBasis.captain_agreement }

abbrev pub requested : State
requested = record picking { pending_tb_request = some request }

-- The same with a timer that was paused with nothing left.
abbrev pub paused_out : State
paused_out = record picking { timer = record (running_timer 100 (seconds 90)) { paused = true } }

-- A piece on D1 waits for its result.
abbrev pub waiting : State
waiting = record picking {
  phase = Phase.waiting_for_result;
  pending_piece_id = codes "p";
  board =
      (
        codes "D1",
        record (won (codes "p") TeamSide.blue) { owner = none; outcome = Outcome.waiting_result },
      )
      ∷ picking.board;
}

-- The value of a result, or the given one of an error.
abbrev pub value {ℓ} : {A : Type ℓ} → Fallible A → A → A
value (ok a) b = a
value (err e) b = b
