-- ===== src/Model/State.antt =====
-- The match aggregate of internal/matchengine/model.go. A pointer field is an `Option`: no two
-- values share what it points to, since State.Clone copies it and the engine never hands it out.
use rct_hub_backend.Base.{ℕ, Bool, true, false, ◌||◌, Text, List, Map, Option, none, some, ◌==◌}
use rct_hub_backend.Base.Int.{ℤ, pos, negsuc}
use rct_hub_backend.Model.Kinds.{
  TeamSide, Lifecycle, Phase, Mod, ForceMod, PoolSlotState, Outcome, TbBasis, ResultReason,
  Capability, team_side_Eq,
}
use rct_hub_backend.Model.Timer.{Time, Timer, TimerConfiguration}

abbrev pub side_valid : TeamSide → Bool
side_valid s = s == TeamSide.red || s == TeamSide.blue

abbrev pub opponent : TeamSide → TeamSide
opponent TeamSide.red = TeamSide.blue
opponent _ = TeamSide.red

abbrev pub mod_valid : Mod → Bool
mod_valid Mod.unknown = false
mod_valid _ = true

-- A canonical board coordinate such as "A1", or any other string.
abbrev pub Cell : Type 0
Cell = Text

pub record PoolSlot : Type 0 where
  pub id : Text
  pub slot_mod : Mod
  pub state : PoolSlotState

pub record BoardPiece : Type 0 where
  pub id : Text
  pub source_pool_slot_id : Text
  pub piece_mod : Mod
  pub force_mod : Option ForceMod
  pub selected_by : TeamSide
  pub owner : Option TeamSide
  pub outcome : Outcome

-- struct Board and its one field.
abbrev pub Board : Type 0
Board = Map Cell BoardPiece

-- The osu! ids are int64.
abbrev pub PlayerId : Type 0
PlayerId = ℤ

pub record Roster : Type 0 where
  pub leader_id : PlayerId
  pub player_ids : List PlayerId

pub record Configuration : Type 0 where
  pub first_ban : TeamSide
  pub first_pick : TeamSide
  pub pool_slots : List PoolSlot
  pub rosters : Map TeamSide Roster
  pub timers : TimerConfiguration

pub record TbRequestState : Type 0 where
  pub id : Text
  pub requested_by : TeamSide
  pub basis : TbBasis

pub record TbEntryState : Type 0 where
  pub basis : TbBasis
  pub request_id : Text
  pub requested_by : TeamSide

pub record MatchResult : Type 0 where
  pub winner : TeamSide
  pub reason : ResultReason
  pub surrendering_team : Option TeamSide
  pub confirming_player_ids : List PlayerId
  pub red_won_count : ℕ
  pub blue_won_count : ℕ

pub record StalemateEvidence : Type 0 where
  pub red_won_count : ℕ
  pub blue_won_count : ℕ

pub record SuspensionState : Type 0 where
  pub reason : Text
  pub suspended_at : Time
  pub had_timer : Bool
  pub timer_was_paused : Bool

pub record State : Type 0 where
  pub version : ℕ
  pub lifecycle : Lifecycle
  pub phase : Phase
  pub first_ban : TeamSide
  pub first_pick : TeamSide
  pub turn : ℤ
  pub active_team : TeamSide
  pub pool_slots : Map Text PoolSlot
  pub board : Board
  pub timer : Timer
  pub robbery_used : Map TeamSide Bool
  pub team_pause_used : Map TeamSide Bool
  pub rosters : Map TeamSide Roster
  pub timers : TimerConfiguration
  pub pending_piece_id : Text
  pub pending_tb_request : Option TbRequestState
  pub tb_entry : Option TbEntryState
  pub winner : Option TeamSide
  pub result : Option MatchResult
  pub stalemate : Option StalemateEvidence
  pub suspension : Option SuspensionState
  pub abort_reason : Text

abbrev pub ready_turn : ℤ
ready_turn = pos 0

abbrev pub first_ban_turn : ℤ
first_ban_turn = negsuc 2

abbrev pub second_ban_turn : ℤ
second_ban_turn = negsuc 1

abbrev pub third_ban_turn : ℤ
third_ban_turn = negsuc 0

abbrev pub final_ban_turn : ℤ
final_ban_turn = pos 0

abbrev pub first_pick_turn : ℤ
first_pick_turn = pos 1

pub record Actor : Type 0 where
  pub capability : Capability
  pub team : Option TeamSide
  pub admin_override : Bool

unfoldable pub strategist_actor : TeamSide → Actor
strategist_actor team = record {
  capability = Capability.strategist;
  team = some team;
  admin_override = false;
}

unfoldable pub captain_actor : TeamSide → Actor
captain_actor team = record {
  capability = Capability.captain;
  team = some team;
  admin_override = false;
}

unfoldable pub referee_actor : Actor
referee_actor = record { capability = Capability.referee; team = none; admin_override = false }

unfoldable pub system_referee_actor : Actor
system_referee_actor = record {
  capability = Capability.referee;
  team = none;
  admin_override = true;
}
