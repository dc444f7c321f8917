-- ===== src/Coherence/Defs.antt =====
-- The part of ValidateState (internal/matchengine/validation.go) that every command keeps: the
-- fields that belong to the lifecycle, and the turn with the team to move.
use rct_hub_backend.Base.{◌≡◌, ◌≢◌, true, false, is_some, arith}
use rct_hub_backend.Base.Int.{pos, ◌≤ℤ◌}
use rct_hub_backend.Model.Kinds.{Lifecycle}
use rct_hub_backend.Model.State.{State, side_valid}
use rct_hub_backend.Engine.Rules.{pick_team}
use rct_hub_backend.Validation.{
  valid_turn, valid_lifecycle_data, is_undecided, is_valid_active_phase,
}

pub record IsCoherent (s : State) : Type 0 where
  pub first_ban : side_valid s.first_ban ≡ true
  pub first_pick : side_valid s.first_pick ≡ true
  pub turn : valid_turn s.phase s.lifecycle s.first_ban s.first_pick s.turn s.active_team ≡ true
  pub lifecycle : valid_lifecycle_data s s.lifecycle ≡ true

-- A state in which the next pick may begin.
pub record IsPickReady (s : State) : Type 0 where
  pub first_ban : side_valid s.first_ban ≡ true
  pub first_pick : side_valid s.first_pick ≡ true
  pub running : s.lifecycle ≡ Lifecycle.running
  pub undecided : is_undecided s ≡ true
  pub not_suspended : is_some s.suspension ≡ false
  pub turn : pos 1 ≤ℤ s.turn
  pub active : s.active_team ≡ pick_team s.first_pick s.turn

-- A match that has started, and is coherent.
pub record IsStarted (s : State) : Type 0 where
  pub started : s.lifecycle ≢ Lifecycle.ready
  pub coherent : IsCoherent s

-- A match that runs.
pub record IsRunning (s : State) : Type 0 where
  pub first_ban : side_valid s.first_ban ≡ true
  pub first_pick : side_valid s.first_pick ≡ true
  pub running : s.lifecycle ≡ Lifecycle.running
  pub undecided : is_undecided s ≡ true
  pub not_suspended : is_some s.suspension ≡ false
  pub turn : valid_turn s.phase s.lifecycle s.first_ban s.first_pick s.turn s.active_team ≡ true
  pub active : is_valid_active_phase s.phase s.active_team ≡ true

pub IsCoherent-IsRunning :
    (s : State) → IsCoherent s → s.lifecycle ≡ Lifecycle.running → IsRunning s
unfolding valid_lifecycle_data
IsCoherent-IsRunning s c h = ground arith

pub IsRunning-IsStarted : (s : State) → IsRunning s → IsStarted s
unfolding valid_lifecycle_data
IsRunning-IsStarted s c = ground arith
