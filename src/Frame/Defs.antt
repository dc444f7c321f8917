-- ===== src/Frame/Defs.antt =====
-- The frozen part of a match, and a step of the turn.
use rct_hub_backend.Base.{◌≡◌, suc, ◌≤◌}
use rct_hub_backend.Base.Int.{pos_part}
use rct_hub_backend.Model.State.{State}

-- The configuration is as it was, and so is the version before Execute counts it up.
pub record IsFrozen (s s' : State) : Type 0 where
  pub first_ban : s'.first_ban ≡ s.first_ban
  pub first_pick : s'.first_pick ≡ s.first_pick
  pub rosters : s'.rosters ≡ s.rosters
  pub timers : s'.timers ≡ s.timers
  pub version : s'.version ≡ s.version

-- The turn stays, or is counted up by one (from a negative turn also to 1).
pub record IsStep (s s' : State) : Type 0 where
  pub frozen : IsFrozen s s'
  pub turn : pos_part s'.turn ≤ suc (pos_part s.turn)

-- The turn stays.
pub record IsStill (s s' : State) : Type 0 where
  pub frozen : IsFrozen s s'
  pub turn : s'.turn ≡ s.turn
