-- ===== src/Bans.antt =====
-- The bans that AnalyzeForActor of internal/matchengine/availability.go offers to a strategist.
use rct_hub_backend.Base.{
  ◌≡◌, ◌≢◌, refl, Bool, true, false, not, ◌&&◌, ◌||◌, Text, List, [], ◌∷◌, Option, none, some, Map,
  lookup, contains, sort_texts, insert_text, text_eq_iff, text_Eq, ◌==◌, arith, Bool-cases, inl,
  inr,
}
use rct_hub_backend.Model.Kinds.{TeamSide, Phase, Lifecycle, lifecycle_Eq, team_side_Eq, phase_Eq}
use rct_hub_backend.Model.Timer.{Time, expired}
use rct_hub_backend.Model.State.{PoolSlot, State, side_valid, strategist_actor}
use rct_hub_backend.Model.Events.{Command}
use rct_hub_backend.Engine.Rules.{
  require_running_phase, require_active_strategist, require_strategist_timer,
}
use rct_hub_backend.Engine.Play.{ban_pool_slot, require_strategist_turn}
use rct_hub_backend.Engine.Execute.{execute, dispatch, commit}
use rct_hub_backend.Engine.Availability.{
  is_bannable, bannable_ids, analyze_strategist, analyze_team, analyze_for_actor,
}
use rct_hub_backend.Sets.{distinct}
use rct_hub_backend.Offers.{is_accepted}

abbrev pub pool_keys : Map Text PoolSlot → List Text
pool_keys [] = []
pool_keys ((id, _) ∷ m) = id ∷ pool_keys m

contains-insert_text :
    (id t : Text) (ts : List Text) → contains id (insert_text t ts) ≡ (t == id || contains id ts)
unfolding contains insert_text
contains-insert_text id t [] = ground arith
contains-insert_text id t (u ∷ ts) = let rest = contains-insert_text id t ts in ground (arith, rest)

contains-sort_texts : (id : Text) (ts : List Text) → contains id (sort_texts ts) ≡ contains id ts
unfolding contains sort_texts
contains-sort_texts id [] = refl
contains-sort_texts id (t ∷ ts) =
    let rest = contains-sort_texts id ts in
    ground (arith, rest, contains-insert_text id t (sort_texts ts))

-- The slot under the key, if it may be banned.
abbrev pub may_ban : Option PoolSlot → Bool
may_ban none = false
may_ban (some slot) = is_bannable slot

bannable_ids-absent :
    (id : Text) (m : Map Text PoolSlot)
    → contains id (pool_keys m) ≡ false
    → contains id (bannable_ids m) ≡ false
unfolding contains bannable_ids
bannable_ids-absent id [] h = refl
bannable_ids-absent id ((key, slot) ∷ m) h =
    let rest = bannable_ids-absent id m (ground (arith, h)) in ground (arith, rest, h)

contains-bannable_ids :
    (id : Text) (m : Map Text PoolSlot)
    → distinct (pool_keys m) ≡ true
    → contains id (bannable_ids m) ≡ may_ban (lookup id m)
unfolding contains bannable_ids distinct lookup
contains-bannable_ids id [] h = refl
contains-bannable_ids id ((key, slot) ∷ m) h =
    let rest = contains-bannable_ids id m (ground (arith, h)) in
    elim (Bool-cases (key == id)) [
      | inr other ↦ ground (arith, rest, other)
      | inl same ↦
          let equal : key ≡ id = (text_eq_iff key id).0 same in
          let absent = bannable_ids-absent id m (ground (arith, h, equal)) in
          ground (arith, absent, same)
    ]

-- A strategist of the team may act: the match runs, it is the team's turn, and the timer runs.
abbrev acts : State → TeamSide → Time → Bool
acts s team now =
    s.lifecycle == Lifecycle.running
    && s.active_team == team
    && not s.timer.paused
    && not (expired s.timer now)

module _ (s : State) (team : TeamSide) (now : Time) (id : Text) where
  -- BanPoolSlot, by what it needs of the slot.
  execute-may_ban :
      side_valid team ≡ true
      → is_accepted (execute s (strategist_actor team) (Command.ban_pool_slot id) now)
        ≡ (acts s team now && s.phase == Phase.ban && may_ban (lookup id s.pool_slots))
  unfolding execute dispatch commit ban_pool_slot require_strategist_turn require_running_phase
      require_active_strategist require_strategist_timer strategist_actor
  execute-may_ban valid = ground arith

  offered-may_ban :
      side_valid team ≡ true
      → now ≢ 0
      → contains id (analyze_for_actor s (strategist_actor team) now).ban_pool_slot_ids ≡ (
          acts s team now
          && s.phase == Phase.ban
          && contains id (sort_texts (bannable_ids s.pool_slots)))
  unfolding analyze_for_actor analyze_team analyze_strategist strategist_actor contains
  offered-may_ban valid later = ground arith

  -- For a strategist of a competitive team, in a state whose slots have distinct keys and at any time
  -- but Go's zero time: the slots offered for a ban are exactly those whose BanPoolSlot is accepted.
  pub analyze_for_actor-ban_pool_slot :
      side_valid team ≡ true
      → now ≢ 0
      → distinct (pool_keys s.pool_slots) ≡ true
      → contains id (analyze_for_actor s (strategist_actor team) now).ban_pool_slot_ids
        ≡ is_accepted (execute s (strategist_actor team) (Command.ban_pool_slot id) now)
  analyze_for_actor-ban_pool_slot valid later keys = ground (
    arith,
    execute-may_ban valid,
    offered-may_ban valid later,
    contains-sort_texts id (bannable_ids s.pool_slots),
    contains-bannable_ids id s.pool_slots keys,
  )
