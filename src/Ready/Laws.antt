-- ===== src/Ready/Laws.antt =====
-- A new match is coherent, and ValidateState accepts it.
use rct_hub_backend.Base.{◌≡◌, true, arith, lookup, get_or, is_blank, sym, subst}
use rct_hub_backend.Base.Int.{pos}
use rct_hub_backend.Model.Kinds.{Lifecycle}
use rct_hub_backend.Model.Errors.{ok}
use rct_hub_backend.Model.Timer.{timers_valid}
use rct_hub_backend.Model.State.{Configuration, State, side_valid}
use rct_hub_backend.Setup.{
  new_ready_state, build_pool, empty_build, PoolBuild, validate_rosters, ready_state,
}
use rct_hub_backend.Validation.{
  validate_state, validate_pool_and_board, validate_turn_and_timer, valid_timer_shape,
  validate_lifecycle_state, valid_lifecycle_data, validate_recovery_evidence, valid_pending_request,
  validate_tb_entry_evidence, validate_side_flags, check_board, all_available, valid_slots,
  count_slots,
}
use rct_hub_backend.Coherence.Defs.{IsCoherent}
use rct_hub_backend.Ready.Pool.{IsBuilt, build_pool-IsBuilt, selected_match-available}

-- What the checks of NewReadyState have found.
record IsChecked (c : Configuration) (build : PoolBuild) : Type 0 where
  first_ban : side_valid c.first_ban ≡ true
  first_pick : side_valid c.first_pick ≡ true
  built : build_pool c.pool_slots empty_build ≡ ok build
  shiro : build.shiro_count ≡ 1
  tb : build.tb_count ≡ 1
  rosters : validate_rosters c.rosters ≡ ok tt
  timers : timers_valid c.timers ≡ true

new_ready_state-IsChecked :
    (c : Configuration) {s : State}
    → new_ready_state c ≡ ok s
    → (build : PoolBuild) × (build_pool c.pool_slots empty_build ≡ ok build)
      × IsChecked c build
      × (s ≡ ready_state c build.pool)
unfolding new_ready_state
new_ready_state-IsChecked c h = ground arith

built : (c : Configuration) (build : PoolBuild) → IsChecked c build → IsBuilt build
unfolding all_available valid_slots count_slots
built c build k = build_pool-IsBuilt c.pool_slots empty_build (ground arith) k.built

ready-valid :
    (c : Configuration) (build : PoolBuild)
    → IsChecked c build
    → validate_state (ready_state c build.pool) ≡ true
unfolding validate_state ready_state validate_pool_and_board validate_turn_and_timer
    valid_timer_shape validate_lifecycle_state valid_lifecycle_data validate_recovery_evidence
    valid_pending_request validate_tb_entry_evidence validate_side_flags check_board get_or lookup
    is_blank
ready-valid c build k =
    let b = built c build k in ground (arith, k, b, selected_match-available build.pool b.available)

-- Every state that NewReadyState returns passes ValidateState.
pub new_ready_state-valid :
    (c : Configuration) {s : State} → new_ready_state c ≡ ok s → validate_state s ≡ true
new_ready_state-valid c h =
    let (build, _, k, e) = new_ready_state-IsChecked c h in
    subst (λ s. validate_state s ≡ true) (sym e) (ready-valid c build k)

pub new_ready_state-IsCoherent :
    (c : Configuration) {s : State} → new_ready_state c ≡ ok s → IsCoherent s
unfolding ready_state valid_lifecycle_data get_or lookup
new_ready_state-IsCoherent c h =
    let (build, _, k, e) = new_ready_state-IsChecked c h in
    let b = built c build k in subst IsCoherent (sym e) (ground (arith, k, b))

-- The fields of a new match that later commands count or keep.
pub record IsNew (c : Configuration) (s : State) : Type 0 where
  pub lifecycle : s.lifecycle ≡ Lifecycle.ready
  pub version : s.version ≡ 0
  pub turn : s.turn ≡ pos 0
  pub first_ban : s.first_ban ≡ c.first_ban
  pub first_pick : s.first_pick ≡ c.first_pick
  pub rosters : s.rosters ≡ c.rosters
  pub timers : s.timers ≡ c.timers

pub new_ready_state-IsNew : (c : Configuration) {s : State} → new_ready_state c ≡ ok s → IsNew c s
unfolding ready_state
new_ready_state-IsNew c h =
    let (build, _, _, e) = new_ready_state-IsChecked c h in subst (IsNew c) (sym e) (ground arith)
