-- ===== src/Model/Kinds.antt =====
-- The string constants of internal/matchengine/model.go and board.go as data types, each with Go's
-- `==`. All strings that no constant names are the one constructor `unknown`: the program compares
-- such a value only with a constant, or with a value that it has checked before.
use rct_hub_backend.Base.{Bool, true, false, ◌≡◌, ◌↔◌, arith, Eq}

-- One competitive side. `unset` is the empty string, which stands for no team.
pub data TeamSide : Type 0 where
  red blue unset unknown : TeamSide

abbrev pub team_side_eq : TeamSide → TeamSide → Bool
team_side_eq TeamSide.red TeamSide.red = true
team_side_eq TeamSide.blue TeamSide.blue = true
team_side_eq TeamSide.unset TeamSide.unset = true
team_side_eq TeamSide.unknown TeamSide.unknown = true
team_side_eq _ _ = false

pub team_side_eq_iff : (a b : TeamSide) → (team_side_eq a b ≡ true) ↔ (a ≡ b)
team_side_eq_iff a b = ground arith

instance abbrev pub team_side_Eq : Eq TeamSide
team_side_Eq = record { same = team_side_eq; same_iff = team_side_eq_iff }

-- The administrative state of a match.
pub data Lifecycle : Type 0 where
  ready running suspended adjudication_required finished aborted unknown : Lifecycle

abbrev pub lifecycle_eq : Lifecycle → Lifecycle → Bool
lifecycle_eq Lifecycle.ready Lifecycle.ready = true
lifecycle_eq Lifecycle.running Lifecycle.running = true
lifecycle_eq Lifecycle.suspended Lifecycle.suspended = true
lifecycle_eq Lifecycle.adjudication_required Lifecycle.adjudication_required = true
lifecycle_eq Lifecycle.finished Lifecycle.finished = true
lifecycle_eq Lifecycle.aborted Lifecycle.aborted = true
lifecycle_eq Lifecycle.unknown Lifecycle.unknown = true
lifecycle_eq _ _ = false

pub lifecycle_eq_iff : (a b : Lifecycle) → (lifecycle_eq a b ≡ true) ↔ (a ≡ b)
lifecycle_eq_iff a b = ground arith

instance abbrev pub lifecycle_Eq : Eq Lifecycle
lifecycle_Eq = record { same = lifecycle_eq; same_iff = lifecycle_eq_iff }

-- The current action context.
pub data Phase : Type 0 where
  none ban pick waiting_for_result tb_preparation tb_playing unknown : Phase

abbrev pub phase_eq : Phase → Phase → Bool
phase_eq Phase.none Phase.none = true
phase_eq Phase.ban Phase.ban = true
phase_eq Phase.pick Phase.pick = true
phase_eq Phase.waiting_for_result Phase.waiting_for_result = true
phase_eq Phase.tb_preparation Phase.tb_preparation = true
phase_eq Phase.tb_playing Phase.tb_playing = true
phase_eq Phase.unknown Phase.unknown = true
phase_eq _ _ = false

pub phase_eq_iff : (a b : Phase) → (phase_eq a b ≡ true) ↔ (a ≡ b)
phase_eq_iff a b = ground arith

instance abbrev pub phase_Eq : Eq Phase
phase_Eq = record { same = phase_eq; same_iff = phase_eq_iff }

-- The category of a pool slot.
pub data Mod : Type 0 where
  nm hd hr dt fm shiro tb unknown : Mod

abbrev pub mod_eq : Mod → Mod → Bool
mod_eq Mod.nm Mod.nm = true
mod_eq Mod.hd Mod.hd = true
mod_eq Mod.hr Mod.hr = true
mod_eq Mod.dt Mod.dt = true
mod_eq Mod.fm Mod.fm = true
mod_eq Mod.shiro Mod.shiro = true
mod_eq Mod.tb Mod.tb = true
mod_eq Mod.unknown Mod.unknown = true
mod_eq _ _ = false

pub mod_eq_iff : (a b : Mod) → (mod_eq a b ≡ true) ↔ (a ≡ b)
mod_eq_iff a b = ground arith

instance abbrev pub mod_Eq : Eq Mod
mod_Eq = record { same = mod_eq; same_iff = mod_eq_iff }

-- The forced mod of an FM piece.
pub data ForceMod : Type 0 where
  nm hd hr unknown : ForceMod

abbrev pub force_mod_eq : ForceMod → ForceMod → Bool
force_mod_eq ForceMod.nm ForceMod.nm = true
force_mod_eq ForceMod.hd ForceMod.hd = true
force_mod_eq ForceMod.hr ForceMod.hr = true
force_mod_eq ForceMod.unknown ForceMod.unknown = true
force_mod_eq _ _ = false

pub force_mod_eq_iff : (a b : ForceMod) → (force_mod_eq a b ≡ true) ↔ (a ≡ b)
force_mod_eq_iff a b = ground arith

instance abbrev pub force_mod_Eq : Eq ForceMod
force_mod_Eq = record { same = force_mod_eq; same_iff = force_mod_eq_iff }

-- Whether a slot is still selectable.
pub data PoolSlotState : Type 0 where
  available banned selected unknown : PoolSlotState

abbrev pub pool_slot_state_eq : PoolSlotState → PoolSlotState → Bool
pool_slot_state_eq PoolSlotState.available PoolSlotState.available = true
pool_slot_state_eq PoolSlotState.banned PoolSlotState.banned = true
pool_slot_state_eq PoolSlotState.selected PoolSlotState.selected = true
pool_slot_state_eq PoolSlotState.unknown PoolSlotState.unknown = true
pool_slot_state_eq _ _ = false

pub pool_slot_state_eq_iff : (a b : PoolSlotState) → (pool_slot_state_eq a b ≡ true) ↔ (a ≡ b)
pool_slot_state_eq_iff a b = ground arith

instance abbrev pub pool_slot_state_Eq : Eq PoolSlotState
pool_slot_state_Eq = record { same = pool_slot_state_eq; same_iff = pool_slot_state_eq_iff }

-- The competitive state of a board piece.
pub data Outcome : Type 0 where
  waiting_result won white dead unknown : Outcome

abbrev pub outcome_eq : Outcome → Outcome → Bool
outcome_eq Outcome.waiting_result Outcome.waiting_result = true
outcome_eq Outcome.won Outcome.won = true
outcome_eq Outcome.white Outcome.white = true
outcome_eq Outcome.dead Outcome.dead = true
outcome_eq Outcome.unknown Outcome.unknown = true
outcome_eq _ _ = false

pub outcome_eq_iff : (a b : Outcome) → (outcome_eq a b ≡ true) ↔ (a ≡ b)
outcome_eq_iff a b = ground arith

instance abbrev pub outcome_Eq : Eq Outcome
outcome_Eq = record { same = outcome_eq; same_iff = outcome_eq_iff }

-- Why a match goes to the tiebreaker.
pub data TbBasis : Type 0 where
  captain_agreement forced_after_robbery_checks unset unknown : TbBasis

abbrev pub tb_basis_eq : TbBasis → TbBasis → Bool
tb_basis_eq TbBasis.captain_agreement TbBasis.captain_agreement = true
tb_basis_eq TbBasis.forced_after_robbery_checks TbBasis.forced_after_robbery_checks = true
tb_basis_eq TbBasis.unset TbBasis.unset = true
tb_basis_eq TbBasis.unknown TbBasis.unknown = true
tb_basis_eq _ _ = false

pub tb_basis_eq_iff : (a b : TbBasis) → (tb_basis_eq a b ≡ true) ↔ (a ≡ b)
tb_basis_eq_iff a b = ground arith

instance abbrev pub tb_basis_Eq : Eq TbBasis
tb_basis_Eq = record { same = tb_basis_eq; same_iff = tb_basis_eq_iff }

-- How a match was decided.
pub data ResultReason : Type 0 where
  four_alignment tb surrender stalemate_won_count unknown : ResultReason

abbrev pub result_reason_eq : ResultReason → ResultReason → Bool
result_reason_eq ResultReason.four_alignment ResultReason.four_alignment = true
result_reason_eq ResultReason.tb ResultReason.tb = true
result_reason_eq ResultReason.surrender ResultReason.surrender = true
result_reason_eq ResultReason.stalemate_won_count ResultReason.stalemate_won_count = true
result_reason_eq ResultReason.unknown ResultReason.unknown = true
result_reason_eq _ _ = false

pub result_reason_eq_iff : (a b : ResultReason) → (result_reason_eq a b ≡ true) ↔ (a ≡ b)
result_reason_eq_iff a b = ground arith

instance abbrev pub result_reason_Eq : Eq ResultReason
result_reason_Eq = record { same = result_reason_eq; same_iff = result_reason_eq_iff }

-- The room permissions that the engine knows.
pub data Capability : Type 0 where
  strategist captain referee unknown : Capability

abbrev pub capability_eq : Capability → Capability → Bool
capability_eq Capability.strategist Capability.strategist = true
capability_eq Capability.captain Capability.captain = true
capability_eq Capability.referee Capability.referee = true
capability_eq Capability.unknown Capability.unknown = true
capability_eq _ _ = false

pub capability_eq_iff : (a b : Capability) → (capability_eq a b ≡ true) ↔ (a ≡ b)
capability_eq_iff a b = ground arith

instance abbrev pub capability_Eq : Eq Capability
capability_Eq = record { same = capability_eq; same_iff = capability_eq_iff }

-- The mod region of a cell; `unset` is the zero value.
pub data Zone : Type 0 where
  dt hd hr unset : Zone

abbrev pub zone_eq : Zone → Zone → Bool
zone_eq Zone.dt Zone.dt = true
zone_eq Zone.hd Zone.hd = true
zone_eq Zone.hr Zone.hr = true
zone_eq Zone.unset Zone.unset = true
zone_eq _ _ = false

pub zone_eq_iff : (a b : Zone) → (zone_eq a b ≡ true) ↔ (a ≡ b)
zone_eq_iff a b = ground arith

instance abbrev pub zone_Eq : Eq Zone
zone_Eq = record { same = zone_eq; same_iff = zone_eq_iff }
