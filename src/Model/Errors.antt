-- ===== src/Model/Errors.antt =====
-- internal/matchengine/errors.go: the stable codes of rule errors, and a result with such an error.
-- The texts of the messages are not modelled.
use rct_hub_backend.Base.{Bool, true, false, ◌≡◌, refl}

pub data ErrorCode : Type 0 where
  invalid_request action_not_allowed match_lifecycle_conflict match_phase_conflict not_active_team
        invalid_pool_slot pool_slot_unavailable invalid_board_cell invalid_mod_zone
        result_not_pending timer_expired timer_paused team_pause_already_used robbery_not_available
        robbery_requirements_not_met alignment_overlap tb_not_available surrender_evidence_invalid :
      ErrorCode

-- A Go result (value, error).
pub data Fallible {ℓ} (A : Type ℓ) : Type ℓ where
  ok : A → Fallible A
  err : ErrorCode → Fallible A

-- if test { return ruleError(code) }
abbrev pub fail_if : Bool → ErrorCode → Fallible (Unit {0})
fail_if true e = err e
fail_if false e = ok tt

infixl 5 ◌>>=◌ ◌>>◌
abbrev pub ◌>>=◌ {ℓ κ} : {A : Type ℓ} {B : Type κ} → Fallible A → (A → Fallible B) → Fallible B
err code >>= next = err code
ok value >>= next = next value

abbrev pub ◌>>◌ {ℓ} : {A : Type ℓ} → Fallible (Unit {0}) → Fallible A → Fallible A
check >> rest = check >>= λ _. rest

-- The parts of a chain that succeeds.
pub >>=-eq-ok {ℓ κ} :
    {A : Type ℓ} {B : Type κ} (first : Fallible A) (next : A → Fallible B) {b : B}
    → (first >>= next) ≡ ok b
    → (a : A) × (first ≡ ok a) × (next a ≡ ok b)
>>=-eq-ok (err code) next h = cc
>>=-eq-ok (ok value) next h = (value, refl, h)

pub fail_if-eq-ok : (b : Bool) (e : ErrorCode) {u : Unit {0}} → fail_if b e ≡ ok u → b ≡ false
fail_if-eq-ok true e h = cc
fail_if-eq-ok false e h = refl
