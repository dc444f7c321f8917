-- ===== src/Command/Errors.antt =====
-- internal/matchcommand/errors.go: the errors of a command request, and the results with one. An
-- error has its code, and a version conflict the current version; texts and causes are not modelled.
use rct_hub_backend.Base.{◌≡◌, refl, ℕ, Bool, true, false, Option, none, some, ◌⊎◌, inl, inr, arith}
use rct_hub_backend.Model.Errors.{ErrorCode}

-- What the MongoDB driver reports of a write.
pub data DriverError : Type 0 where
  duplicate_key failure : DriverError

-- `rule` holds the engine's codes that have no constant of their own here, and `driver` an error of
-- the driver that is passed on as it is.
pub data CommandError : Type 0 where
  invalid_request auth_required user_not_verified user_banned global_role_required
        room_role_required action_not_allowed resource_not_found duplicate_command_mismatch
        internal_error :
      CommandError
  match_version_conflict : (current : ℕ) → CommandError
  rule : ErrorCode → CommandError
  driver : DriverError → CommandError

-- NewError(ErrorCode(ruleErr.Code), ...): the strings of two codes are those of constants here.
unfoldable pub of_rule : ErrorCode → CommandError
of_rule ErrorCode.invalid_request = CommandError.invalid_request
of_rule ErrorCode.action_not_allowed = CommandError.action_not_allowed
of_rule code = CommandError.rule code

-- mongo.IsDuplicateKeyError(err)
unfoldable pub is_duplicate_key : CommandError → Bool
is_duplicate_key (CommandError.driver DriverError.duplicate_key) = true
is_duplicate_key _ = false

-- A Go result (value, error) of the command layer.
pub data Attempt {ℓ} (A : Type ℓ) : Type ℓ where
  done : A → Attempt A
  fail : CommandError → Attempt A

infixl 5 ◌>>=◌ ◌>>◌
abbrev pub ◌>>=◌ {ℓ κ} : {A : Type ℓ} {B : Type κ} → Attempt A → (A → Attempt B) → Attempt B
fail e >>= next = fail e
done value >>= next = next value

abbrev pub ◌>>◌ {ℓ} : {A : Type ℓ} → Attempt (Unit {0}) → Attempt A → Attempt A
check >> rest = check >>= λ _. rest

-- if test { return error }
abbrev pub fail_if : Bool → CommandError → Attempt (Unit {0})
fail_if true e = fail e
fail_if false e = done tt

-- value, err := ...; if err != nil { return error }
abbrev pub or_fail {ℓ} : {A : Type ℓ} → Option A → CommandError → Attempt A
or_fail none e = fail e
or_fail (some a) e = done a

-- The parts of a chain that succeeds.
pub >>=-eq-done {ℓ κ} :
    {A : Type ℓ} {B : Type κ} (first : Attempt A) (next : A → Attempt B) {b : B}
    → (first >>= next) ≡ done b
    → (a : A) × (first ≡ done a) × (next a ≡ done b)
>>=-eq-done (fail e) next h = ground arith
>>=-eq-done (done value) next h = (value, refl, h)

pub Attempt-cases {ℓ} :
    {A : Type ℓ} (a : Attempt A) → ((e : CommandError) × (a ≡ fail e)) ⊎ ((v : A) × (a ≡ done v))
Attempt-cases (fail e) = inl (e, refl)
Attempt-cases (done v) = inr (v, refl)

pub fail_if-eq-done :
    (b : Bool) (e : CommandError) {u : Unit {0}} → fail_if b e ≡ done u → b ≡ false
fail_if-eq-done b e h = ground arith

pub or_fail-eq-done {ℓ} :
    {A : Type ℓ} (o : Option A) (e : CommandError) {a : A} → or_fail o e ≡ done a → o ≡ some a
or_fail-eq-done o e h = ground arith

pub done-injective {ℓ} : {A : Type ℓ} {x y : A} → done x ≡ done y → x ≡ y
done-injective h = ground arith
