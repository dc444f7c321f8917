-- ===== src/Store/Snapshot.antt =====
-- internal/persistence/match_snapshot.go and snapshot_store.go: the stored aggregate of a match.
use rct_hub_backend.Base.{
  ℕ, ◌-◌, ◌^◌, Bool, not, ◌||◌, Text, List, [], ◌∷◌, Option, none, some, codes, ◌==◌, text_Eq,
  nat_Eq, is_empty, ltb, text_leb, if◌then◌else◌,
}
use rct_hub_backend.Base.Int.{ℤ, pos, int_Eq, inc_u64}
use rct_hub_backend.Model.Kinds.{Mod}
use rct_hub_backend.Model.Timer.{Time}
use rct_hub_backend.Model.State.{State, PoolSlot}
use rct_hub_backend.Base.{Map}
use rct_hub_backend.Validation.{validate_state}
use rct_hub_backend.Domain.Entities.{ObjectId, nil_object_id}
use rct_hub_backend.Command.Errors.{DriverError}
use rct_hub_backend.Store.Documents.{MatchSnapshotDocument}
use rct_hub_backend.Store.Driver.{Driver, Codec, Found, Write}

-- The errors of the snapshot store; `failed` is any error without a name of its own.
pub data SnapshotError : Type 0 where
  not_found invalid_identifier already_exists invalid_transition corrupt incompatible
        legacy_requires_migration failed :
      SnapshotError
  version_conflict : (expected current : ℕ) → SnapshotError

pub data Stored {ℓ} (A : Type ℓ) : Type ℓ where
  stored : A → Stored A
  error : SnapshotError → Stored A

infixl 5 ◌>>=◌ ◌>>◌
abbrev pub ◌>>=◌ {ℓ κ} : {A : Type ℓ} {B : Type κ} → Stored A → (A → Stored B) → Stored B
error e >>= next = error e
stored value >>= next = next value

abbrev pub ◌>>◌ {ℓ} : {A : Type ℓ} → Stored (Unit {0}) → Stored A → Stored A
check >> rest = check >>= λ _. rest

abbrev pub stored_or {ℓ} : {A : Type ℓ} → Option A → SnapshotError → Stored A
stored_or none e = error e
stored_or (some a) e = stored a

abbrev pub error_if : Bool → SnapshotError → Stored (Unit {0})
error_if test e = if test then error e else stored tt

abbrev pub match_snapshot_schema_version : ℤ
match_snapshot_schema_version = pos 3

abbrev pub snapshot_origin_native : Text
snapshot_origin_native = codes "NATIVE"

-- sort.Slice of the pool by id; the ids of a map's slots are distinct in every valid state.
unfoldable pub insert_slot : Text × Mod → List (Text × Mod) → List (Text × Mod)
insert_slot slot [] = slot ∷ []
insert_slot slot (other ∷ slots) =
    let rest = insert_slot slot slots in
    if text_leb (slot.0) (other.0) then slot ∷ other ∷ slots else other ∷ rest

unfoldable pub hashed_pool : Map Text PoolSlot → List (Text × Mod)
hashed_pool [] = []
hashed_pool ((key, slot) ∷ slots) = insert_slot (slot.id, slot.slot_mod) (hashed_pool slots)

unfoldable pub state_configuration_hash : {B : Type 0} → Codec B → State → Option Text
state_configuration_hash codec s = codec.configuration_digest (record {
  first_ban = s.first_ban;
  first_pick = s.first_pick;
  pool = hashed_pool s.pool_slots;
  rosters = s.rosters;
  timers = s.timers;
})

abbrev pub snapshot_document :
    {B : Type 0} → ObjectId → State → Time → (document : B) (hash : Text) → MatchSnapshotDocument B
snapshot_document match_id s updated_at document hash = record {
  match_id = match_id;
  schema_version = match_snapshot_schema_version;
  match_version = s.version;
  origin = snapshot_origin_native;
  configuration_hash = hash;
  state = document;
  created_at = updated_at;
  updated_at = updated_at;
}

-- NewMatchSnapshotDocument; every error of it is `failed`.
unfoldable pub new_match_snapshot_document :
    {B : Type 0} → Codec B → ObjectId → State → Time → Stored (MatchSnapshotDocument B)
new_match_snapshot_document codec match_id s updated_at = do
  error_if (match_id == nil_object_id) SnapshotError.failed
  error_if (updated_at == 0) SnapshotError.failed
  error_if (not (validate_state s)) SnapshotError.failed
  document ← stored_or (codec.state_document s) SnapshotError.failed
  hash ← stored_or (state_configuration_hash codec s) SnapshotError.failed
  stored (snapshot_document match_id s updated_at document hash)

-- DecodeState; the bytes of a document are not valid BSON when `document_state` has no result.
unfoldable pub decode_state : {B : Type 0} → Codec B → MatchSnapshotDocument B → Stored State
decode_state codec d = do
  error_if (d.match_id == nil_object_id) SnapshotError.failed
  error_if (not (d.schema_version == match_snapshot_schema_version)) SnapshotError.failed
  error_if (not (d.origin == snapshot_origin_native)) SnapshotError.failed
  error_if (is_empty d.configuration_hash) SnapshotError.failed
  error_if (d.created_at == 0 || d.updated_at == 0) SnapshotError.failed
  error_if (ltb d.updated_at d.created_at) SnapshotError.failed
  error_if (codec.is_empty_document d.state) SnapshotError.failed
  s ← stored_or (codec.document_state d.state) SnapshotError.failed
  error_if (not (s.version == d.match_version)) SnapshotError.failed
  error_if (not (validate_state s)) SnapshotError.failed
  hash ← stored_or (state_configuration_hash codec s) SnapshotError.failed
  error_if (not (hash == d.configuration_hash)) SnapshotError.failed
  stored s

-- fmt.Errorf("%w: ...", e, err)
abbrev pub relabel {ℓ} : {A : Type ℓ} → SnapshotError → Stored A → Stored A
relabel e (stored a) = stored a
relabel e (error _) = error e

module _ {D B : Type 0} (m : Driver D B) (codec : Codec B) where
  unfoldable pub missing_snapshot_error : ObjectId → D → SnapshotError
  missing_snapshot_error match_id d = elim (m.find_legacy match_id d) [
    | Found.found _ ↦ SnapshotError.legacy_requires_migration
    | Found.no_documents ↦ SnapshotError.not_found
    | Found.broken ↦ SnapshotError.failed
  ]

  -- FindOne by _id in Load and in CompareAndSwap.
  unfoldable pub read_snapshot : ObjectId → D → Stored (MatchSnapshotDocument B)
  read_snapshot match_id d = elim (m.find_snapshot match_id d) [
    | Found.found document ↦ stored document
    | Found.no_documents ↦ error (missing_snapshot_error match_id d)
    | Found.broken ↦ error SnapshotError.failed
  ]

  -- The checks of schema and origin, and DecodeState.
  unfoldable pub open_snapshot : MatchSnapshotDocument B → Stored State
  open_snapshot document = do
    error_if
        (not (document.schema_version == match_snapshot_schema_version)
          || not (document.origin == snapshot_origin_native))
        SnapshotError.incompatible
    relabel SnapshotError.corrupt (decode_state codec document)

  unfoldable pub load : ObjectId → D → Stored State
  load match_id d = do
    error_if (match_id == nil_object_id) SnapshotError.invalid_identifier
    document ← read_snapshot match_id d
    open_snapshot document

  unfoldable pub create : ObjectId → State → Time → D → Stored D
  create match_id s now d = do
    document ← new_match_snapshot_document codec match_id s now
    elim (m.insert_snapshot document d) [
      | Write.written d' ↦ stored d'
      | Write.refused DriverError.duplicate_key ↦ error SnapshotError.already_exists
      | Write.refused DriverError.failure ↦ error SnapshotError.failed
    ]

  -- The end of CompareAndSwap, when no document matched the filter.
  unfoldable pub explain_conflict : MatchSnapshotDocument B → ℕ → D → SnapshotError
  explain_conflict document expected d =
      elim (do
        current ← read_snapshot document.match_id d
        s ← open_snapshot current
        error_if (not (current.configuration_hash == document.configuration_hash))
            SnapshotError.invalid_transition
        error_if (ltb document.updated_at current.updated_at) SnapshotError.invalid_transition
        stored current.match_version) [
          | stored current ↦ SnapshotError.version_conflict expected current
          | error e ↦ e
        ]

  unfoldable pub compare_and_swap : ObjectId → ℕ → State → Time → D → Stored D
  compare_and_swap match_id expected next now d = do
    error_if (expected == 2 ^ 64 - 1 || not (next.version == inc_u64 expected))
        SnapshotError.invalid_transition
    document ←
        relabel SnapshotError.invalid_transition
          (new_match_snapshot_document codec match_id next now)
    elim (m.update_snapshot
        (record {
          match_id = match_id;
          schema_version = match_snapshot_schema_version;
          origin = snapshot_origin_native;
          configuration_hash = document.configuration_hash;
          match_version = expected;
          updated_at = document.updated_at;
        })
        (record {
          schema_version = document.schema_version;
          match_version = document.match_version;
          state = document.state;
          updated_at = document.updated_at;
        })
        d) [
          | Write.refused _ ↦ error SnapshotError.failed
          | Write.written (matched, d') ↦
              if matched == 1 then stored d' else error (explain_conflict document expected d')
        ]
