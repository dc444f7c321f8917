-- ===== src/Store/Documents.antt =====
-- The documents of internal/persistence/command_store.go and match_snapshot.go, with the envelope, the
-- events and the result of internal/matchcommand/model.go. The bytes of an encoded
-- state or list of events are any type B.
use rct_hub_backend.Base.{ℕ, Bool, Text, List, Option}
use rct_hub_backend.Base.Int.{ℤ}
use rct_hub_backend.Model.Kinds.{TeamSide, Mod, Capability}
use rct_hub_backend.Model.Timer.{Time, TimerConfiguration}
use rct_hub_backend.Model.State.{State, Roster}
use rct_hub_backend.Base.{Map}
use rct_hub_backend.Model.Events.{EventType, Event}
use rct_hub_backend.Domain.Entities.{ObjectId, UserRole}

pub record Envelope : Type 0 where
  pub match_id : ObjectId
  pub expected_version : ℕ
  pub command_id : Text
  pub command_type : Text
  pub request_hash : Text
  pub payload_json : Text
  pub occurred_at : Time

pub record EventActor : Type 0 where
  pub osu_id : ℤ
  pub capability : Capability
  pub team : Option TeamSide
  pub admin_override : Bool
  pub referee_override : Bool

pub record CommittedEvent : Type 0 where
  pub event_id : Text
  pub sequence : ℕ
  pub resulting_version : ℕ
  pub event_type : EventType
  pub occurred_at : Time
  pub actor : EventActor
  pub payload : Event

pub data Disposition : Type 0 where
  applied replayed : Disposition

pub record Result : Type 0 where
  pub command_id : Text
  pub disposition : Disposition
  pub previous_version : ℕ
  pub resulting_version : ℕ
  pub state : State
  pub events : List CommittedEvent

pub record CommandActorDocument : Type 0 where
  pub user_id : ObjectId
  pub osu_id : ℤ
  pub global_roles : List UserRole
  pub capability : Capability
  pub team : Option TeamSide
  pub admin_override : Bool
  pub referee_override : Bool

pub record MatchCommandReceiptDocument (B : Type 0) : Type 0 where
  pub id : ObjectId
  pub match_id : ObjectId
  pub command_id : Text
  pub request_hash : Text
  pub command_type : Text
  pub expected_version : ℕ
  pub previous_version : ℕ
  pub resulting_version : ℕ
  pub actor : CommandActorDocument
  pub state_json : B
  pub events_json : B
  pub created_at : Time

pub record MatchActionDocument : Type 0 where
  pub id : ObjectId
  pub match_id : ObjectId
  pub command_id : Text
  pub command_type : Text
  pub previous_version : ℕ
  pub resulting_version : ℕ
  pub actor : CommandActorDocument
  pub reason : Text
  pub command_payload : Text
  pub events : List Text
  pub created_at : Time

pub data OutboxStatus : Type 0 where
  pending published failed : OutboxStatus

pub record MatchOutboxDocument : Type 0 where
  pub id : ObjectId
  pub event_id : Text
  pub match_id : ObjectId
  pub sequence : ℕ
  pub resulting_version : ℕ
  pub event_type : EventType
  pub actor : CommandActorDocument
  pub payload : Text
  pub status : OutboxStatus
  pub attempts : ℤ
  pub last_error : Text
  pub occurred_at : Time
  pub created_at : Time
  pub published_at : Option Time

-- `origin` is the bytes of the string.
pub record MatchSnapshotDocument (B : Type 0) : Type 0 where
  pub match_id : ObjectId
  pub schema_version : ℤ
  pub match_version : ℕ
  pub origin : Text
  pub configuration_hash : Text
  pub state : B
  pub created_at : Time
  pub updated_at : Time

-- The struct that stateConfigurationHash encodes, with its pool sorted by id.
pub record HashedConfiguration : Type 0 where
  pub first_ban : TeamSide
  pub first_pick : TeamSide
  pub pool : List (Text × Mod)
  pub rosters : Map TeamSide Roster
  pub timers : TimerConfiguration
