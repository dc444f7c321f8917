-- ===== src/Store/Commands.antt =====
-- internal/persistence/command_store.go: Apply and what it calls.
use rct_hub_backend.Base.{
  ℕ, suc, ◌+◌, ◌^◌, ◌%◌, not, Text, List, [], ◌∷◌, Option, none, some, ◌==◌, map, text_Eq, nat_Eq,
  if◌then◌else◌,
}
use rct_hub_backend.Base.Int.{pos, inc_u64, int_Eq}
use rct_hub_backend.Model.State.{State}
use rct_hub_backend.Model.Events.{Event, Transition}
use rct_hub_backend.Validation.{validate_state}
use rct_hub_backend.Domain.Entities.{ObjectId}
use rct_hub_backend.Command.Errors.{
  CommandError, DriverError, Attempt, done, fail, ◌>>=◌, ◌>>◌, fail_if, or_fail, is_duplicate_key,
}
use rct_hub_backend.Command.Authorize.{AuthorizedActor}
use rct_hub_backend.Store.Documents.{
  Envelope, EventActor, CommittedEvent, Disposition, Result, CommandActorDocument,
  MatchCommandReceiptDocument, MatchActionDocument, OutboxStatus, MatchOutboxDocument,
}
use rct_hub_backend.Store.Driver.{Driver, Codec, Ids, Found, Write}
use rct_hub_backend.Store.Snapshot.{SnapshotError, Stored, stored, error, load, compare_and_swap}

unfoldable pub map_snapshot_command_error : SnapshotError → CommandError
map_snapshot_command_error (SnapshotError.version_conflict expected current) =
    CommandError.match_version_conflict current
map_snapshot_command_error SnapshotError.not_found = CommandError.resource_not_found
map_snapshot_command_error SnapshotError.legacy_requires_migration = CommandError.resource_not_found
map_snapshot_command_error _ = CommandError.internal_error

abbrev pub of_stored {ℓ} : {A : Type ℓ} → Stored A → Attempt A
of_stored (stored a) = done a
of_stored (error e) = fail (map_snapshot_command_error e)

-- if _, insertErr := ...; insertErr != nil { return insertErr }
abbrev pub of_write {ℓ} : {A : Type ℓ} → Write A → Attempt A
of_write (Write.written a) = done a
of_write (Write.refused e) = fail (CommandError.driver e)

unfoldable pub command_actor_document : AuthorizedActor → CommandActorDocument
command_actor_document actor = record {
  user_id = actor.user_id;
  osu_id = actor.osu_id;
  global_roles = actor.global_roles;
  capability = actor.engine_actor.capability;
  team = actor.engine_actor.team;
  admin_override = actor.admin_override;
  referee_override = actor.referee_override;
}

abbrev pub event_actor : CommandActorDocument → EventActor
event_actor actor = record {
  osu_id = actor.osu_id;
  capability = actor.capability;
  team = actor.team;
  admin_override = actor.admin_override;
  referee_override = actor.referee_override;
}

-- The loop over the events of a stored receipt.
unfoldable pub fill_actor : CommandActorDocument → CommittedEvent → CommittedEvent
fill_actor actor e = if e.actor.osu_id == pos 0 then record e { actor = event_actor actor } else e

-- What buildOutboxDocuments returns.
pub record Outbox : Type 0 where
  pub documents : List MatchOutboxDocument
  pub payloads : List Text
  pub committed : List CommittedEvent

module _ {B : Type 0} (codec : Codec B) (ids : Ids) (envelope : Envelope)
    (actor : CommandActorDocument) (version last : ℕ) where
  unfoldable pub committed_event : ℕ → Event → CommittedEvent
  committed_event index e = record {
    event_id = ids.event_id index;
    sequence = (last + index + 1) % 2 ^ 64;
    resulting_version = version;
    event_type = e.event_type;
    occurred_at = envelope.occurred_at;
    actor = event_actor actor;
    payload = e;
  }

  unfoldable pub outbox_document : ℕ → Event → Text → MatchOutboxDocument
  outbox_document index e payload = record {
    id = ids.outbox_id index;
    event_id = ids.event_id index;
    match_id = envelope.match_id;
    sequence = (last + index + 1) % 2 ^ 64;
    resulting_version = version;
    event_type = e.event_type;
    actor = actor;
    payload = payload;
    status = OutboxStatus.pending;
    attempts = pos 0;
    last_error = [];
    occurred_at = envelope.occurred_at;
    created_at = envelope.occurred_at;
    published_at = none;
  }

  -- The loop of buildOutboxDocuments, from an index on.
  unfoldable pub build_from : ℕ → List Event → Attempt Outbox
  build_from index [] = done (record { documents = []; payloads = []; committed = [] })
  build_from index (e ∷ events) = do
    payload ← or_fail (codec.event_document e) CommandError.internal_error
    audit ← or_fail (codec.committed_document (committed_event index e)) CommandError.internal_error
    rest ← build_from (suc index) events
    done (record {
      documents = outbox_document index e payload ∷ rest.documents;
      payloads = audit ∷ rest.payloads;
      committed = committed_event index e ∷ rest.committed;
    })

-- json.Marshal and json.Unmarshal of the events, with nil where either fails.
unfoldable pub clone_committed_events :
    {B : Type 0} → Codec B → List CommittedEvent → List CommittedEvent
clone_committed_events codec events = elim (codec.encode_events events) [
  | none ↦ []
  | some encoded ↦ elim (codec.decode_events encoded) [ none ↦ [] | some clone ↦ clone ]
]

-- The end of loadReceipt, with a receipt that was found.
unfoldable pub replay :
    {B : Type 0} → Codec B → MatchCommandReceiptDocument B → Envelope → Attempt Result
replay codec receipt envelope = do
  fail_if (not (receipt.request_hash == envelope.request_hash))
      CommandError.duplicate_command_mismatch
  s ← or_fail (codec.decode_state receipt.state_json) CommandError.internal_error
  fail_if (not (validate_state s)) CommandError.internal_error
  events ← or_fail (codec.decode_events receipt.events_json) CommandError.internal_error
  done (record {
    command_id = receipt.command_id;
    disposition = Disposition.replayed;
    previous_version = receipt.previous_version;
    resulting_version = receipt.resulting_version;
    state = s;
    events = map (fill_actor receipt.actor) events;
  })

-- The documents that Apply inserts, and its result.
module _ (ids : Ids) (envelope : Envelope) (actor : AuthorizedActor) (current : State)
    (transition : Transition) where
  abbrev pub command_action : (payload : Text) → Outbox → MatchActionDocument
  command_action payload outbox = record {
    id = ids.action_id;
    match_id = envelope.match_id;
    command_id = envelope.command_id;
    command_type = envelope.command_type;
    previous_version = current.version;
    resulting_version = transition.state.version;
    actor = command_actor_document actor;
    reason = actor.reason;
    command_payload = payload;
    events = outbox.payloads;
    created_at = envelope.occurred_at;
  }

  abbrev pub command_receipt :
      {B : Type 0} → (state_json events_json : B) → MatchCommandReceiptDocument B
  command_receipt state_json events_json = record {
    id = ids.receipt_id;
    match_id = envelope.match_id;
    command_id = envelope.command_id;
    request_hash = envelope.request_hash;
    command_type = envelope.command_type;
    expected_version = envelope.expected_version;
    previous_version = current.version;
    resulting_version = transition.state.version;
    actor = command_actor_document actor;
    state_json = state_json;
    events_json = events_json;
    created_at = envelope.occurred_at;
  }

abbrev pub applied_result : {B : Type 0} → Codec B → Envelope → State → Transition → Outbox → Result
applied_result codec envelope current transition outbox = record {
  command_id = envelope.command_id;
  disposition = Disposition.applied;
  previous_version = current.version;
  resulting_version = transition.state.version;
  state = transition.state;
  events = clone_committed_events codec outbox.committed;
}

module _ {D B : Type 0} (m : Driver D B) (codec : Codec B) where
  unfoldable pub last_sequence : ObjectId → D → Attempt ℕ
  last_sequence match_id d = elim (m.last_outbox_sequence match_id d) [
    | Found.found sequence ↦ done sequence
    | Found.no_documents ↦ done 0
    | Found.broken ↦ fail (CommandError.driver DriverError.failure)
  ]

  unfoldable pub build_outbox_documents :
      Ids → Envelope → CommandActorDocument → Transition → D → Attempt Outbox
  build_outbox_documents ids envelope actor transition d = do
    last ← last_sequence envelope.match_id d
    build_from codec ids envelope actor transition.state.version last 0 transition.events

  -- loadReceipt, with `none` when there is no receipt.
  unfoldable pub load_receipt : Envelope → D → Attempt (Option Result)
  load_receipt envelope d = elim (m.find_receipt envelope.match_id envelope.command_id d) [
    | Found.found receipt ↦ do result ← replay codec receipt envelope; done (some result)
    | Found.no_documents ↦ done none
    | Found.broken ↦ fail (CommandError.driver DriverError.failure)
  ]

  -- outbox.InsertMany, unless there is nothing to insert.
  abbrev pub insert_events : List MatchOutboxDocument → D → Attempt D
  insert_events [] d = done d
  insert_events (document ∷ documents) d = of_write (m.insert_outbox (document ∷ documents) d)

  -- The part of the transaction that writes, with the encoded values.
  unfoldable pub write_command :
      Ids
      → Envelope
      → AuthorizedActor
      → State
      → Transition
      → (payload : Text) → Outbox
      → (state_json events_json : B) → D
      → Attempt (Result × D)
  write_command ids envelope actor current transition payload outbox state_json events_json d = do
    d₁ ← of_stored (
        compare_and_swap m codec envelope.match_id current.version transition.state
          envelope.occurred_at d)
    d₂ ←
        of_write
          (m.insert_action (command_action ids envelope actor current transition payload outbox) d₁)
    d₃ ← insert_events outbox.documents d₂
    d₄ ← of_write (
        m.insert_receipt
          (command_receipt ids envelope actor current transition state_json events_json) d₃)
    done (applied_result codec envelope current transition outbox, d₄)

  -- What the transaction does with a command that has no receipt.
  unfoldable pub apply_new :
      Ids
      → Envelope
      → Attempt AuthorizedActor
      → (State → AuthorizedActor → Attempt Transition)
      → D
      → Attempt (Result × D)
  apply_new ids envelope authorized execute d = do
    actor ← authorized
    current ← of_stored (load m codec envelope.match_id d)
    fail_if (not (current.version == envelope.expected_version))
        (CommandError.match_version_conflict current.version)
    transition ← execute current actor
    fail_if (not (transition.state.version == inc_u64 current.version)) CommandError.internal_error
    payload ← or_fail (codec.json_document envelope.payload_json) CommandError.invalid_request
    outbox ← build_outbox_documents ids envelope (command_actor_document actor) transition d
    state_json ← or_fail (codec.encode_state transition.state) CommandError.internal_error
    events_json ← or_fail (codec.encode_events outbox.committed) CommandError.internal_error
    write_command ids envelope actor current transition payload outbox state_json events_json d

  -- The function that WithTransaction runs.
  unfoldable pub command_body :
      Ids
      → Envelope
      → Attempt AuthorizedActor
      → (State → AuthorizedActor → Attempt Transition)
      → D
      → Attempt (Result × D)
  command_body ids envelope authorized execute d = do
    replayed ← load_receipt envelope d
    elim replayed [
      | some result ↦ done (result, d)
      | none ↦ apply_new ids envelope authorized execute d
    ]

  -- The end of Apply: after a duplicate key, the receipt that another writer left counts.
  unfoldable pub finish : Envelope → Attempt Result × D → Attempt Result × D
  finish envelope (done result, d) = (done result, d)
  finish envelope (fail e, d) =
      if is_duplicate_key e
      then elim (load_receipt envelope d) [
        | fail e' ↦ (fail e', d)
        | done (some result) ↦ (done result, d)
        | done none ↦ (fail e, d)
      ]
      else (fail e, d)

  unfoldable pub apply :
      Ids
      → Envelope
      → Attempt AuthorizedActor
      → (State → AuthorizedActor → Attempt Transition)
      → D
      → Attempt Result × D
  apply ids envelope authorized execute d = elim (load_receipt envelope d) [
    | fail e ↦ (fail e, d)
    | done (some result) ↦ (done result, d)
    | done none ↦ elim (m.starts_session d) [
      | Write.refused _ ↦ (fail CommandError.internal_error, d)
      | Write.written _ ↦
          finish envelope (m.with_transaction (command_body ids envelope authorized execute) d)
    ]
  ]
