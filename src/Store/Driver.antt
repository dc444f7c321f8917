-- ===== src/Store/Driver.antt =====
-- What internal/persistence uses of the MongoDB driver, of the encoders of JSON, BSON and SHA-256, and
-- of the generators of ids. None of it is in the repository: it is a parameter, over any type of
-- databases and of encoded values. What the code relies on are the two records of laws, which say what is documented.
use rct_hub_backend.Base.{◌≡◌, ℕ, Bool, Text, List, Option, some, is_empty, false, true, map}
use rct_hub_backend.Base.Int.{ℤ}
use rct_hub_backend.Model.Timer.{Time}
use rct_hub_backend.Model.State.{State}
use rct_hub_backend.Model.Events.{Event}
use rct_hub_backend.Validation.{validate_state}
use rct_hub_backend.Store.Utf8.{is_utf8}
use rct_hub_backend.Domain.Entities.{ObjectId}
use rct_hub_backend.Command.Errors.{CommandError, DriverError, Attempt, done, fail}
use rct_hub_backend.Store.Documents.{
  CommittedEvent, Result, MatchCommandReceiptDocument, MatchActionDocument, MatchOutboxDocument,
  MatchSnapshotDocument, HashedConfiguration,
}

-- FindOne: a document, mongo.ErrNoDocuments, or any other error.
pub data Found {ℓ} (A : Type ℓ) : Type ℓ where
  found : A → Found A
  no_documents broken : Found A

-- A write: the database after it, with what it returns, or an error.
pub data Write {ℓ} (A : Type ℓ) : Type ℓ where
  written : A → Write A
  refused : DriverError → Write A

-- The filter of the compare-and-swap; `updated_at` bounds the document's from above.
pub record SnapshotFilter : Type 0 where
  pub match_id : ObjectId
  pub schema_version : ℤ
  pub origin : Text
  pub configuration_hash : Text
  pub match_version : ℕ
  pub updated_at : Time

-- The fields that it sets.
pub record SnapshotUpdate (B : Type 0) : Type 0 where
  pub schema_version : ℤ
  pub match_version : ℕ
  pub state : B
  pub updated_at : Time

pub record Driver (D B : Type 0) : Type 0 where
  -- client.StartSession
  pub starts_session : D → Write (Unit {0})
  -- receipts.FindOne by match_id and command_id
  pub find_receipt : ObjectId → Text → D → Found (MatchCommandReceiptDocument B)
  pub insert_receipt : MatchCommandReceiptDocument B → D → Write D
  pub insert_action : MatchActionDocument → D → Write D
  pub insert_outbox : List MatchOutboxDocument → D → Write D
  -- outbox.FindOne by match_id, with the greatest sequence first
  pub last_outbox_sequence : ObjectId → D → Found ℕ
  -- snapshots.FindOne by _id
  pub find_snapshot : ObjectId → D → Found (MatchSnapshotDocument B)
  -- snapshots.UpdateOne, with its MatchedCount
  pub update_snapshot : SnapshotFilter → SnapshotUpdate B → D → Write (ℕ × D)
  pub insert_snapshot : MatchSnapshotDocument B → D → Write D
  -- matches.FindOne by _id
  pub find_legacy : ObjectId → D → Found (Unit {0})
  -- session.WithTransaction
  pub with_transaction : (D → Attempt (Result × D)) → D → Attempt Result × D

pub record Codec (B : Type 0) : Type 0 where
  -- json.Marshal of a state, and json.Unmarshal
  pub encode_state : State → Option B
  pub decode_state : B → Option State
  pub encode_events : List CommittedEvent → Option B
  pub decode_events : B → Option (List CommittedEvent)
  -- A state as a BSON document by way of JSON, and back
  pub state_document : State → Option B
  pub document_state : B → Option State
  -- len(d.State) == 0
  pub is_empty_document : B → Bool
  -- jsonDocument of the bytes
  pub json_document : Text → Option Text
  -- jsonDocument of an encoded event
  pub event_document : Event → Option Text
  pub committed_document : CommittedEvent → Option Text
  -- SHA-256 of the encoded struct, in hexadecimal digits
  pub configuration_digest : HashedConfiguration → Option Text

-- The values that bson.NewObjectID and uuid.NewString return in one run; the number is the event's.
pub record Ids : Type 0 where
  pub action_id : ObjectId
  pub receipt_id : ObjectId
  pub outbox_id : ℕ → ObjectId
  pub event_id : ℕ → Text

-- A body that fails leaves the database alone. One that succeeds is committed, or its commit fails and
-- either nothing of it or all of it is there.
pub data IsCommitOf {D : Type 0} (d : D) (r : Result) (after : D)
    : Attempt Result × D → Type 0 where
  committed : IsCommitOf d r after (done r, after)
  rolled_back : (e : DriverError) → IsCommitOf d r after (fail (CommandError.driver e), d)
  unacknowledged : (e : DriverError) → IsCommitOf d r after (fail (CommandError.driver e), after)

pub record IsDriver {D B : Type 0} (m : Driver D B) : Type 0 where
  pub aborts :
      (body : D → Attempt (Result × D)) (d : D) (e : CommandError)
      → body d ≡ fail e
      → m.with_transaction body d ≡ (fail e, d)
  pub commits :
      (body : D → Attempt (Result × D)) (d after : D) (r : Result)
      → body d ≡ done (r, after)
      → IsCommitOf d r after (m.with_transaction body d)
  -- A receipt that was inserted is the one that its unique key finds, but for the nanoseconds of its
  -- time, of which a BSON datetime keeps the milliseconds.
  pub finds_receipt :
      (receipt : MatchCommandReceiptDocument B) (d d' : D)
      → m.insert_receipt receipt d ≡ Write.written d'
      → (kept : Time) × (m.find_receipt receipt.match_id receipt.command_id d'
          ≡ Found.found (record receipt { created_at = kept }))

-- Decoding gives back a state that ValidateState accepts and whose strings are UTF-8. Events that
-- were encoded can be decoded, and whatever becomes of their strings, their actors are the same. No BSON
-- document and no digest is empty.
pub record IsCodec {B : Type 0} (c : Codec B) : Type 0 where
  pub state :
      (s : State) {b : B}
      → validate_state s ≡ true
      → is_utf8 s ≡ true
      → c.encode_state s ≡ some b
      → c.decode_state b ≡ some s
  pub events :
      (es : List CommittedEvent) {b : B}
      → c.encode_events es ≡ some b
      → (es' : List CommittedEvent) × (c.decode_events b ≡ some es')
        × (map (λ e. e.actor) es' ≡ map (λ e. e.actor) es)
  pub document :
      (s : State) {b : B}
      → validate_state s ≡ true
      → is_utf8 s ≡ true
      → c.state_document s ≡ some b
      → c.document_state b ≡ some s
  pub document_bytes :
      (s : State) {b : B} → c.state_document s ≡ some b → c.is_empty_document b ≡ false
  pub digest :
      (h : HashedConfiguration) {b : Text} → c.configuration_digest h ≡ some b → is_empty b ≡ false
