-- ===== src/Store/Laws.antt =====
-- The transaction of a command: what a success has written, and what every failure leaves.
use rct_hub_backend.Base.{◌≡◌, ℕ, true, not, some, Text, arith, ◌==◌, nat_Eq}
use rct_hub_backend.Base.Int.{inc_u64}
use rct_hub_backend.Model.State.{State}
use rct_hub_backend.Model.Events.{Transition}
use rct_hub_backend.Validation.{validate_state}
use rct_hub_backend.Domain.Entities.{ObjectId}
use rct_hub_backend.Model.Timer.{Time}
use rct_hub_backend.Command.Errors.{
  CommandError, Attempt, done, >>=-eq-done, fail_if, or_fail, fail_if-eq-done, or_fail-eq-done,
}
use rct_hub_backend.Command.Authorize.{AuthorizedActor}
use rct_hub_backend.Store.Documents.{Envelope, Result}
use rct_hub_backend.Store.Driver.{Driver, Codec, Ids, Write}
use rct_hub_backend.Store.Snapshot.{
  Stored, stored, load, compare_and_swap, new_match_snapshot_document,
}
use rct_hub_backend.Store.Commands.{
  of_stored, of_write, insert_events, write_command, apply_new, command_actor_document, Outbox,
  command_action, command_receipt, applied_result, build_outbox_documents,
}

module _ {B : Type 0} (codec : Codec B) where
  new_match_snapshot_document-validate_state :
      (id : ObjectId) (s : State) (now : Time) {document : _}
      → new_match_snapshot_document codec id s now ≡ stored document
      → validate_state s ≡ true
  unfolding new_match_snapshot_document
  new_match_snapshot_document-validate_state id s now h = ground arith

module _ {D B : Type 0} (m : Driver D B) (codec : Codec B) where
  pub compare_and_swap-validate_state :
      (id : ObjectId) (expected : ℕ) (s : State) (now : Time) (d : D) {d' : D}
      → compare_and_swap m codec id expected s now d ≡ stored d'
      → validate_state s ≡ true
  unfolding compare_and_swap new_match_snapshot_document
  compare_and_swap-validate_state id expected s now d h = ground arith

  -- The four writes of a command, one after the other: the snapshot, the log of actions, the outbox
  -- unless there are no events, and the receipt.
  pub record IsWritten (ids : Ids) (envelope : Envelope) (actor : AuthorizedActor) (current : State)
      (transition : Transition) (payload : Text) (outbox : Outbox) (state_json events_json : B)
      (d d' : D) : Type 0 where
    pub swapped_to : D
    pub logged_to : D
    pub sent_to : D
    pub is_swapped :
        compare_and_swap m codec envelope.match_id current.version transition.state
          envelope.occurred_at d
        ≡ stored swapped_to
    pub is_logged :
        m.insert_action
          (command_action ids envelope actor current transition payload outbox)
          swapped_to
        ≡ Write.written logged_to
    pub is_sent : insert_events m codec outbox.documents logged_to ≡ done sent_to
    pub is_kept :
        m.insert_receipt
          (command_receipt ids envelope actor current transition state_json events_json)
          sent_to
        ≡ Write.written d'

  -- What a success of the transaction's new part rests on, with all that it has written.
  pub record IsApplied (ids : Ids) (envelope : Envelope) (authorized : Attempt AuthorizedActor)
      (execute : State → AuthorizedActor → Attempt Transition) (d d' : D) (r : Result)
      : Type 0 where
    pub actor : AuthorizedActor
    pub current : State
    pub transition : Transition
    pub outbox : Outbox
    pub state_json : B
    pub events_json : B
    pub payload : Text
    pub is_authorized : authorized ≡ done actor
    pub is_loaded : load m codec envelope.match_id d ≡ stored current
    pub is_expected : current.version ≡ envelope.expected_version
    pub is_executed : execute current actor ≡ done transition
    pub is_counted : transition.state.version ≡ inc_u64 current.version
    pub is_valid : validate_state transition.state ≡ true
    pub is_document : codec.json_document envelope.payload_json ≡ some payload
    pub built :
        build_outbox_documents m codec ids envelope (command_actor_document actor) transition d
        ≡ done outbox
    pub encoded_state : codec.encode_state transition.state ≡ some state_json
    pub encoded_events : codec.encode_events outbox.committed ≡ some events_json
    pub writes :
        IsWritten ids envelope actor current transition payload outbox state_json events_json d d'
    pub result : r ≡ applied_result codec envelope current transition outbox

  of_stored-eq-done {ℓ} : {A : Type ℓ} (o : Stored A) {a : A} → of_stored o ≡ done a → o ≡ stored a
  of_stored-eq-done o h = ground arith

  of_write-eq-done {ℓ} :
      {A : Type ℓ} (o : Write A) {a : A} → of_write o ≡ done a → o ≡ Write.written a
  of_write-eq-done o h = ground arith

  write_command-IsWritten :
      (ids : Ids) (envelope : Envelope) (actor : AuthorizedActor) (current : State)
      (transition : Transition) (payload : Text) (outbox : Outbox) (state_json events_json : B)
      (d : D) {r : Result} {d' : D}
      → write_command m codec ids envelope actor current transition payload outbox state_json
          events_json d
        ≡ done (r, d')
      → (r ≡ applied_result codec envelope current transition outbox)
        × IsWritten ids envelope actor current transition payload outbox state_json events_json d d'
  unfolding write_command
  write_command-IsWritten ids envelope actor current transition payload outbox state_json
        events_json d {r} {d'} h =
      let (d₁, swapped, h₁) =
        >>=-eq-done
          (of_stored (
            compare_and_swap m codec envelope.match_id current.version transition.state
              envelope.occurred_at d))
          _ h in
      let (d₂, acted, h₂) =
        >>=-eq-done
          (of_write (
            m.insert_action (command_action ids envelope actor current transition payload outbox)
              d₁))
          _ h₁ in
      let (d₃, sent, h₃) = >>=-eq-done (insert_events m codec outbox.documents d₂) _ h₂ in
      let (d₄, kept, h₄) =
        >>=-eq-done
          (of_write (
            m.insert_receipt
              (command_receipt ids envelope actor current transition state_json events_json) d₃))
          _ h₃ in
      let same : d₄ ≡ d' = ground arith in
      (
        ground arith,
        record {
          swapped_to = d₁;
          logged_to = d₂;
          sent_to = d₃;
          is_swapped = of_stored-eq-done _ swapped;
          is_logged = of_write-eq-done _ acted;
          is_sent = sent;
          is_kept = ground (arith, of_write-eq-done _ kept, same);
        },
      )

  pub apply_new-IsApplied :
      (ids : Ids) (envelope : Envelope) (authorized : Attempt AuthorizedActor)
      (execute : State → AuthorizedActor → Attempt Transition) (d : D) {r : Result} {d' : D}
      → apply_new m codec ids envelope authorized execute d ≡ done (r, d')
      → IsApplied ids envelope authorized execute d d' r
  unfolding apply_new
  apply_new-IsApplied ids envelope authorized execute d {r} {d'} h =
      let (actor, auth, h₁) = >>=-eq-done authorized _ h in
      let (current, loaded, h₂) = >>=-eq-done (of_stored (load m codec envelope.match_id d)) _ h₁ in
      let (_, expected, h₃) =
        >>=-eq-done
          (fail_if (not (current.version == envelope.expected_version))
            (CommandError.match_version_conflict current.version))
          _ h₂ in
      let (transition, executed, h₄) = >>=-eq-done (execute current actor) _ h₃ in
      let (_, counted, h₅) =
        >>=-eq-done
          (fail_if (not (transition.state.version == inc_u64 current.version))
            CommandError.internal_error)
          _ h₄ in
      let (payload, document, h₆) =
        >>=-eq-done
          (or_fail (codec.json_document envelope.payload_json) CommandError.invalid_request) _ h₅ in
      let (outbox, built, h₇) =
        >>=-eq-done
          (build_outbox_documents m codec ids envelope (command_actor_document actor) transition d)
          _ h₆ in
      let (state_json, state_encoded, h₈) =
        >>=-eq-done (or_fail (codec.encode_state transition.state) CommandError.internal_error) _
          h₇ in
      let (events_json, events_encoded, h₉) =
        >>=-eq-done (or_fail (codec.encode_events outbox.committed) CommandError.internal_error) _
          h₈ in
      let (result, writes) =
        write_command-IsWritten ids envelope actor current transition payload outbox state_json
          events_json d h₉ in
      record {
        actor = actor;
        current = current;
        transition = transition;
        outbox = outbox;
        state_json = state_json;
        events_json = events_json;
        payload = payload;
        is_authorized = auth;
        is_loaded = of_stored-eq-done _ loaded;
        is_expected = ground (arith, fail_if-eq-done _ _ expected);
        is_executed = executed;
        is_counted = ground (arith, fail_if-eq-done _ _ counted);
        is_valid =
            compare_and_swap-validate_state envelope.match_id current.version transition.state
              envelope.occurred_at d writes.is_swapped;
        is_document = or_fail-eq-done _ _ document;
        built = built;
        encoded_state = or_fail-eq-done _ _ state_encoded;
        encoded_events = or_fail-eq-done _ _ events_encoded;
        writes = writes;
        result = result;
      }
