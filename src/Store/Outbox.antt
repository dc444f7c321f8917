-- ===== src/Store/Outbox.antt =====
-- The events of a transition on their way to the outbox and back, in
-- internal/persistence/command_store.go.
use rct_hub_backend.Base.{
  ◌≡◌, ℕ, suc, ◌+◌, ◌^◌, ◌%◌, nat_Eq, Text, text_Eq, refl, subst, List, [], ◌∷◌, map, some, none,
  arith,
}
use rct_hub_backend.Model.Events.{Event, Transition}
use rct_hub_backend.Command.Errors.{
  CommandError, done, or_fail, >>=-eq-done, or_fail-eq-done, done-injective,
}
use rct_hub_backend.Store.Documents.{
  Envelope, CommittedEvent, CommandActorDocument, MatchOutboxDocument, OutboxStatus,
}
use rct_hub_backend.Store.Driver.{Driver, Codec, Ids}
use rct_hub_backend.Store.Commands.{
  Outbox, build_from, committed_event, outbox_document, fill_actor, build_outbox_documents,
  last_sequence, clone_committed_events, event_actor,
}

module _ {B : Type 0} (codec : Codec B) (envelope : Envelope) (actor : CommandActorDocument)
    (version : ℕ) where
  -- What an event becomes under the number after `last`: a document of the outbox with the encoded
  -- event, waiting for its publication; the same event in the result; and that, encoded, in the log.
  pub record IsEntry (last : ℕ) (e : Event) (document : MatchOutboxDocument) (audit : Text)
      (c : CommittedEvent) : Type 0 where
    pub sequence : c.sequence ≡ (last + 1) % 2 ^ 64
    pub payload : c.payload ≡ e
    pub event_type : c.event_type ≡ e.event_type
    pub resulting : c.resulting_version ≡ version
    pub occurred : c.occurred_at ≡ envelope.occurred_at
    pub issuer : c.actor ≡ event_actor actor
    pub sent_sequence : document.sequence ≡ c.sequence
    pub sent_id : document.event_id ≡ c.event_id
    pub sent_type : document.event_type ≡ c.event_type
    pub sent_version : document.resulting_version ≡ version
    pub sent_match : document.match_id ≡ envelope.match_id
    pub sent_actor : document.actor ≡ actor
    pub sent_payload : codec.event_document e ≡ some document.payload
    pub waits : (document.status ≡ OutboxStatus.pending) × (document.published_at ≡ none)
    pub logged : codec.committed_document c ≡ some audit

  -- The lists of an outbox, entry by entry.
  pub data AreEntries
      : ℕ → List Event → List MatchOutboxDocument → List Text → List CommittedEvent → Type 0 where
    none_left : (last : ℕ) → AreEntries last [] [] [] []
    next_entry :
        {last : ℕ} {e : Event} {document : MatchOutboxDocument} {audit : Text} {c : CommittedEvent}
        {events : List Event} {documents : List MatchOutboxDocument} {audits : List Text}
        {committed : List CommittedEvent}
        → IsEntry last e document audit c
        → AreEntries (suc last) events documents audits committed
        → AreEntries last (e ∷ events) (document ∷ documents) (audit ∷ audits) (c ∷ committed)

module _ {B : Type 0} (codec : Codec B) (ids : Ids) (envelope : Envelope)
    (actor : CommandActorDocument) (version last : ℕ) where
  abbrev Entries : ℕ → List Event → Outbox → Type 0
  Entries n events outbox =
      AreEntries codec envelope actor version n events outbox.documents outbox.payloads
        outbox.committed

  built-IsEntry :
      (index n : ℕ) (e : Event) (payload audit : Text)
      → n ≡ last + index
      → codec.event_document e ≡ some payload
      → codec.committed_document (committed_event codec ids envelope actor version last index e)
        ≡ some audit
      → IsEntry codec envelope actor version n e
          (outbox_document codec ids envelope actor version last index e payload)
          audit
          (committed_event codec ids envelope actor version last index e)
  unfolding committed_event outbox_document
  built-IsEntry index n e payload audit count encoded logged = record {
    sequence = ground arith;
    payload = refl;
    event_type = refl;
    resulting = refl;
    occurred = refl;
    issuer = refl;
    sent_sequence = refl;
    sent_id = refl;
    sent_type = refl;
    sent_version = refl;
    sent_match = refl;
    sent_actor = refl;
    sent_payload = encoded;
    waits = (refl, refl);
    logged = logged;
  }

  build_from-AreEntries :
      (index n : ℕ) (events : List Event) {outbox : Outbox}
      → n ≡ last + index
      → build_from codec ids envelope actor version last index events ≡ done outbox
      → Entries n events outbox
  unfolding build_from
  build_from-AreEntries index n [] {outbox} count h =
      subst (Entries n []) (done-injective h) (AreEntries.none_left n)
  build_from-AreEntries index n (e ∷ events) {outbox} count h =
      let (payload, encoded, h₁) =
        >>=-eq-done (or_fail (codec.event_document e) CommandError.internal_error) _ h in
      let (audit, logged, h₂) =
        >>=-eq-done
          (or_fail
            (codec.committed_document
              (committed_event codec ids envelope actor version last index e))
            CommandError.internal_error)
          _ h₁ in
      let (rest, built, h₃) =
        >>=-eq-done (build_from codec ids envelope actor version last (suc index) events) _ h₂ in
      let entry =
        built-IsEntry index n e payload audit count (or_fail-eq-done _ _ encoded)
          (or_fail-eq-done _ _ logged) in
      let later = build_from-AreEntries (suc index) (suc n) events (omega arith) built in
      subst (Entries n (e ∷ events)) (done-injective h₃) (AreEntries.next_entry entry later)

-- Every entry is of the given actor.
AreEntries-actor :
    {B : Type 0} {codec : Codec B} {envelope : Envelope} {actor : CommandActorDocument}
    {version last : ℕ} {events : List Event} {documents : List MatchOutboxDocument}
    {audits : List Text} {committed : List CommittedEvent}
    → AreEntries codec envelope actor version last events documents audits committed
    → (es : List CommittedEvent) → map (λ e. e.actor) es ≡ map (λ e. e.actor) committed
    → map (fill_actor actor) es ≡ es
unfolding fill_actor
AreEntries-actor (AreEntries.none_left last) [] h = refl
AreEntries-actor (AreEntries.none_left last) (e ∷ es) h = ground arith
AreEntries-actor (AreEntries.next_entry entry later) [] h = ground arith
AreEntries-actor (AreEntries.next_entry entry later) (e ∷ es) h =
    let rest = AreEntries-actor later es (ground (arith, h)) in
    ground (arith, rest, h, entry.issuer)

module _ {D B : Type 0} (m : Driver D B) (codec : Codec B) (ids : Ids) (envelope : Envelope)
    (actor : CommandActorDocument) (transition : Transition) (d : D) where
  -- What the transaction builds of the transition's events, in their order and numbered one by one after
  -- the last number that the outbox has for the match: for each a document of the outbox with the
  -- encoded event, its number, type, version, match and actor, still to be published; the same event in
  -- the result, under the same number and id; and that one's encoding for the log.
  pub build_outbox_documents-numbered :
      {outbox : Outbox} {last : ℕ}
      → last_sequence m codec envelope.match_id d ≡ done last
      → build_outbox_documents m codec ids envelope actor transition d ≡ done outbox
      → AreEntries codec envelope actor transition.state.version last transition.events
          outbox.documents outbox.payloads outbox.committed
  unfolding build_outbox_documents
  build_outbox_documents-numbered {outbox} {last} first h =
      let h' : build_from codec ids envelope actor transition.state.version last 0 transition.events
          ≡ done outbox =
        ground arith in
      build_from-AreEntries codec ids envelope actor transition.state.version last 0 last
        transition.events (omega arith) h'

  -- Events with the actors of those that were built are of the actor.
  pub build_outbox_documents-fill_actor :
      {outbox : Outbox}
      → build_outbox_documents m codec ids envelope actor transition d ≡ done outbox
      → (es : List CommittedEvent) → map (λ e. e.actor) es ≡ map (λ e. e.actor) outbox.committed
      → map (fill_actor actor) es ≡ es
  unfolding build_outbox_documents
  build_outbox_documents-fill_actor {outbox} h es same =
      let (last, first, _) = >>=-eq-done (last_sequence m codec envelope.match_id d) _ h in
      AreEntries-actor (build_outbox_documents-numbered first h) es same

-- What the events of a receipt are decoded to is what the result holds.
pub clone_committed_events-lem :
    {B : Type 0} (codec : Codec B) (events events' : List CommittedEvent) {encoded : B}
    → codec.encode_events events ≡ some encoded
    → codec.decode_events encoded ≡ some events'
    → clone_committed_events codec events ≡ events'
unfolding clone_committed_events
clone_committed_events-lem codec events events' h k = ground arith
