-- ===== src/Store/Replay.antt =====
-- Apply of internal/persistence/command_store.go: what it leaves behind, and what the same command
-- meets when it comes again.
use rct_hub_backend.Base.{
  ◌≡◌, refl, subst, ◌⊎◌, inl, inr, true, Option, none, some, Option-cases, Bool-cases, List, arith,
  text_Eq, text_eq_iff, map,
}
use rct_hub_backend.Model.State.{State}
use rct_hub_backend.Model.Events.{Transition}
use rct_hub_backend.Validation.{validate_state}
use rct_hub_backend.Command.Errors.{
  CommandError, DriverError, Attempt, done, fail, >>=-eq-done, Attempt-cases, is_duplicate_key,
}
use rct_hub_backend.Command.Authorize.{AuthorizedActor}
use rct_hub_backend.Store.Utf8.{is_utf8}
use rct_hub_backend.Store.Documents.{
  Envelope, CommittedEvent, Disposition, Result, MatchCommandReceiptDocument,
}
use rct_hub_backend.Store.Driver.{Driver, Codec, Ids, Found, Write, IsDriver, IsCodec, IsCommitOf}
use rct_hub_backend.Store.Commands.{
  command_receipt, command_actor_document, load_receipt, replay, command_body, apply_new, finish,
  apply, fill_actor,
}
use rct_hub_backend.Store.Laws.{IsApplied, apply_new-IsApplied}
use rct_hub_backend.Store.Outbox.{build_outbox_documents-fill_actor, clone_committed_events-lem}

-- The same result, as a replay.
abbrev pub as_replay : Result → Result
as_replay r = record r { disposition = Disposition.replayed }

replay-lem :
    {B : Type 0} (codec : Codec B) (receipt : MatchCommandReceiptDocument B) (envelope : Envelope)
    (s : State) (events : List CommittedEvent)
    → receipt.request_hash ≡ envelope.request_hash
    → codec.decode_state receipt.state_json ≡ some s
    → validate_state s ≡ true
    → codec.decode_events receipt.events_json ≡ some events
    → map (fill_actor receipt.actor) events ≡ events
    → replay codec receipt envelope
      ≡ done (record {
        command_id = receipt.command_id;
        disposition = Disposition.replayed;
        previous_version = receipt.previous_version;
        resulting_version = receipt.resulting_version;
        state = s;
        events = events;
      })
unfolding replay
replay-lem codec receipt envelope s events hash state valid decoded filled =
    ground (arith, text_eq_iff receipt.request_hash envelope.request_hash)

module _ {D B : Type 0} (m : Driver D B) (codec : Codec B) (envelope : Envelope) where
  load_receipt-found :
      (receipt : MatchCommandReceiptDocument B) (d : D) {r : Result}
      → m.find_receipt envelope.match_id envelope.command_id d ≡ Found.found receipt
      → replay codec receipt envelope ≡ done r
      → load_receipt m codec envelope d ≡ done (some r)
  unfolding load_receipt
  load_receipt-found receipt d found h = ground arith

  pub load_receipt-replayed :
      (d : D) {r : Result} → load_receipt m codec envelope d ≡ done (some r) → as_replay r ≡ r
  unfolding load_receipt replay
  load_receipt-replayed d {r} h = ground arith

Write-cases {ℓ} :
    {A : Type ℓ} (w : Write A)
    → ((e : DriverError) × (w ≡ Write.refused e)) ⊎ ((v : A) × (w ≡ Write.written v))
Write-cases (Write.refused e) = inl (e, refl)
Write-cases (Write.written v) = inr (v, refl)

answer-cases :
    (a : Attempt (Option Result))
    → ((e : CommandError) × (a ≡ fail e)) ⊎ (a ≡ done none) ⊎ ((r : Result) × (a ≡ done (some r)))
answer-cases (fail e) = inl (e, refl)
answer-cases (done none) = inr (inl refl)
answer-cases (done (some r)) = inr (inr (r, refl))

module _ {D B : Type 0} (m : Driver D B) (codec : Codec B) (envelope : Envelope) (ids : Ids)
    (authorized : Attempt AuthorizedActor) (execute : State → AuthorizedActor → Attempt Transition)
    (d : D) where
  abbrev pub Applied : D → Result → Type 0
  Applied d' r = IsApplied m codec ids envelope authorized execute d d' r

  -- How Apply ends: an error that leaves nothing, an earlier result, a new one, or a new one of which
  -- the driver reports an error, and of which the receipt is read after a duplicate key.
  pub data Ended : Attempt Result × D → Type 0 where
    failed : (e : CommandError) → Ended (fail e, d)
    replayed : (r : Result) → load_receipt m codec envelope d ≡ done (some r) → Ended (done r, d)
    applied : (r : Result) (d' : D) → Applied d' r → Ended (done r, d')
    unacknowledged : (e : CommandError) (r : Result) (d' : D) → Applied d' r → Ended (fail e, d')
    answered :
        (r r' : Result) (d' : D)
        → Applied d' r
        → load_receipt m codec envelope d' ≡ done (some r')
        → Ended (done r', d')

-- The kinds of a commit, of an earlier result and of a new one.
module _ {D B : Type 0} {m : Driver D B} {codec : Codec B} {envelope : Envelope} {ids : Ids}
    {authorized : Attempt AuthorizedActor} {execute : State → AuthorizedActor → Attempt Transition}
    {d : D} where
  commit-replayed :
      (r : Result) {out : Attempt Result × D}
      → load_receipt m codec envelope d ≡ done (some r)
      → IsCommitOf d r d out
      → Ended m codec envelope ids authorized execute d out
  commit-replayed r h IsCommitOf.committed = Ended.replayed r h
  commit-replayed r h (IsCommitOf.rolled_back e) = Ended.failed (CommandError.driver e)
  commit-replayed r h (IsCommitOf.unacknowledged e) = Ended.failed (CommandError.driver e)

  commit-Applied :
      (r : Result) {d' : D} {out : Attempt Result × D}
      → Applied m codec envelope ids authorized execute d d' r
      → IsCommitOf d r d' out
      → Ended m codec envelope ids authorized execute d out
  commit-Applied r {d'} h IsCommitOf.committed = Ended.applied r d' h
  commit-Applied r {d'} h (IsCommitOf.rolled_back e) = Ended.failed (CommandError.driver e)
  commit-Applied r {d'} h (IsCommitOf.unacknowledged e) =
      Ended.unacknowledged (CommandError.driver e) r d' h

module _ {D B : Type 0} (m : Driver D B) (codec : Codec B) (driver_law : IsDriver m)
    (envelope : Envelope) (ids : Ids) (authorized : Attempt AuthorizedActor)
    (execute : State → AuthorizedActor → Attempt Transition) (d : D) where
  -- The function that the transaction runs gives an earlier result or a new one.
  command_body-cases :
      {r : Result} {d' : D}
      → command_body m codec ids envelope authorized execute d ≡ done (r, d')
      → ((load_receipt m codec envelope d ≡ done (some r)) × (d' ≡ d))
        ⊎ Applied m codec envelope ids authorized execute d d' r
  unfolding command_body
  command_body-cases {r} {d'} h =
      let (earlier, loaded, h') = >>=-eq-done (load_receipt m codec envelope d) _ h in
      elim (Option-cases earlier) [
        | inl e ↦
            let new : apply_new m codec ids envelope authorized execute d ≡ done (r, d') =
              ground arith in
            inr (apply_new-IsApplied m codec ids envelope authorized execute d new)
        | inr (result, e) ↦ inl (ground arith, ground arith)
      ]

  with_transaction-Ended :
      Ended m codec envelope ids authorized execute d
        (m.with_transaction (command_body m codec ids envelope authorized execute) d)
  with_transaction-Ended =
      let body = command_body m codec ids envelope authorized execute in
      elim (Attempt-cases (body d)) [
        | inl (e, q) ↦ rw (driver_law.aborts body d e q) (Ended.failed e)
        | inr ((r, d'), q) ↦
            let committed = driver_law.commits body d d' r q in
            elim (command_body-cases q) [
              | inl (old, same) ↦
                  commit-replayed r old
                    (subst (λ x. IsCommitOf d r x (m.with_transaction body d)) same committed)
              | inr new ↦ commit-Applied r new committed
            ]
      ]

  -- Whatever failed before, a receipt that is found after a duplicate key answers the command.
  finish-Ended :
      {out : Attempt Result × D}
      → Ended m codec envelope ids authorized execute d out
      → Ended m codec envelope ids authorized execute d (finish m codec envelope out)
  unfolding finish
  finish-Ended (Ended.replayed r h) = Ended.replayed r h
  finish-Ended (Ended.applied r d' h) = Ended.applied r d' h
  finish-Ended (Ended.answered r r' d' h k) = Ended.answered r r' d' h k
  finish-Ended (Ended.failed e) = elim (Bool-cases (is_duplicate_key e)) [
    | inr other ↦ rw other (Ended.failed e)
    | inl twice ↦ rw twice (elim (answer-cases (load_receipt m codec envelope d)) [
      | inl (e', q) ↦ rw q (Ended.failed e')
      | inr (inl q) ↦ rw q (Ended.failed e)
      | inr (inr (r, q)) ↦ rw q (Ended.replayed r q)
    ])
  ]
  finish-Ended (Ended.unacknowledged e r d' h) = elim (Bool-cases (is_duplicate_key e)) [
    | inr other ↦ rw other (Ended.unacknowledged e r d' h)
    | inl twice ↦ rw twice (elim (answer-cases (load_receipt m codec envelope d')) [
      | inl (e', q) ↦ rw q (Ended.unacknowledged e' r d' h)
      | inr (inl q) ↦ rw q (Ended.unacknowledged e r d' h)
      | inr (inr (r', q)) ↦ rw q (Ended.answered r r' d' h q)
    ])
  ]

  pub apply-Ended :
      Ended m codec envelope ids authorized execute d
        (apply m codec ids envelope authorized execute d)
  unfolding apply
  apply-Ended = elim (answer-cases (load_receipt m codec envelope d)) [
    | inl (e, q) ↦ rw (apply, q) (Ended.failed e)
    | inr (inr (r, q)) ↦ rw (apply, q) (Ended.replayed r q)
    | inr (inl q) ↦
        rw (apply, q)
          (elim (Write-cases (m.starts_session d)) [
            | inl (e, p) ↦ rw p (Ended.failed CommandError.internal_error)
            | inr (u, p) ↦ rw p (finish-Ended with_transaction-Ended)
          ])
  ]

  Ended-lost :
      {e : CommandError} {d' : D}
      → Ended m codec envelope ids authorized execute d (fail e, d')
      → (d' ≡ d) ⊎ ((r : Result) × Applied m codec envelope ids authorized execute d d' r)
  Ended-lost (Ended.failed e) = inl refl
  Ended-lost (Ended.unacknowledged e r d' h) = inr (r, h)

  Ended-applied :
      {r : Result} {d' : D}
      → Ended m codec envelope ids authorized execute d (done r, d')
      → r.disposition ≡ Disposition.applied
      → Applied m codec envelope ids authorized execute d d' r
  Ended-applied (Ended.replayed r h) same =
      ground (arith, load_receipt-replayed m codec envelope d h)
  Ended-applied (Ended.applied r d' h) same = h
  Ended-applied (Ended.answered r r' d' h k) same =
      ground (arith, load_receipt-replayed m codec envelope d' k)

  pub apply-lost :
      {e : CommandError} {d' : D}
      → apply m codec ids envelope authorized execute d ≡ (fail e, d')
      → (d' ≡ d) ⊎ ((r : Result) × Applied m codec envelope ids authorized execute d d' r)
  apply-lost h = Ended-lost (subst (Ended m codec envelope ids authorized execute d) h apply-Ended)

  pub apply-applied :
      {r : Result} {d' : D}
      → apply m codec ids envelope authorized execute d ≡ (done r, d')
      → r.disposition ≡ Disposition.applied
      → Applied m codec envelope ids authorized execute d d' r
  apply-applied h same =
      Ended-applied (subst (Ended m codec envelope ids authorized execute d) h apply-Ended) same

module _ {D B : Type 0} (m : Driver D B) (codec : Codec B) (driver_law : IsDriver m)
    (codec_law : IsCodec codec) (envelope : Envelope) (ids : Ids)
    (authorized : Attempt AuthorizedActor) (execute : State → AuthorizedActor → Attempt Transition)
    (d : D) where
  pub IsApplied-load_receipt :
      {d' : D} {r : Result}
      → is_utf8 r.state ≡ true
      → Applied m codec envelope ids authorized execute d d' r
      → load_receipt m codec envelope d' ≡ done (some (as_replay r))
  IsApplied-load_receipt {d'} {r} clean new =
      let receipt =
        command_receipt ids envelope new.actor new.current new.transition new.state_json
          new.events_json in
      let (events, decoded, actors) = codec_law.events new.outbox.committed new.encoded_events in
      let filled =
        build_outbox_documents-fill_actor m codec ids envelope (command_actor_document new.actor)
          new.transition d new.built events actors in
      let clone =
        clone_committed_events-lem codec new.outbox.committed events new.encoded_events decoded in
      let (kept, found) =
        driver_law.finds_receipt receipt new.writes.sent_to d' new.writes.is_kept in
      let same : r.state ≡ new.transition.state = rw new.result refl in
      let restored =
        codec_law.state new.transition.state new.is_valid (subst (λ x. is_utf8 x ≡ true) same clean)
          new.encoded_state in
      let answer =
        replay-lem codec (record receipt { created_at = kept }) envelope new.transition.state events
          refl restored new.is_valid decoded filled in
      rw new.result (
        rw clone (
          load_receipt-found m codec envelope (record receipt { created_at = kept }) d' found
            answer))

  Ended-kept :
      {r : Result} {d' : D}
      → is_utf8 r.state ≡ true
      → Ended m codec envelope ids authorized execute d (done r, d')
      → load_receipt m codec envelope d' ≡ done (some (as_replay r))
  Ended-kept clean (Ended.replayed r h) = rw (load_receipt-replayed m codec envelope d h) h
  Ended-kept clean (Ended.applied r d' h) = IsApplied-load_receipt clean h
  Ended-kept clean (Ended.answered r r' d' h k) = rw (load_receipt-replayed m codec envelope d' k) k

  pub apply-kept :
      {r : Result} {d' : D}
      → is_utf8 r.state ≡ true
      → apply m codec ids envelope authorized execute d ≡ (done r, d')
      → load_receipt m codec envelope d' ≡ done (some (as_replay r))
  apply-kept clean h = Ended-kept clean (
      subst (Ended m codec envelope ids authorized execute d) h
        (apply-Ended m codec driver_law envelope ids authorized execute d))
