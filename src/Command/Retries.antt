-- ===== src/Command/Retries.antt =====
-- A request to internal/matchcommand/orchestrator.go that comes again, with the store of
-- internal/persistence/command_store.go.
use rct_hub_backend.Base.{
  ◌≡◌, ◌≢◌, refl, subst, ◌∙◌, ◌⊎◌, inl, inr, true, false, some, arith, nat_Eq, sym, text_Eq,
  text_eq_iff, ◌==◌, if◌then◌else◌, Bool-cases,
}
use rct_hub_backend.Model.Timer.{Time}
use rct_hub_backend.Command.Errors.{CommandError, done, fail, Attempt-cases, done-injective}
use rct_hub_backend.Command.Authorize.{Request, Readers, authorize}
use rct_hub_backend.Store.Utf8.{is_utf8}
use rct_hub_backend.Store.Laws.{IsApplied}
use rct_hub_backend.Store.Conflict.{load_receipt-repeat, apply-repeat}
use rct_hub_backend.Store.Documents.{Envelope, Result}
use rct_hub_backend.Store.Driver.{Driver, Codec, Ids, IsDriver, IsCodec}
use rct_hub_backend.Store.Commands.{load_receipt, apply}
use rct_hub_backend.Store.Replay.{as_replay, apply-kept, apply-lost, IsApplied-load_receipt}
use rct_hub_backend.Command.Orchestrator.{Platform, seal, run_engine, execute_request}
use rct_hub_backend.Command.Requests.{seal-envelope, execute_request-apply}

-- The same platform at another time.
abbrev pub at_time : Time → Platform → Platform
at_time now platform = record platform { now = now }

seal-at_time :
    (platform : Platform) (request : Request) (now : Time) {envelope : Envelope}
    → now ≢ 0
    → seal platform request ≡ done envelope
    → seal (at_time now platform) request ≡ done (record envelope { occurred_at = now })
unfolding seal
seal-at_time platform request now later h = ground arith

module _ {D B : Type 0} (m : Driver D B) (codec : Codec B) where
  -- A request under the id of a stored result, on a database where the receipt still stands.
  execute_request-repeat :
      (platform platform' : Platform) (ids' : Ids) (readers' : Readers) (request request' : Request)
      (d later : D) {sealed sealed' : Envelope} {r : Result}
      → seal platform request ≡ done sealed
      → seal platform' request' ≡ done sealed'
      → request'.match_id ≡ request.match_id
      → request'.command_id ≡ request.command_id
      → m.find_receipt request.match_id request.command_id later
        ≡ m.find_receipt request.match_id request.command_id d
      → load_receipt m codec sealed d ≡ done (some r)
      → execute_request platform' m codec ids' readers' request' later ≡ (
        if sealed'.request_hash == sealed.request_hash
            then done r
            else fail CommandError.duplicate_command_mismatch,
        later,
      )
  unfolding execute_request
  execute_request-repeat platform platform' ids' readers' request request' d later {sealed}
        {sealed'} {r} q q' same_match same_id kept known =
      let (first_match, _, first_id) = seal-envelope platform request q in
      let (next_match, _, next_id) = seal-envelope platform' request' q' in
      let still : m.find_receipt sealed.match_id sealed.command_id later
          ≡ m.find_receipt sealed.match_id sealed.command_id d =
        rw first_match (rw first_id kept) in
      rw (execute_request, q')
        (apply-repeat m codec (sealed'.request_hash == sealed.request_hash) sealed' ids'
          (authorize readers' request') (run_engine request'.command platform'.now) later r
          CommandError.duplicate_command_mismatch
          (load_receipt-repeat m codec sealed sealed' d later
            (next_match ∙ same_match ∙ sym first_match) (next_id ∙ same_id ∙ sym first_id) still
            known))

module _ {D B : Type 0} (m : Driver D B) (codec : Codec B) (driver_law : IsDriver m)
    (codec_law : IsCodec codec) (platform : Platform) (ids : Ids) (readers : Readers)
    (request : Request) (d : D) where
  -- With a driver and encoders that keep their laws: when a request has been answered with a result whose
  -- state has UTF-8 strings only, then any request under the same match and command id that passes the
  -- first checks, by whomever and at any time, on any database where that command's receipt is as it
  -- was left, changes nothing; it is answered with the same result as a replay if its hash is that of
  -- the first request, and as a mismatch otherwise.
  pub execute_request-retry :
      (platform' : Platform) (ids' : Ids) (readers' : Readers) (request' : Request) (later : D)
      {sealed sealed' : Envelope} {r : Result} {d' : D}
      → is_utf8 r.state ≡ true
      → execute_request platform m codec ids readers request d ≡ (done r, d')
      → seal platform request ≡ done sealed
      → seal platform' request' ≡ done sealed'
      → request'.match_id ≡ request.match_id
      → request'.command_id ≡ request.command_id
      → m.find_receipt request.match_id request.command_id later
        ≡ m.find_receipt request.match_id request.command_id d'
      → execute_request platform' m codec ids' readers' request' later ≡ (
        if sealed'.request_hash == sealed.request_hash
            then done (as_replay r)
            else fail CommandError.duplicate_command_mismatch,
        later,
      )
  execute_request-retry platform' ids' readers' request' later {sealed} {sealed'} {r} {d'} clean h q
        q' same_match same_id kept =
      let (envelope, is_sealed, applied) =
        execute_request-apply m codec driver_law platform ids readers request d h in
      let same : envelope ≡ sealed = done-injective (sym is_sealed ∙ q) in
      let known =
        apply-kept m codec driver_law codec_law envelope ids (authorize readers request)
          (run_engine request.command platform.now) d clean applied in
      execute_request-repeat m codec platform platform' ids' readers' request request' d' later q q'
        same_match same_id kept
        (subst (λ x. load_receipt m codec x d' ≡ done (some (as_replay r))) same known)

  -- With a driver and encoders that keep their laws: a request that fails leaves the database as it was,
  -- or else the command was applied and the snapshot, the log, the outbox and the receipt are written,
  -- all four. Then the same request at any time but Go's zero time, on any database where the receipt
  -- is as it was left, is answered with a replay of that result, unless its state has a string that is
  -- not UTF-8.
  pub execute_request-failed :
      (ids' : Ids) (readers' : Readers) (now : Time) (later : D) {e : CommandError} {d' : D}
      → now ≢ 0
      → execute_request platform m codec ids readers request d ≡ (fail e, d')
      → m.find_receipt request.match_id request.command_id later
        ≡ m.find_receipt request.match_id request.command_id d'
      → (d' ≡ d)
        ⊎ ((sealed : Envelope) × (r : Result) × (seal platform request ≡ done sealed)
            × IsApplied m codec ids sealed
                (authorize readers request)
                (run_engine request.command platform.now)
                d
                d'
                r
            × ((is_utf8 r.state ≡ false)
                ⊎ (execute_request (at_time now platform) m codec ids' readers' request later
                    ≡ (done (as_replay r), later))))
  unfolding execute_request
  execute_request-failed ids' readers' now later {e} {d'} later_now h kept =
      elim (Attempt-cases (seal platform request)) [
        | inl (e', q) ↦ inl (ground arith)
        | inr (sealed, q) ↦
            let applied : apply m codec ids sealed (authorize readers request)
                  (run_engine request.command platform.now) d
                ≡ (fail e, d') =
              ground arith in
            elim (apply-lost m codec driver_law sealed ids (authorize readers request)
              (run_engine request.command platform.now) d applied) [
                | inl same ↦ inl same
                | inr (r, new) ↦ inr (
                  sealed,
                  r,
                  q,
                  new,
                  elim (Bool-cases (is_utf8 r.state)) [
                    | inr other ↦ inl other
                    | inl clean ↦
                        let known =
                          IsApplied-load_receipt m codec driver_law codec_law sealed ids
                            (authorize readers request) (run_engine request.command platform.now) d
                            clean new in
                        let answer =
                          execute_request-repeat m codec platform (at_time now platform) ids'
                            readers' request request d' later q
                            (seal-at_time platform request now later_now q) refl refl kept known in
                        inr (
                          answer
                          ∙ ground (arith, text_eq_iff sealed.request_hash sealed.request_hash))
                  ],
                )
              ]
      ]
