-- ===== src/Command/Requests.antt =====
-- A request to internal/matchcommand/orchestrator.go with the store of
-- internal/persistence/command_store.go and the engine of internal/matchengine.
use rct_hub_backend.Base.{◌≡◌, ◌≢◌, refl, subst, inl, inr, true, some, Text, arith, nat_Eq, text_Eq}
use rct_hub_backend.Base.Int.{inc_u64}
use rct_hub_backend.Model.Errors.{ok}
use rct_hub_backend.Model.Timer.{Time}
use rct_hub_backend.Model.State.{State, Cell, TbRequestState}
use rct_hub_backend.Model.Events.{Command, Transition}
use rct_hub_backend.Engine.Execute.{execute}
use rct_hub_backend.Validation.{validate_state}
use rct_hub_backend.Access.Tables.{IsAllowed}
use rct_hub_backend.Access.Laws.{execute-IsAllowed}
use rct_hub_backend.Recovery.{place_piece-pending}
use rct_hub_backend.Command.Errors.{done, Attempt-cases}
use rct_hub_backend.Command.Authorize.{Request, Readers, AuthorizedActor, authorize}
use rct_hub_backend.Store.Conflict.{IsIdle, apply-IsIdle}
use rct_hub_backend.Store.Documents.{Envelope, Disposition, Result}
use rct_hub_backend.Store.Driver.{Driver, Codec, Ids, IsDriver}
use rct_hub_backend.Store.Snapshot.{stored, load}
use rct_hub_backend.Store.Commands.{apply}
use rct_hub_backend.Store.Replay.{apply-applied, Applied}
use rct_hub_backend.Command.Orchestrator.{Platform, seal, run_engine, execute_request}

run_engine-eq-done :
    (command : Command) (now : Time) (s : State) (actor : AuthorizedActor) {t : Transition}
    → run_engine command now s actor ≡ done t
    → execute s actor.engine_actor command now ≡ ok t
unfolding run_engine
run_engine-eq-done command now s actor h = ground arith

pub seal-envelope :
    (platform : Platform) (request : Request) {envelope : Envelope}
    → seal platform request ≡ done envelope
    → (envelope.match_id ≡ request.match_id)
      × (envelope.expected_version ≡ request.expected_version)
      × (envelope.command_id ≡ request.command_id)
unfolding seal
seal-envelope platform request h = ground arith

-- What a request that was applied has gone through.
pub record IsExecuted {D B : Type 0} (m : Driver D B) (codec : Codec B) (readers : Readers)
    (request : Request) (now : Time) (d : D) (r : Result) : Type 0 where
  pub actor : AuthorizedActor
  pub current : State
  pub transition : Transition
  pub is_authorized : authorize readers request ≡ done actor
  pub is_loaded : load m codec request.match_id d ≡ stored current
  pub is_expected : current.version ≡ request.expected_version
  pub is_executed : execute current actor.engine_actor request.command now ≡ ok transition
  pub is_allowed : IsAllowed current actor.engine_actor request.command now
  pub is_valid : validate_state r.state ≡ true
  pub state : r.state ≡ transition.state
  pub previous : r.previous_version ≡ request.expected_version
  pub resulting : r.resulting_version ≡ inc_u64 request.expected_version

module _ {D B : Type 0} (m : Driver D B) (codec : Codec B) (driver_law : IsDriver m)
    (platform : Platform) (ids : Ids) (readers : Readers) (request : Request) (d : D) where
  -- What the store does with the request.
  abbrev Done : Envelope → D → Result → Type 0
  Done sealed d' r =
      Applied m codec sealed ids (authorize readers request)
        (run_engine request.command platform.now) d d' r

  -- A request past its checks is the store's command.
  pub execute_request-apply :
      {r : Result} {d' : D}
      → execute_request platform m codec ids readers request d ≡ (done r, d')
      → (envelope : Envelope) × (seal platform request ≡ done envelope)
        × (apply m codec ids envelope
              (authorize readers request)
              (run_engine request.command platform.now)
              d
            ≡ (done r, d'))
  unfolding execute_request
  execute_request-apply {r} {d'} h = elim (Attempt-cases (seal platform request)) [
    | inl (e, q) ↦ ground arith
    | inr (envelope, q) ↦ (envelope, q, ground arith)
  ]

  Done-IsExecuted :
      {sealed : Envelope} {r : Result} {d' : D}
      → seal platform request ≡ done sealed
      → Done sealed d' r
      → IsExecuted m codec readers request platform.now d r
  Done-IsExecuted {sealed} {r} {d'} is_sealed new =
      let (same_match, same_version, _) = seal-envelope platform request is_sealed in
      let run =
        run_engine-eq-done request.command platform.now new.current new.actor new.is_executed in
      record {
        actor = new.actor;
        current = new.current;
        transition = new.transition;
        is_authorized = new.is_authorized;
        is_loaded = subst (λ id. load m codec id d ≡ stored new.current) same_match new.is_loaded;
        is_expected = ground (arith, new.is_expected, same_version);
        is_executed = run;
        is_allowed =
            execute-IsAllowed new.current new.actor.engine_actor request.command platform.now run;
        is_valid = rw new.result new.is_valid;
        state = rw new.result refl;
        previous = rw new.result (ground (arith, new.is_expected, same_version));
        resulting = rw new.result (ground (arith, new.is_counted, new.is_expected, same_version));
      }

  -- With a driver that keeps its laws, a request that is applied was authorized, its expected version is
  -- the stored one, the result's state is that of Execute on the stored state, which allows the command,
  -- its version is the next, and ValidateState accepts it.
  pub execute_request-IsExecuted :
      {r : Result} {d' : D}
      → execute_request platform m codec ids readers request d ≡ (done r, d')
      → r.disposition ≡ Disposition.applied
      → IsExecuted m codec readers request platform.now d r
  execute_request-IsExecuted {r} {d'} h same =
      let (envelope, sealed, applied) = execute_request-apply h in
      Done-IsExecuted sealed (
        apply-applied m codec driver_law envelope ids (authorize readers request)
          (run_engine request.command platform.now) d applied same)

  -- A request that can never be applied.
  execute_request-IsIdle :
      ((sealed : Envelope) (d' : D) (r : Result)
        → seal platform request ≡ done sealed
        → ¬ Done sealed d' r)
      → IsIdle d (execute_request platform m codec ids readers request d)
  unfolding execute_request
  execute_request-IsIdle never = elim (Attempt-cases (seal platform request)) [
    | inl (e, q) ↦ rw (execute_request, q) (refl, refl)
    | inr (sealed, q) ↦
        rw (execute_request, q)
          (apply-IsIdle m codec sealed ids (authorize readers request)
            (run_engine request.command platform.now) d (λ d' r new. never sealed d' r q new)
            driver_law)
  ]

  -- With a driver that keeps its laws: a request that expects another version than the stored match has
  -- leaves the database as it is, whatever the driver reports, and is answered with an error or, under
  -- the id of a command that was applied before, with a replay.
  pub execute_request-stale :
      (s : State)
      → load m codec request.match_id d ≡ stored s
      → s.version ≢ request.expected_version
      → IsIdle d (execute_request platform m codec ids readers request d)
  execute_request-stale s loaded other = execute_request-IsIdle (λ sealed d' r q new.
      let run = Done-IsExecuted q new in
      let same : run.current ≡ s = ground (arith, run.is_loaded, loaded) in
      ground (arith, run.is_expected, same, other))

  -- With a driver that keeps its laws: while the stored match has a pending request for the tiebreaker,
  -- a PlacePiece leaves the database as it is, whatever the driver reports, and is answered with an
  -- error or a replay.
  pub execute_request-pending :
      (slot piece : Text) (cell : Cell) (s : State) (p : TbRequestState)
      → request.command ≡ Command.place_piece slot piece cell
      → load m codec request.match_id d ≡ stored s
      → s.pending_tb_request ≡ some p
      → IsIdle d (execute_request platform m codec ids readers request d)
  execute_request-pending slot piece cell s p command loaded pending =
      execute_request-IsIdle (λ sealed d' r q new.
        let run = Done-IsExecuted q new in
        let same : run.current ≡ s = ground (arith, run.is_loaded, loaded) in
        let executed : execute s run.actor.engine_actor (Command.place_piece slot piece cell)
              platform.now
            ≡ ok run.transition =
          ground (arith, run.is_executed, same, command) in
        let rejected =
          place_piece-pending s run.actor.engine_actor slot piece cell platform.now p pending
            executed in
        ground (arith, rejected, run.is_valid, run.state))
