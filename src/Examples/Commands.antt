-- ===== src/Examples/Commands.antt =====
-- The theorems on requests and the store, each at one input.
use rct_hub_backend.Base.{◌≡◌, ◌⊎◌, refl, true, false, text_eq, codes, some}
use rct_hub_backend.Model.Kinds.{TeamSide, Capability}
use rct_hub_backend.Model.Events.{Command}
use rct_hub_backend.Validation.{validate_state}
use rct_hub_backend.Access.Tables.{may_issue}
use rct_hub_backend.Command.Errors.{done}
use rct_hub_backend.Command.Classes.{command_type}
use rct_hub_backend.Command.Authority.{
  classes, classes-command_type, backs_role, actor_for_command-backs_role,
  actor_for_command-may_issue,
}
use rct_hub_backend.Command.Entitlement.{IsEntitled, authorize-IsEntitled}
use rct_hub_backend.Command.Orchestrator.{execute_request, run_engine, seal}
use rct_hub_backend.Command.Requests.{
  IsExecuted, execute_request-IsExecuted, execute_request-pending, execute_request-stale,
}
use rct_hub_backend.Command.Retries.{at_time, execute_request-retry, execute_request-failed}
use rct_hub_backend.Command.Authorize.{authorize}
use rct_hub_backend.Store.Documents.{Envelope, Result}
use rct_hub_backend.Store.Snapshot.{stored, decode_state}
use rct_hub_backend.Store.Commands.{command_actor_document}
use rct_hub_backend.Store.Conflict.{IsIdle}
use rct_hub_backend.Store.Laws.{IsApplied}
use rct_hub_backend.Store.Utf8.{is_utf8}
use rct_hub_backend.Store.Outbox.{AreEntries, build_outbox_documents-numbered}
use rct_hub_backend.Store.Recover.{decode_state-new_match_snapshot_document}
use rct_hub_backend.Store.Replay.{as_replay}
use rct_hub_backend.Examples.Fixture.{started, start, blue, request}
use rct_hub_backend.Examples.Database.{
  codec, codec-IsCodec, driver, driver-IsDriver, platform, ids, match_id, readers, room, team,
  blue_strategist, start_request, place_request, open_request, before, stored_at,
}
use rct_hub_backend.Examples.Requests.{
  start_envelope, acting, start_result, after, start_request-done, start_request-lost, holding,
  holding-open_request, start_request-authorized, place_request-actor, started-document, stale,
  stale-started, started-utf8, start_request-sealed, start_request-later, start_outbox,
  start-outbox, before-last,
}
use rct_hub_backend.Examples.Steps.{later_instant, two_hundred_later, started_newer}

execute_request-IsExecuted_example :
    IsExecuted (driver true) codec readers start_request 100 before start_result
execute_request-IsExecuted_example =
    execute_request-IsExecuted (driver true) codec (driver-IsDriver true) platform ids readers
      start_request before start_request-done refl

execute_request-retry_example :
    execute_request
      (at_time later_instant platform)
      (driver true)
      codec
      ids
      readers
      start_request
      after
    ≡ (done (as_replay start_result), after)
unfolding text_eq
execute_request-retry_example =
    execute_request-retry (driver true) codec (driver-IsDriver true) codec-IsCodec platform ids
      readers start_request before (at_time later_instant platform) ids readers start_request after
      started-utf8 start_request-done start_request-sealed start_request-later refl refl refl

execute_request-failed_example :
    (after ≡ before)
    ⊎ ((sealed : Envelope) × (r : Result) × (seal platform start_request ≡ done sealed)
        × IsApplied
            (driver false)
            codec
            ids
            sealed
            (authorize readers start_request)
            (run_engine Command.start_match 100)
            before
            after
            r
        × ((is_utf8 r.state ≡ false)
            ⊎ (execute_request
                  (at_time later_instant platform)
                  (driver false)
                  codec
                  ids
                  readers
                  start_request
                  after
                ≡ (done (as_replay r), after))))
execute_request-failed_example =
    execute_request-failed (driver false) codec (driver-IsDriver false) codec-IsCodec platform ids
      readers start_request before ids readers later_instant after two_hundred_later
      start_request-lost refl

execute_request-pending_example :
    IsIdle holding (execute_request platform (driver true) codec ids readers place_request holding)
execute_request-pending_example =
    execute_request-pending (driver true) codec (driver-IsDriver true) platform ids readers
      place_request holding (codes "NM1") (codes "p") (codes "D1") open_request request refl
      holding-open_request refl

execute_request-stale_example :
    IsIdle stale (execute_request platform (driver true) codec ids readers start_request stale)
execute_request-stale_example =
    execute_request-stale (driver true) codec (driver-IsDriver true) platform ids readers
      start_request stale started stale-started started_newer

build_outbox_documents-numbered_example :
    AreEntries codec start_envelope
      (command_actor_document acting)
      1
      0
      start.events
      start_outbox.documents
      start_outbox.payloads
      start_outbox.committed
build_outbox_documents-numbered_example =
    build_outbox_documents-numbered (driver true) codec ids start_envelope
      (command_actor_document acting) start before before-last start-outbox

decode_state-new_match_snapshot_document_example :
    (decode_state codec (record (stored_at started) { created_at = 100; updated_at = 100 })
      ≡ stored started)
    × (validate_state started ≡ true)
decode_state-new_match_snapshot_document_example =
    decode_state-new_match_snapshot_document codec match_id started 100 codec-IsCodec started-utf8
      started-document

authorize-IsEntitled_example : IsEntitled readers start_request acting
authorize-IsEntitled_example =
    authorize-IsEntitled readers start_request refl start_request-authorized

actor_for_command-backs_role_example :
    (blue.capability ≡ Capability.strategist)
    × (backs_role blue_strategist room (some (team 9)) (some (team 8)) blue.capability blue.team
        ≡ true)
    × (blue.admin_override ≡ false)
actor_for_command-backs_role_example =
    actor_for_command-backs_role blue_strategist room (some (team 9)) (some (team 8))
      place_request.command place_request-actor

actor_for_command-may_issue_example : may_issue place_request.command blue TeamSide.blue ≡ true
actor_for_command-may_issue_example =
    actor_for_command-may_issue blue_strategist room (some (team 9)) (some (team 8))
      place_request.command TeamSide.blue place_request-actor

classes-command_type_example : classes Command.start_match ≡ 1
unfolding command_type
classes-command_type_example = classes-command_type Command.start_match
