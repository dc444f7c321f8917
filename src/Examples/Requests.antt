-- ===== src/Examples/Requests.antt =====
-- Runs of requests on the database.
use rct_hub_backend.Base.{◌≡◌, refl, true, false, Bool, codes, some, none, ◌∷◌, [], ℕ, ◌+◌}
use rct_hub_backend.Base.Int.{pos}
use rct_hub_backend.Model.Kinds.{Capability, TeamSide}
use rct_hub_backend.Model.State.{referee_actor}
use rct_hub_backend.Model.Events.{EventType, Event, event, team_event}
use rct_hub_backend.Domain.Entities.{UserRole}
use rct_hub_backend.Command.Errors.{Attempt, done, fail, CommandError, DriverError}
use rct_hub_backend.Command.Authorize.{AuthorizedActor, Request}
use rct_hub_backend.Command.Orchestrator.{execute_request, seal}
use rct_hub_backend.Store.Documents.{Envelope, Result, CommittedEvent, Disposition}
use rct_hub_backend.Store.Commands.{
  command_receipt, build_outbox_documents, last_sequence, Outbox, command_actor_document,
}
use rct_hub_backend.Store.Utf8.{is_utf8, valid}
use rct_hub_backend.Command.Retries.{at_time}
use rct_hub_backend.Examples.Steps.{later_instant}
use rct_hub_backend.Store.Snapshot.{Stored, stored, load, new_match_snapshot_document}
use rct_hub_backend.Command.Authorize.{authorize, actor_for_command}
use rct_hub_backend.Examples.Fixture.{ready, started, start, referee, blue}
use rct_hub_backend.Examples.Database.{
  Encoded, codec, Database, driver, platform, ids, match_id, readers, room, team, blue_strategist,
  start_request, place_request, open_request, before, stored_at,
}

abbrev value_of : Attempt Outbox → Outbox → Outbox
value_of (done a) b = a
value_of (fail e) b = b

abbrev empty_outbox : Outbox
empty_outbox = record { documents = []; payloads = []; committed = [] }

abbrev pub start_envelope : Envelope
start_envelope = record {
  match_id = match_id;
  expected_version = 0;
  command_id = codes "start";
  command_type = codes "START_MATCH";
  request_hash = codes "start";
  payload_json = codes "{}";
  occurred_at = 100;
}

abbrev pub acting : AuthorizedActor
acting = record {
  user_id = codes "u";
  osu_id = pos 7;
  global_roles = UserRole.referee ∷ [];
  engine_actor = referee;
  admin_override = false;
  referee_override = false;
  reason = [];
}

abbrev committed : ℕ → Event → CommittedEvent
committed index e = record {
  event_id = index ∷ [];
  sequence = index + 1;
  resulting_version = 1;
  event_type = e.event_type;
  occurred_at = 100;
  actor = record {
    osu_id = pos 7;
    capability = Capability.referee;
    team = none;
    admin_override = false;
    referee_override = false;
  };
  payload = e;
}

abbrev pub start_result : Result
start_result = record {
  command_id = codes "start";
  disposition = Disposition.applied;
  previous_version = 0;
  resulting_version = 1;
  state = started;
  events =
      committed 0 (event EventType.match_started)
      ∷ committed 1 (team_event EventType.ban_phase_started TeamSide.red)
      ∷ committed 2 (event EventType.timer_started)
      ∷ [];
}

-- The database after the start.
abbrev pub after : Database
after = record {
  receipts =
      record (command_receipt ids start_envelope acting ready start (Encoded.state started)
        (Encoded.events start_result.events)) { created_at = 0 }
      ∷ [];
  snapshot = some (record (stored_at started) { updated_at = 100 });
  last = 3;
}

pub start_request-done :
    execute_request platform (driver true) codec ids readers start_request before
    ≡ (done start_result, after)
unfolding rct_hub_backend.Command.Authorize.is_assigned_referee
    rct_hub_backend.Command.Authorize.referee_for_command
    rct_hub_backend.Command.Authorize.captain_for_command
    rct_hub_backend.Command.Authorize.actor_for_command rct_hub_backend.Command.Authorize.room_team
    rct_hub_backend.Command.Authorize.room_teams rct_hub_backend.Command.Authorize.is_paired
    rct_hub_backend.Command.Authorize.authorize_user rct_hub_backend.Command.Authorize.authorize
    rct_hub_backend.Command.Classes.is_captain_command
    rct_hub_backend.Command.Classes.is_referee_proxy_command
    rct_hub_backend.Command.Classes.is_referee_command rct_hub_backend.Command.Classes.command_type
    rct_hub_backend.Command.Orchestrator.canonical_request rct_hub_backend.Command.Orchestrator.seal
    rct_hub_backend.Command.Orchestrator.run_engine
    rct_hub_backend.Command.Orchestrator.execute_request
    rct_hub_backend.Store.Commands.command_actor_document
    rct_hub_backend.Store.Commands.committed_event rct_hub_backend.Store.Commands.build_from
    rct_hub_backend.Store.Commands.clone_committed_events
    rct_hub_backend.Store.Commands.last_sequence
    rct_hub_backend.Store.Commands.build_outbox_documents
    rct_hub_backend.Store.Commands.load_receipt rct_hub_backend.Store.Commands.write_command
    rct_hub_backend.Store.Commands.apply_new rct_hub_backend.Store.Commands.command_body
    rct_hub_backend.Store.Commands.finish rct_hub_backend.Store.Commands.apply
    rct_hub_backend.Store.Snapshot.hashed_pool
    rct_hub_backend.Store.Snapshot.state_configuration_hash
    rct_hub_backend.Store.Snapshot.new_match_snapshot_document
    rct_hub_backend.Store.Snapshot.decode_state rct_hub_backend.Store.Snapshot.read_snapshot
    rct_hub_backend.Store.Snapshot.open_snapshot rct_hub_backend.Store.Snapshot.load
    rct_hub_backend.Store.Snapshot.compare_and_swap rct_hub_backend.Domain.Entities.is_verified
    rct_hub_backend.Domain.Entities.has_role rct_hub_backend.Domain.Entities.is_match_room
    rct_hub_backend.Domain.Entities.is_ready rct_hub_backend.Engine.Execute.dispatch
    rct_hub_backend.Engine.Execute.commit rct_hub_backend.Engine.Execute.execute
    rct_hub_backend.Engine.Play.start_match rct_hub_backend.Validation.valid_timer_shape
    rct_hub_backend.Validation.validate_turn_and_timer
    rct_hub_backend.Validation.validate_side_flags rct_hub_backend.Validation.valid_slots
    rct_hub_backend.Validation.count_slots rct_hub_backend.Validation.check_board
    rct_hub_backend.Validation.selected_match rct_hub_backend.Validation.validate_pool_and_board
    rct_hub_backend.Validation.valid_pending_request
    rct_hub_backend.Validation.validate_tb_entry_evidence
    rct_hub_backend.Validation.validate_recovery_evidence
    rct_hub_backend.Validation.valid_lifecycle_data
    rct_hub_backend.Validation.validate_lifecycle_state rct_hub_backend.Validation.validate_state
    rct_hub_backend.Base.text_eq rct_hub_backend.Base.get_or rct_hub_backend.Base.Int.inc_u64
    rct_hub_backend.Model.Timer.timers_valid rct_hub_backend.Model.State.referee_actor
    rct_hub_backend.Setup.check_players rct_hub_backend.Setup.check_roster
    rct_hub_backend.Setup.validate_rosters rct_hub_backend.Board.mark_dead
    rct_hub_backend.Examples.Database.find
start_request-done = refl

pub start_request-lost :
    execute_request platform (driver false) codec ids readers start_request before
    ≡ (fail (CommandError.driver DriverError.failure), after)
unfolding rct_hub_backend.Command.Authorize.is_assigned_referee
    rct_hub_backend.Command.Authorize.referee_for_command
    rct_hub_backend.Command.Authorize.captain_for_command
    rct_hub_backend.Command.Authorize.actor_for_command rct_hub_backend.Command.Authorize.room_team
    rct_hub_backend.Command.Authorize.room_teams rct_hub_backend.Command.Authorize.is_paired
    rct_hub_backend.Command.Authorize.authorize_user rct_hub_backend.Command.Authorize.authorize
    rct_hub_backend.Command.Classes.is_captain_command
    rct_hub_backend.Command.Classes.is_referee_proxy_command
    rct_hub_backend.Command.Classes.is_referee_command rct_hub_backend.Command.Classes.command_type
    rct_hub_backend.Command.Orchestrator.canonical_request rct_hub_backend.Command.Orchestrator.seal
    rct_hub_backend.Command.Orchestrator.run_engine
    rct_hub_backend.Command.Orchestrator.execute_request
    rct_hub_backend.Store.Commands.command_actor_document
    rct_hub_backend.Store.Commands.committed_event rct_hub_backend.Store.Commands.build_from
    rct_hub_backend.Store.Commands.replay rct_hub_backend.Store.Commands.last_sequence
    rct_hub_backend.Store.Commands.build_outbox_documents
    rct_hub_backend.Store.Commands.load_receipt rct_hub_backend.Store.Commands.write_command
    rct_hub_backend.Store.Commands.apply_new rct_hub_backend.Store.Commands.command_body
    rct_hub_backend.Store.Commands.finish rct_hub_backend.Store.Commands.apply
    rct_hub_backend.Store.Snapshot.hashed_pool
    rct_hub_backend.Store.Snapshot.state_configuration_hash
    rct_hub_backend.Store.Snapshot.new_match_snapshot_document
    rct_hub_backend.Store.Snapshot.decode_state rct_hub_backend.Store.Snapshot.read_snapshot
    rct_hub_backend.Store.Snapshot.open_snapshot rct_hub_backend.Store.Snapshot.load
    rct_hub_backend.Store.Snapshot.compare_and_swap rct_hub_backend.Domain.Entities.is_verified
    rct_hub_backend.Domain.Entities.has_role rct_hub_backend.Domain.Entities.is_match_room
    rct_hub_backend.Domain.Entities.is_ready rct_hub_backend.Engine.Execute.dispatch
    rct_hub_backend.Engine.Execute.commit rct_hub_backend.Engine.Execute.execute
    rct_hub_backend.Engine.Play.start_match rct_hub_backend.Validation.valid_timer_shape
    rct_hub_backend.Validation.validate_turn_and_timer
    rct_hub_backend.Validation.validate_side_flags rct_hub_backend.Validation.valid_slots
    rct_hub_backend.Validation.count_slots rct_hub_backend.Validation.check_board
    rct_hub_backend.Validation.selected_match rct_hub_backend.Validation.validate_pool_and_board
    rct_hub_backend.Validation.valid_pending_request
    rct_hub_backend.Validation.validate_tb_entry_evidence
    rct_hub_backend.Validation.validate_recovery_evidence
    rct_hub_backend.Validation.valid_lifecycle_data
    rct_hub_backend.Validation.validate_lifecycle_state rct_hub_backend.Validation.validate_state
    rct_hub_backend.Base.text_eq rct_hub_backend.Base.get_or rct_hub_backend.Base.Int.inc_u64
    rct_hub_backend.Model.Timer.timers_valid rct_hub_backend.Model.State.referee_actor
    rct_hub_backend.Setup.check_players rct_hub_backend.Setup.check_roster
    rct_hub_backend.Setup.validate_rosters rct_hub_backend.Board.mark_dead
    rct_hub_backend.Examples.Database.find rct_hub_backend.Command.Errors.is_duplicate_key
start_request-lost = refl

-- The database with the open request, without receipts.
abbrev pub holding : Database
holding = record after { receipts = []; snapshot = some (stored_at open_request) }

pub holding-open_request : load (driver true) codec match_id holding ≡ stored open_request
unfolding rct_hub_backend.Store.Commands.apply_new rct_hub_backend.Store.Snapshot.hashed_pool
    rct_hub_backend.Store.Snapshot.state_configuration_hash
    rct_hub_backend.Store.Snapshot.decode_state rct_hub_backend.Store.Snapshot.read_snapshot
    rct_hub_backend.Store.Snapshot.open_snapshot rct_hub_backend.Store.Snapshot.load
    rct_hub_backend.Domain.Entities.has_role rct_hub_backend.Domain.Entities.strategist_side
    rct_hub_backend.Engine.Play.place_piece rct_hub_backend.Engine.Play.place_shiro
    rct_hub_backend.Engine.Rules.pick_team rct_hub_backend.Validation.valid_timer_shape
    rct_hub_backend.Validation.validate_turn_and_timer
    rct_hub_backend.Validation.validate_side_flags rct_hub_backend.Validation.valid_slots
    rct_hub_backend.Validation.count_slots rct_hub_backend.Validation.check_board
    rct_hub_backend.Validation.selected_match rct_hub_backend.Validation.validate_pool_and_board
    rct_hub_backend.Validation.valid_pending_request
    rct_hub_backend.Validation.validate_tb_entry_evidence
    rct_hub_backend.Validation.validate_recovery_evidence
    rct_hub_backend.Validation.valid_lifecycle_data
    rct_hub_backend.Validation.validate_lifecycle_state rct_hub_backend.Validation.validate_state
    rct_hub_backend.Base.all rct_hub_backend.Base.to_set rct_hub_backend.Base.sort_texts
    rct_hub_backend.Base.text_eq rct_hub_backend.Model.Timer.time_sub
    rct_hub_backend.Model.Timer.timers_valid rct_hub_backend.Setup.check_players
    rct_hub_backend.Setup.check_roster rct_hub_backend.Setup.validate_rosters
    rct_hub_backend.Board.cell_position rct_hub_backend.Board.empty
    rct_hub_backend.Engine.Terminal.forced_tb_requirements_met
holding-open_request = refl

pub start_request-authorized : authorize readers start_request ≡ done acting
unfolding rct_hub_backend.Command.Authorize.is_assigned_referee
    rct_hub_backend.Command.Authorize.referee_for_command
    rct_hub_backend.Command.Authorize.captain_for_command
    rct_hub_backend.Command.Authorize.actor_for_command rct_hub_backend.Command.Authorize.room_team
    rct_hub_backend.Command.Authorize.room_teams rct_hub_backend.Command.Authorize.is_paired
    rct_hub_backend.Command.Authorize.authorize_user rct_hub_backend.Command.Authorize.authorize
    rct_hub_backend.Command.Classes.is_captain_command
    rct_hub_backend.Command.Classes.is_referee_proxy_command
    rct_hub_backend.Command.Classes.is_referee_command
    rct_hub_backend.Command.Classes.command_reason
    rct_hub_backend.Command.Orchestrator.canonical_request rct_hub_backend.Store.Snapshot.create
    rct_hub_backend.Store.Snapshot.compare_and_swap rct_hub_backend.Domain.Entities.is_verified
    rct_hub_backend.Domain.Entities.has_role rct_hub_backend.Domain.Entities.is_match_room
    rct_hub_backend.Domain.Entities.is_ready rct_hub_backend.Engine.Execute.execute
    rct_hub_backend.Validation.valid_result rct_hub_backend.Validation.validate_state
    rct_hub_backend.Base.contains rct_hub_backend.Base.insert_text rct_hub_backend.Base.text_eq
    rct_hub_backend.Model.Timer.pause rct_hub_backend.Model.Timer.timers_valid
    rct_hub_backend.Model.State.captain_actor rct_hub_backend.Model.State.referee_actor
    rct_hub_backend.Setup.add_slot
start_request-authorized = refl

pub place_request-actor :
    actor_for_command blue_strategist room (some (team 9)) (some (team 8)) place_request.command
    ≡ done (blue, false, false)
unfolding rct_hub_backend.Command.Authorize.engine_team_side
    rct_hub_backend.Command.Authorize.assigned_strategist_side
    rct_hub_backend.Command.Authorize.is_assigned_referee
    rct_hub_backend.Command.Authorize.strategist_for_command
    rct_hub_backend.Command.Authorize.actor_for_command
    rct_hub_backend.Command.Authorize.authorize_system
    rct_hub_backend.Command.Classes.is_strategist_command
    rct_hub_backend.Command.Classes.is_referee_proxy_command
    rct_hub_backend.Command.Classes.is_referee_command
    rct_hub_backend.Command.Orchestrator.run_engine rct_hub_backend.Store.Snapshot.compare_and_swap
    rct_hub_backend.Domain.Entities.has_role rct_hub_backend.Domain.Entities.side_by_assignment
    rct_hub_backend.Domain.Entities.strategist_side rct_hub_backend.Engine.Play.place_piece
    rct_hub_backend.Engine.Play.place_shiro rct_hub_backend.Base.contains
    rct_hub_backend.Base.Int.inc_u64 rct_hub_backend.Model.Timer.remaining
    rct_hub_backend.Model.State.strategist_actor rct_hub_backend.Board.zone_at
    rct_hub_backend.Board.piece_at
place_request-actor = refl

pub started-document :
    new_match_snapshot_document codec match_id started 100
    ≡ stored (record (stored_at started) { created_at = 100; updated_at = 100 })
unfolding rct_hub_backend.Store.Commands.apply_new rct_hub_backend.Store.Snapshot.hashed_pool
    rct_hub_backend.Store.Snapshot.state_configuration_hash
    rct_hub_backend.Store.Snapshot.new_match_snapshot_document
    rct_hub_backend.Engine.Rules.pick_team rct_hub_backend.Engine.Rules.referee_proxy_context
    rct_hub_backend.Validation.valid_timer_shape rct_hub_backend.Validation.validate_turn_and_timer
    rct_hub_backend.Validation.validate_side_flags rct_hub_backend.Validation.valid_slots
    rct_hub_backend.Validation.count_slots rct_hub_backend.Validation.check_board
    rct_hub_backend.Validation.selected_match rct_hub_backend.Validation.validate_pool_and_board
    rct_hub_backend.Validation.valid_pending_request
    rct_hub_backend.Validation.validate_tb_entry_evidence
    rct_hub_backend.Validation.validate_recovery_evidence
    rct_hub_backend.Validation.valid_lifecycle_data
    rct_hub_backend.Validation.validate_lifecycle_state rct_hub_backend.Validation.validate_state
    rct_hub_backend.Base.contains rct_hub_backend.Base.insert_text rct_hub_backend.Base.text_eq
    rct_hub_backend.Model.Timer.pause rct_hub_backend.Model.Timer.timers_valid
    rct_hub_backend.Model.State.captain_actor rct_hub_backend.Model.State.system_referee_actor
    rct_hub_backend.Setup.check_players rct_hub_backend.Setup.check_roster
    rct_hub_backend.Setup.validate_rosters rct_hub_backend.Board.cell_position
    rct_hub_backend.Board.zone_at rct_hub_backend.Board.piece_at
started-document = refl

-- The database after the start, without receipts.
abbrev pub stale : Database
stale = record after { receipts = [] }

pub stale-started : load (driver true) codec match_id stale ≡ stored started
unfolding rct_hub_backend.Store.Commands.apply_new rct_hub_backend.Store.Snapshot.hashed_pool
    rct_hub_backend.Store.Snapshot.state_configuration_hash
    rct_hub_backend.Store.Snapshot.decode_state rct_hub_backend.Store.Snapshot.read_snapshot
    rct_hub_backend.Store.Snapshot.open_snapshot rct_hub_backend.Store.Snapshot.load
    rct_hub_backend.Domain.Entities.has_role rct_hub_backend.Domain.Entities.strategist_side
    rct_hub_backend.Engine.Play.place_piece
    rct_hub_backend.Engine.Rules.referee_proxy_captain_context
    rct_hub_backend.Engine.Rules.append_referee_proxy_event
    rct_hub_backend.Validation.valid_timer_shape rct_hub_backend.Validation.validate_turn_and_timer
    rct_hub_backend.Validation.validate_side_flags rct_hub_backend.Validation.valid_slots
    rct_hub_backend.Validation.count_slots rct_hub_backend.Validation.check_board
    rct_hub_backend.Validation.selected_match rct_hub_backend.Validation.validate_pool_and_board
    rct_hub_backend.Validation.valid_pending_request
    rct_hub_backend.Validation.validate_tb_entry_evidence
    rct_hub_backend.Validation.validate_recovery_evidence
    rct_hub_backend.Validation.valid_lifecycle_data
    rct_hub_backend.Validation.validate_lifecycle_state rct_hub_backend.Validation.validate_state
    rct_hub_backend.Base.all rct_hub_backend.Base.to_set rct_hub_backend.Base.sort_texts
    rct_hub_backend.Base.text_eq rct_hub_backend.Model.Timer.time_sub
    rct_hub_backend.Model.Timer.timers_valid rct_hub_backend.Setup.check_players
    rct_hub_backend.Setup.check_roster rct_hub_backend.Setup.validate_rosters
    rct_hub_backend.Board.cell_position rct_hub_backend.Board.empty
stale-started = refl

abbrev pub start_outbox : Outbox
start_outbox =
    value_of
      (build_outbox_documents (driver true) codec ids start_envelope (command_actor_document acting)
        start before)
      empty_outbox

pub start-outbox :
    build_outbox_documents
      (driver true)
      codec
      ids
      start_envelope
      (command_actor_document acting)
      start
      before
    ≡ done start_outbox
unfolding rct_hub_backend.Store.Commands.outbox_document rct_hub_backend.Store.Commands.build_from
    rct_hub_backend.Store.Commands.replay rct_hub_backend.Store.Commands.last_sequence
    rct_hub_backend.Store.Commands.build_outbox_documents
    rct_hub_backend.Store.Commands.write_command rct_hub_backend.Engine.Play.rob_piece
    rct_hub_backend.Engine.Rules.require_active_strategist
    rct_hub_backend.Engine.Rules.placement_force_mod rct_hub_backend.Validation.selected_match
    rct_hub_backend.Model.State.referee_actor rct_hub_backend.Setup.check_players
start-outbox = refl

pub before-last : last_sequence (driver true) codec match_id before ≡ done 0
unfolding rct_hub_backend.Store.Commands.last_sequence rct_hub_backend.Store.Commands.load_receipt
    rct_hub_backend.Store.Commands.apply rct_hub_backend.Engine.Rules.require_running_phase
    rct_hub_backend.Engine.Rules.require_strategist_timer rct_hub_backend.Validation.check_board
    rct_hub_backend.Model.State.captain_actor rct_hub_backend.Model.State.system_referee_actor
    rct_hub_backend.Setup.build_pool
before-last = refl

pub started-utf8 : is_utf8 started ≡ true
unfolding is_utf8 rct_hub_backend.Base.all rct_hub_backend.Store.Utf8.state_texts
    rct_hub_backend.Store.Utf8.valid rct_hub_backend.Store.Utf8.continues
    rct_hub_backend.Store.Utf8.slot_texts rct_hub_backend.Store.Utf8.board_texts
started-utf8 = refl

pub start_request-sealed : seal platform start_request ≡ done start_envelope
unfolding seal rct_hub_backend.Base.text_eq rct_hub_backend.Command.Classes.command_type
    rct_hub_backend.Command.Orchestrator.canonical_request
start_request-sealed = refl

pub start_request-later :
    seal (at_time later_instant platform) start_request
    ≡ done (record start_envelope { occurred_at = later_instant })
unfolding seal rct_hub_backend.Base.text_eq rct_hub_backend.Command.Classes.command_type
    rct_hub_backend.Command.Orchestrator.canonical_request
start_request-later = refl

-- Two bytes for an accent, and what no UTF-8 has: a surrogate, a long form, and the end of a character
-- that is missing.
utf8_tests :
    (valid (0x63 ∷ 0xc3 ∷ 0xa9 ∷ []) ≡ true)
    × (valid (0xed ∷ 0xa0 ∷ 0x80 ∷ []) ≡ false)
    × (valid (0xc0 ∷ 0x80 ∷ []) ≡ false)
    × (valid (0xc3 ∷ []) ≡ false)
unfolding valid rct_hub_backend.Store.Utf8.continues
utf8_tests = (refl, refl, refl, refl)
