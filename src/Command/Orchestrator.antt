-- ===== src/Command/Orchestrator.antt =====
-- internal/matchcommand/orchestrator.go: a request from its checks to the store. The parsers and
-- encoders of other packages and the clock are parameters.
use rct_hub_backend.Base.{ℕ, not, ◌&&◌, Text, [], ◌∷◌, Option, ◌==◌, text_Eq, nat_Eq}
use rct_hub_backend.Base.Int.{ℤ, pos, leb_ℤ}
use rct_hub_backend.Model.Errors.{ok, err}
use rct_hub_backend.Model.Timer.{Time}
use rct_hub_backend.Model.State.{State}
use rct_hub_backend.Model.Events.{Command, Transition}
use rct_hub_backend.Engine.Execute.{execute}
use rct_hub_backend.Domain.Entities.{ObjectId, nil_object_id}
use rct_hub_backend.Command.Errors.{
  CommandError, Attempt, done, fail, ◌>>=◌, ◌>>◌, fail_if, or_fail, of_rule,
}
use rct_hub_backend.Command.Classes.{command_type}
use rct_hub_backend.Command.Authorize.{Request, Readers, AuthorizedActor, authorize}
use rct_hub_backend.Store.Documents.{Envelope, Result}
use rct_hub_backend.Store.Driver.{Driver, Codec, Ids}
use rct_hub_backend.Store.Commands.{apply}

-- The struct that canonicalRequestHash encodes.
pub record CanonicalRequest : Type 0 where
  pub match_id : ObjectId
  pub expected_version : ℕ
  pub command_id : Text
  pub caller_osu_id : ℤ
  pub command_type : Text
  pub payload : Text

pub record Platform : Type 0 where
  -- uuid.Parse, with the sixteen bytes of the id
  pub parse_uuid : Text → Option Text
  -- json.Marshal of a command
  pub encode_command : Command → Option Text
  -- SHA-256 of the encoded struct, in hexadecimal digits
  pub request_digest : CanonicalRequest → Option Text
  pub now : Time

-- uuid.Nil
abbrev pub nil_uuid : Text
nil_uuid = 0 ∷ 0 ∷ 0 ∷ 0 ∷ 0 ∷ 0 ∷ 0 ∷ 0 ∷ 0 ∷ 0 ∷ 0 ∷ 0 ∷ 0 ∷ 0 ∷ 0 ∷ 0 ∷ []

unfoldable pub canonical_request : Request → (type_name payload : Text) → CanonicalRequest
canonical_request request type_name payload = record {
  match_id = request.match_id;
  expected_version = request.expected_version;
  command_id = request.command_id;
  caller_osu_id = request.caller_osu_id;
  command_type = type_name;
  payload = payload;
}

-- The checks at the start of Execute, and the envelope that it builds. A nil command and one of a
-- foreign type fail with the same code.
unfoldable pub seal : Platform → Request → Attempt Envelope
seal platform request = do
  fail_if (request.match_id == nil_object_id) CommandError.invalid_request
  fail_if (not request.system && leb_ℤ request.caller_osu_id (pos 0)) CommandError.invalid_request
  id ← or_fail (platform.parse_uuid request.command_id) CommandError.invalid_request
  fail_if (id == nil_uuid) CommandError.invalid_request
  type_name ← or_fail (command_type request.command) CommandError.invalid_request
  payload ← or_fail (platform.encode_command request.command) CommandError.invalid_request
  hash ←
      or_fail (platform.request_digest (canonical_request request type_name payload))
        CommandError.invalid_request
  fail_if (platform.now == 0) CommandError.internal_error
  done (record {
    match_id = request.match_id;
    expected_version = request.expected_version;
    command_id = request.command_id;
    command_type = type_name;
    request_hash = hash;
    payload_json = payload;
    occurred_at = platform.now;
  })

-- The second function that Execute hands to the store.
unfoldable pub run_engine : Command → Time → State → AuthorizedActor → Attempt Transition
run_engine command now s actor = elim (execute s actor.engine_actor command now) [
  | ok transition ↦ done transition
  | err code ↦ fail (of_rule code)
]

unfoldable pub execute_request :
    {D B : Type 0}
    → Platform
    → Driver D B
    → Codec B
    → Ids
    → Readers
    → Request
    → D
    → Attempt Result × D
execute_request platform m codec ids readers request d = elim (seal platform request) [
  | fail e ↦ (fail e, d)
  | done envelope ↦
      apply m codec ids envelope (authorize readers request)
        (run_engine request.command platform.now) d
]
