-- ===== src/Examples/Database.antt =====
-- A database of one match, with encoders that keep the value, and requests to it.
use rct_hub_backend.Base.{
  ◌≡◌, refl, ℕ, ◌+◌, ◌-◌, ◌%◌, ◌*◌, length, Bool, true, false, ◌&&◌, Text, List, [], ◌∷◌, Option,
  none, some, codes, ◌==◌, text_Eq, text_eq_iff, nat_Eq, if◌then◌else◌, arith,
}
use rct_hub_backend.Base.Int.{pos, int_Eq}
use rct_hub_backend.Model.State.{State}
use rct_hub_backend.Model.Events.{Command}
use rct_hub_backend.Domain.Entities.{
  ObjectId, UserRole, VerifyStatus, User, Team, RoomType, Room, MatchStatus, Match,
}
use rct_hub_backend.Command.Errors.{CommandError, DriverError, Attempt, done, fail}
use rct_hub_backend.Command.Authorize.{Request, Readers, Read}
use rct_hub_backend.Command.Orchestrator.{Platform}
use rct_hub_backend.Store.Documents.{
  CommittedEvent, Result, MatchCommandReceiptDocument, MatchSnapshotDocument,
}
use rct_hub_backend.Store.Driver.{Driver, Codec, Ids, Found, Write, IsDriver, IsCodec, IsCommitOf}
use rct_hub_backend.Examples.Fixture.{ready, requested}

pub data Encoded : Type 0 where
  state : State → Encoded
  events : List CommittedEvent → Encoded

abbrev pub codec : Codec Encoded
codec = record {
  encode_state = λ s. some (Encoded.state s);
  decode_state = λ b. elim b [ Encoded.state s ↦ some s | Encoded.events es ↦ none ];
  encode_events = λ es. some (Encoded.events es);
  decode_events = λ b. elim b [ Encoded.state s ↦ none | Encoded.events es ↦ some es ];
  state_document = λ s. some (Encoded.state s);
  document_state = λ b. elim b [ Encoded.state s ↦ some s | Encoded.events es ↦ none ];
  is_empty_document = λ b. false;
  json_document = λ t. some t;
  event_document = λ e. some (codes "{}");
  committed_document = λ e. some (codes "{}");
  configuration_digest = λ h. some (codes "c");
}

pub codec-IsCodec : IsCodec codec
codec-IsCodec = record {
  state = λ s valid clean h. ground arith;
  events = λ es h. (es, ground arith, refl);
  document = λ s valid clean h. ground arith;
  document_bytes = λ s h. refl;
  digest = λ c h. ground arith;
}

pub record Database : Type 0 where
  pub receipts : List (MatchCommandReceiptDocument Encoded)
  pub snapshot : Option (MatchSnapshotDocument Encoded)
  pub last : ℕ

unfoldable pub find :
    ObjectId
    → Text
    → List (MatchCommandReceiptDocument Encoded)
    → Found (MatchCommandReceiptDocument Encoded)
find match_id command_id [] = Found.no_documents
find match_id command_id (r ∷ receipts) =
    let rest = find match_id command_id receipts in
    if r.match_id == match_id && r.command_id == command_id then Found.found r else rest

-- A BSON datetime has no nanoseconds.
abbrev in_milliseconds : MatchCommandReceiptDocument Encoded → MatchCommandReceiptDocument Encoded
in_milliseconds r = record r { created_at = r.created_at - r.created_at % 1_000_000 }

-- A driver whose commits succeed, and that reports them if told to.
abbrev pub driver : Bool → Driver Database Encoded
driver acknowledges = record {
  starts_session = λ d. Write.written tt;
  find_receipt = λ match_id command_id d. find match_id command_id d.receipts;
  insert_receipt = λ r d. Write.written (record d { receipts = in_milliseconds r ∷ d.receipts });
  insert_action = λ a d. Write.written d;
  insert_outbox = λ es d. Write.written (record d { last = d.last + length es });
  last_outbox_sequence = λ match_id d. Found.found d.last;
  find_snapshot = λ match_id d. elim d.snapshot [
    | none ↦ Found.no_documents
    | some document ↦ Found.found document
  ];
  update_snapshot = λ filter update d. elim d.snapshot [
    | none ↦ Write.written (0, d)
    | some document ↦
        if document.match_version == filter.match_version
        then Write.written (
          1,
          record d {
            snapshot = some (record document {
              schema_version = update.schema_version;
              match_version = update.match_version;
              state = update.state;
              updated_at = update.updated_at;
            });
          },
        )
        else Write.written (0, d)
  ];
  insert_snapshot = λ document d. Write.written (record d { snapshot = some document });
  find_legacy = λ match_id d. Found.no_documents;
  with_transaction = λ body d. elim (body d) [
    | fail e ↦ (fail e, d)
    | done (r, d') ↦
        (if acknowledges then done r else fail (CommandError.driver DriverError.failure), d')
  ];
}

driver-commits :
    (acknowledges : Bool) (body : Database → Attempt (Result × Database)) (d after : Database)
    (r : Result)
    → body d ≡ done (r, after)
    → IsCommitOf d r after ((driver acknowledges).with_transaction body d)
driver-commits true body d after r h = rw h IsCommitOf.committed
driver-commits false body d after r h = rw h (IsCommitOf.unacknowledged DriverError.failure)

pub driver-IsDriver : (acknowledges : Bool) → IsDriver (driver acknowledges)
unfolding find
driver-IsDriver acknowledges = record {
  aborts = λ body d e h. rw h refl;
  commits = driver-commits acknowledges;
  finds_receipt = λ r d d' h. (
    r.created_at - r.created_at % 1_000_000,
    ground (arith, text_eq_iff r.match_id r.match_id, text_eq_iff r.command_id r.command_id),
  );
}

abbrev pub match_id : ObjectId
match_id = codes "match"

abbrev pub ids : Ids
ids = record {
  action_id = codes "a";
  receipt_id = codes "r";
  outbox_id = λ n. n ∷ [];
  event_id = λ n. n ∷ [];
}

abbrev pub platform : Platform
platform = record {
  parse_uuid = λ t. some t;
  encode_command = λ c. some (codes "{}");
  request_digest = λ c. some c.command_id;
  now = 100;
}

abbrev pub referee_user : User
referee_user = record {
  id = codes "u";
  verify_status = VerifyStatus.verified;
  is_banned = false;
  online_id = pos 7;
  roles = UserRole.referee ∷ [];
}

abbrev pub blue_strategist : User
blue_strategist = record referee_user { online_id = pos 8; roles = UserRole.strategist ∷ [] }

abbrev pub team : ℕ → Team
team id = record {
  id = id ∷ [];
  leader_id = some (pos (id * 10));
  strategist_id = some (pos id);
  players = [];
}

abbrev pub room : Room
room = record {
  id = codes "room";
  room_type = RoomType.match_room;
  referee_user_id = some (pos 7);
  settings = record { red_team_id = some (9 ∷ []); blue_team_id = some (8 ∷ []) };
  match_id = some match_id;
}

abbrev pub shell : Match
shell = record {
  id = match_id;
  room_id = codes "room";
  room_type = RoomType.match_room;
  status = MatchStatus.ready;
}

abbrev pub readers : Readers
readers = record {
  user_by_osu_id =
      λ id. if id == pos 7 then Read.found referee_user else Read.found blue_strategist;
  match_by_id = λ id. Read.found shell;
  room_by_id = λ id. Read.found room;
  team_by_id = some (λ id. if id == (9 ∷ []) then Read.found (team 9) else Read.found (team 8));
}

abbrev pub start_request : Request
start_request = record {
  match_id = match_id;
  expected_version = 0;
  command_id = codes "start";
  caller_osu_id = pos 7;
  command = Command.start_match;
  system = false;
}

abbrev pub stored_at : State → MatchSnapshotDocument Encoded
stored_at s = record {
  match_id = match_id;
  schema_version = pos 3;
  match_version = s.version;
  origin = codes "NATIVE";
  configuration_hash = codes "c";
  state = Encoded.state s;
  created_at = 1;
  updated_at = 1;
}

-- The database before the start of the match.
abbrev pub before : Database
before = record { receipts = []; snapshot = some (stored_at ready); last = 0 }

-- A coherent state of the pick phase with a request for the tiebreaker, and the same command id for a
-- piece of blue's strategist.
abbrev pub open_request : State
open_request = record requested { board = [] }

abbrev pub place_request : Request
place_request = record start_request {
  caller_osu_id = pos 8;
  command = Command.place_piece (codes "NM1") (codes "p") (codes "D1");
}
