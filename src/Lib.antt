-- ===== src/Lib.antt =====
-- The match engine of the RCT Hub backend, internal/matchengine: a game between a red and a blue team
-- on a 4x4 field. The teams ban slots of a map pool, then place pieces on the field in turn, play for
-- each piece, rob pieces from each other, and win with four in a line, by a tiebreaker, by surrender
-- or on the count of won pieces. A referee starts, suspends, skips and aborts, and may act for a team.
-- The engine is pure: Execute takes a state, an actor, a command and an instant, and returns a new
-- state with events or an error with a code. Its callers store the state and check it with
-- ValidateState when they read it back: internal/matchcommand authorizes a caller and runs a command
-- once for its id, and internal/persistence does so in a transaction that writes the state, the events
-- and a receipt. internal/domain has the entities around, with an older model of a match.
--
-- Files and code:
-- - Base: bytes, 64-bit integers, lists and maps, in place of Go's own types.
-- - Model: model.go and errors.go. Kinds has the enumerations, Timer the timers, State the aggregate
--   with its parts, Events the commands and the events.
-- - Board: board.go. Cells has coordinates, zones and single pieces; Alignments has FindAlignments.
-- - Engine: engine.go. Rules has the shared checks, Robbery the robbery, Terminal what follows a turn,
--   Play, Clock and Tiebreak the handlers, Execute the switch and the referee's proxies. Analysis,
--   Availability and Plans are availability.go: Analyze, AnalyzeForActor and robberyPlans.
-- - Setup: NewReadyState and the roster checks of model.go.
-- - Validation: validation.go, a function for each function of the source.
-- - Access: the tables of internal/matchengine/README.md as functions, and the proof about them.
-- - Effects: what each handler writes, for the proofs.
-- - Frame, Coherence, Ready, Reach: what commands leave alone, the part of ValidateState that commands
--   keep, new matches, and all matches that commands bring about.
-- - Placement, Robbing, Sets, Turns, Outcomes, Countdown, Recovery: single commands and routines.
-- - Offers, Bans: what AnalyzeForActor offers, against what Execute accepts.
-- - Domain: internal/domain. Entities has the fields of users, teams, rooms and matches that the
--   authorization reads; Mappool has mappool.go, with Entries and Sorting about its checks and its order;
--   Turn has turn.go, with Order about it; Pool has the text of pool slots of pool.go and what it uses of
--   Go's strings and strconv, with Names about it.
-- - Command: internal/matchcommand. Errors, Classes, Authorize and Orchestrator have the errors, the
--   classes of commands, the authorization and Execute; Authority, Entitlement, Requests and Retries
--   are about them.
-- - Store: internal/persistence. Documents, Driver, Snapshot and Commands have the documents, what is
--   used of the MongoDB driver, the snapshot store and Apply; Utf8 says which strings JSON
--   keeps; Laws, Outbox, Replay, Conflict and Recover are about them.
-- - Examples: a configuration, runs, and each theorem at one input.
--
-- How the model stands to the code:
-- - A function of the source is a function of its name in snake case; a block of it that the
--   proofs need apart is a helper beside it. A handler that writes to *State returns the new state
--   with its events, and an error drops what was written, since Execute works on a clone.
-- - Pointers are options, and a clone is the value itself: the engine never hands out what a state
--   points to.
-- - Strings are lists of bytes. An enumeration has the source's constants, `unknown` for any other
--   string, and `unset` for the empty one where the code uses it.
-- - A map is the list of its entries in the order in which a range visits them, and nothing fixes
--   that order; a nil map reads as an empty one. A write keeps the place of a key that is there.
-- - int, int64 and Duration are integers with wrap-around where the code can overflow, the version is
--   a uint64 with wrap-around, and instants count nanoseconds from Go's zero time. The won counts of
--   a result are natural numbers, so the checks that they are not negative always pass.
-- - Loops are recursions on the list or on the number of rounds; there is no fuel. The bound of
--   2 ^ 62 commands in Reach keeps turn and version from wrapping around; no match comes near it.
-- - The MongoDB driver, the encoders and digests, the generators of ids, the readers of users, matches,
--   rooms and teams, and the clock are parameters. The laws of the driver and of the encoders stand in
--   Store.Driver: JSON keeps valid states whose strings are UTF-8, and a BSON datetime the milliseconds of
--   a receipt's time; a commit whose answer is lost may or may not have taken place. The database is any
--   type, and so are encoded states and lists of events. A request sees one database from its start to
--   its transaction; what other requests do in between is another run.
-- - The retries of a transaction by the driver run the same function again on a database that was rolled
--   back, and are not told apart from its one run.
--
-- Not modelled: the JSON encodings, the texts of errors and the logs; of internal/persistence the queries
-- for replay and publication, the indexes and validators, and the jobs of the IRC bot; of
-- internal/domain what is not named above; the service, handler, GraphQL, realtime, IRC, OAuth and
-- fetcher packages, which are I/O around the engine or await a model.
pub mod Base
pub mod Command
pub mod Domain
pub mod Offers
pub mod Bans
pub mod Store
pub mod Model
pub mod Board
pub mod Engine
pub mod Setup
pub mod Validation
pub mod Access
pub mod Effects
pub mod Ready
pub mod Reach
pub mod Frame
pub mod Coherence
pub mod Countdown
pub mod Placement
pub mod Sets
pub mod Recovery
pub mod Turns
pub mod Outcomes
pub mod Robbing
mod Examples
