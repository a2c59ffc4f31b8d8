-- ===== src/Lib.antt =====
-- TwinStudio: an event-sourced digital thread of a physical product (src/twinstudio). Every change of a
-- project is a command. The command bus projects the project's events to a snapshot, checks the command
-- against the snapshot and the role of its actor, and appends one event to the project's stream, under
-- optimistic concurrency; a query replays the stream.
--
-- What models what:
--
-- - Base: the library names that the development passes on, `dict` (Base/Dict), JSON values (Base/Json),
--   texts (Base/Text, Base/Letters), calls that return or raise (Base/Outcome), and methods that change a
--   state and may raise, with a transaction that rolls back (Base/Exec).
-- - Domain: src/twinstudio/domain.py. `Role`, `LifecycleStage`, the objects, `ProjectSnapshot` and the two
--   envelopes are records and data with the source's fields. `Pydantic` (Domain/Snapshot) is what the code
--   uses of pydantic, as a parameter.
-- - Permissions: src/twinstudio/permissions.py.
-- - EventStore: src/twinstudio/event_store.py. A `Database` holds the five tables as lists of rows in the
--   order of insertion, with the primary keys and unique columns checked at each insertion. Events has
--   `append`, `load`, `current_version` and `delete_stream`; Credentials the users, API tokens and
--   sessions; Invitations the four methods on invitations.
-- - Projector: src/twinstudio/projector.py. Handlers and Changes have one function for each function
--   `_name` of the file, Views the mirrored feature parameters, Replay `apply_event` and
--   `project_from_events`.
-- - Bus: src/twinstudio/bus.py. Cases and Table are the `match` of `_handle_existing`, Needs and Guards what
--   holds of each of its cases, Execute the methods of `CommandBus` and `QueryService.project`.
-- - Lifecycle: src/twinstudio/lifecycle.py and the blueprint of src/twinstudio/evolution_models.py. Guidance is what the
--   file says of each stage, Registry `LifecycleRegistry` over a catalog that is an argument.
-- - Auth: src/twinstudio/auth.py. `principal_from_request` and `role_for` are in Auth, the calls that change the store
--   in Auth/Access.
-- - Mcp: src/twinstudio/mcp_protocol.py, the classification and the checks of a request.
-- - History: src/twinstudio/eda_history.py. Codes is what a log entry says of an event, Log the projection to a chain of
--   log entries and its check, Descriptor the file `project.twinstudio.json`, which holds a descriptor or is missing.
-- - Uri: src/twinstudio/uri.py, the addresses of product objects and the test of a scope.
-- - Planner: src/twinstudio/change_planner.py, and in Heights what it reads of src/twinstudio/cad_regeneration.py. The
--   answer of the language model, the arithmetic of floats, the regular expressions and the configuration of the
--   housing studio are arguments.
-- - EdaPlanner: src/twinstudio/eda_operation_planner.py. The routes, the answer of the language model, JSON and the
--   fields that pydantic reads are arguments.
-- - Gtin: src/twinstudio/gtin.py, the GS1 check digit.
-- - Examples: concrete databases and commands on which the theorems are applied.
--
-- Choices: instants are microseconds in UTC as numbers (a datetime that SQLite gives back without its zone
-- is the same number), parameters are named by texts (a patch that names one by a number is refused), and
-- floats are their 64-bit patterns: the event store, the projector and the bus only copy them and compare
-- them with zero, and the arithmetic of the planner is an argument. Texts are ASCII (`lower` maps A to Z;
-- the lower case of the planner's requests is an argument), and error messages are cut before the values
-- that are interpolated into them. Times, identifiers, random texts and the SHA-256 hash are arguments. A
-- snapshot is a value: the handlers of the source mutate one, which nothing else sees before the replay
-- ends; so is a plan. Loops are structural recursion. The one function on fuel is `decimal` (Base/Letters),
-- the decimal digits of a number: it gets one more than the number, which Base/Decimals proves to be
-- enough.
--
-- Not modelled: the check of column lengths, the listing of streams and projects, `object_tree`, the
-- publishing of events (which swallows its errors and leaves the store alone), and the parts of the
-- program outside these files: the HTTP API, the gateways, the chat on EDA files and their audits, the
-- configuration of the housing studio and the writing of CAD files, the text languages, the feature lenses,
-- the evolution engine, the simulations, the CAD services and the command lines. Of the modelled files, what
-- only writes a file (`write_event_stream`, `store_object`), logs, or builds the messages to a language model
-- is left out.
pub mod Base
pub mod Domain
pub mod Permissions
pub mod EventStore
pub mod Projector
pub mod Bus
pub mod Lifecycle
pub mod Auth
pub mod Mcp
pub mod History
pub mod Uri
pub mod Planner
pub mod EdaPlanner
pub mod Gtin
pub mod Examples
