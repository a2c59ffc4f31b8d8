-- ===== src/Bus/Execute.antt =====
-- `QueryService.project` and `CommandBus.execute` of src/twinstudio/bus.py. Publishing follows the append
-- and neither changes the store nor raises (mqtt_bus.py swallows its errors), so it is not here.
pub mod Effects
pub mod Access
pub mod Refusals
pub mod Reads
pub mod Poison
pub mod Coverage
use twinstudio.Base.{
  ℕ, String, Bool, true, false, not, Option, none, some, List, [], ◌∷◌, Result, ok, err, ◌>>=◌,
  ◌>>◌, raise_if, or_raise, command_rejected, validation_error, value_error, eqb, ◌==◌,
  if◌then◌else◌,
}
use twinstudio.Base.Text.{lower}
use twinstudio.Base.Dict.{Dict, get, put, set_default}
use twinstudio.Base.Json.{Json, str, obj, item, of_fields, field, end}
use twinstudio.Base.Exec
use twinstudio.Base.Exec.{Exec}
use twinstudio.Domain.Roles.{Role, creator}
use twinstudio.Domain.Roles
use twinstudio.Domain.Objects.{Instant}
use twinstudio.Domain.Envelopes.{EventEnvelope, CommandEnvelope}
use twinstudio.Domain.Snapshot.{ProjectSnapshot, Pydantic}
use twinstudio.Permissions.{require_permission}
use twinstudio.EventStore.Tables.{Database}
use twinstudio.EventStore.Events.{current_version, load, append}
use twinstudio.Projector.Replay.{project_from_events}
use twinstudio.Bus.Cases.{Prepared}
use twinstudio.Bus.Table.{cases}

-- What `uuid4` and the clock give to one call.
pub record Fresh : Type 0 where
  pub event_id : String
  pub occurred_at : Instant
  pub issued_at : Instant

-- `a or b` on texts
abbrev pub or_else : Option String → String → String
or_else none b = b
or_else (some a) b = if a == "" then b else a

-- `CommandBus._event`
abbrev pub event_of : Fresh → CommandEnvelope → String → Dict Json → EventEnvelope
event_of fresh command event_type payload = record {
  event_id = fresh.event_id;
  stream_id = command.project_id;
  stream_version = 0;
  event_type = event_type;
  payload = payload;
  actor = command.actor;
  correlation_id = some (or_else command.correlation_id command.command_id);
  causation_id = some (or_else command.causation_id command.command_id);
  occurred_at = fresh.occurred_at;
  schema_version = 1;
}

module _ (P : Pydantic) where
  -- `QueryService.project`
  unfoldable pub project : String → Database → Result ProjectSnapshot
  project project_id db = project_from_events P (load project_id 0 db)

  -- the data of `_create_project`, with the defaults of the command
  abbrev pub with_defaults : CommandEnvelope → Dict Json
  with_defaults command =
      let founder = obj (field (lower command.actor) (str (Roles.value creator)) end) in
      set_default "memberships" founder (
        set_default "name" (str command.project_id) (
          set_default "tenant" (str "default")
            (set_default "project_id" (str command.project_id) command.payload)))

  -- `ProjectSnapshot.model_validate(data).model_dump(mode="json")`
  abbrev pub snapshot_dump : Dict Json → Result (Dict Json)
  snapshot_dump payload = do
    snapshot ← or_raise (P.validate_snapshot payload) validation_error
    ok (P.dump_snapshot snapshot)

  -- `CommandBus._create_project`
  unfoldable pub create_project : Fresh → CommandEnvelope → Database → Result (List EventEnvelope)
  create_project fresh command db =
      if eqb (current_version command.project_id db) 0
      then (do
        dump ← snapshot_dump (with_defaults command)
        ok (event_of fresh command "ProjectCreated" dump ∷ []))
      else err (command_rejected "Project already exists")

  -- `ChangeExecutionAuthority(...).model_dump(mode="json")`
  abbrev pub authority : Fresh → CommandEnvelope → Role → String → Json
  authority fresh command role plan_id = obj (
      of_fields (
        ("schema_version", str "twinstudio.change-authority/v1")
        ∷ ("actor", str command.actor)
        ∷ ("role", str (Roles.value role))
        ∷ ("permission", str "change.apply")
        ∷ ("project_id", str command.project_id)
        ∷ ("plan_id", str plan_id)
        ∷ ("decision", str "authorized")
        ∷ ("authorization_source", str "project_membership")
        ∷ ("issued_at", P.dump_instant fresh.issued_at)
        ∷ []))

  -- the receipt that a `change.apply` gets once its actor was found to be allowed
  unfoldable pub with_authority :
      Fresh → CommandEnvelope → Option Role → Dict Json → Result (Dict Json)
  with_authority fresh command none payload = err (value_error "None is not a valid Role")
  with_authority fresh command (some role) payload = do
    raw ← item "plan_id" command.payload
    ok (put "authority" (authority fresh command role (P.to_text raw)) payload)

  -- the `match` on the command's type
  unfoldable pub prepare : CommandEnvelope → ProjectSnapshot → Result Prepared
  prepare command snapshot = do
    case ← or_raise (get command.command_type (cases P)) (command_rejected "Unknown command type")
    case command snapshot

  -- what follows the `match`: the permission, the receipt of a `change.apply`, and the event
  unfoldable pub authorized :
      Fresh → CommandEnvelope → Option Role → Prepared → Result (List EventEnvelope)
  unfolding with_authority
  authorized fresh command role p = do
    require_permission role p.permission
    payload ←
        if command.command_type == "change.apply"
        then with_authority fresh command role p.payload
        else ok p.payload
    ok (event_of fresh command p.event_type payload ∷ [])

  -- `CommandBus._handle_existing`
  unfoldable pub handle_existing :
      Fresh → CommandEnvelope → ProjectSnapshot → Option Role → Result (List EventEnvelope)
  unfolding prepare authorized
  handle_existing fresh command snapshot role =
      prepare command snapshot >>= authorized fresh command role

  -- the events that a command asks for
  unfoldable pub decide : Fresh → CommandEnvelope → Database → Result (List EventEnvelope)
  unfolding create_project project handle_existing lower
  decide fresh command db =
      if command.command_type == "project.create" then create_project fresh command db else (do
        snapshot ← project command.project_id db
        handle_existing fresh command snapshot (get (lower command.actor) snapshot.memberships))

  -- `CommandBus.execute`
  unfoldable pub execute : Fresh → CommandEnvelope → Exec Database (List EventEnvelope)
  unfolding decide
  execute fresh command =
      Exec.◌>>=◌ (λ db. (decide fresh command db, db))
        (append command.project_id command.expected_version)
