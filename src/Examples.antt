-- ===== src/Examples.antt =====
-- Concrete data, on which the theorems are applied in the modules below.
pub mod Streams
pub mod Invitations
pub mod Commands
pub mod Projections
pub mod Lifecycles
pub mod Accesses
pub mod Requests
pub mod Canonical
pub mod Histories
pub mod Descriptors
pub mod Addresses
pub mod Plans
pub mod Proposals
pub mod Numbers
use twinstudio.Base.{ℕ, String, Option, none, some, List, [], ◌∷◌}
use twinstudio.Base.Dict.{Dict}
use twinstudio.Base.Json.{Json, str, int, pos}
use twinstudio.Domain.Roles.{reader, editor, admin, creator}
use twinstudio.Domain.Stages.{concept}
use twinstudio.Domain.Objects.{text, «open»}
use twinstudio.Domain.Envelopes.{EventEnvelope, CommandEnvelope}
use twinstudio.Domain.Snapshot.{ProjectSnapshot, Pydantic}
use twinstudio.EventStore.Tables.{
  Database, Invitation, InvitationStatus, pending_approval, approved,
}
use twinstudio.Bus.Execute.{Fresh}

abbrev pub event_at : String → ℕ → String → Dict Json → EventEnvelope
event_at id version event_type payload = record {
  event_id = id;
  stream_id = "lamp";
  stream_version = version;
  event_type = event_type;
  payload = payload;
  actor = "ann@example.org";
  correlation_id = none;
  causation_id = none;
  occurred_at = 1000;
  schema_version = 1;
}

abbrev pub creation : EventEnvelope
creation = event_at "e1" 1 "ProjectCreated" (("project_id", str "lamp") ∷ [])

abbrev pub staged : EventEnvelope
staged = event_at "e2" 0 "LifecycleStageChanged" (("stage", str "prototype") ∷ [])

abbrev pub planned : EventEnvelope
planned = event_at "e3" 0 "EdaChangePlanned" []

abbrev pub invitation : InvitationStatus → Option String → Invitation
invitation status access = record {
  invitation_id = "inv_1";
  project_id = "lamp";
  requested_email = "eve@example.org";
  requested_role = editor;
  requested_by = "bob@example.org";
  approver_email = "ann@example.org";
  message = "";
  status = status;
  approval_token_hash = "approval";
  access_token_hash = access;
  created_at = 1000;
  expires_at = 2000;
  approved_at = none;
  accepted_at = none;
}

abbrev pub with_invitations : List Invitation → Database
with_invitations rows = record {
  events = creation ∷ [];
  users = [];
  api_tokens = [];
  sessions = [];
  invitations = rows;
}

abbrev pub database : Database
database = with_invitations []

abbrev pub pending_database : Database
pending_database = with_invitations (invitation pending_approval none ∷ [])

abbrev pub approved_database : Database
approved_database = with_invitations (invitation approved (some "access") ∷ [])

-- the hash of the examples: the text itself
abbrev pub plain : String → String
plain token = token

abbrev pub lamp : ProjectSnapshot
lamp = record {
  project_id = "lamp";
  tenant = "default";
  name = "Lamp";
  description = "";
  revision = "A";
  stream_version = 0;
  lifecycle_stage = concept;
  objects = [];
  artifacts = [];
  annotations = [];
  change_plans = [];
  design_fixation_reviews = [];
  evolution_runs = [];
  lifecycle_blueprints = [];
  lifecycle_history = [];
  dsl_programs = [];
  dsl_executions = [];
  requirements = [];
  claims = [];
  memberships =
      ("ann@example.org", creator) ∷ ("bob@example.org", reader) ∷ ("eve@example.org", editor) ∷ [];
  projection_maps = [];
  selection_maps = [];
  lifecycle_gates = [];
  failure_modes = [];
  human_scenarios = [];
  test_plans = [];
  power_model = none;
  thermal_model = none;
  ecommerce_offers = [];
  metadata = [];
  created_at = 1000;
  updated_at = 1000;
}

abbrev as_text : Json → Option String
as_text (str s) = some s
as_text _ = none

-- pydantic on the payloads of the examples: a creation gives the lamp, texts are texts, and every
-- other value is refused
abbrev pub strict : Pydantic
strict = record {
  validate_object = λ j. none;
  dump_object = λ x. [];
  validate_artifact = λ j. none;
  dump_artifact = λ x. [];
  validate_annotation = λ j. none;
  dump_annotation = λ x. [];
  validate_parameter = λ j. none;
  validate_history_entry = λ j. none;
  validate_model = λ cls j. none;
  validate_snapshot = λ d. some lamp;
  dump_snapshot = λ s. ("project_id", str s.project_id) ∷ [];
  assign_text = as_text;
  assign_unit = λ j. none;
  assign_scalar = λ j. none;
  assign_annotation_status = λ j. none;
  dump_instant = λ at. int (pos at);
  to_text = λ j. "plan";
}

abbrev pub fresh : Fresh
fresh = record { event_id = "e9"; occurred_at = 3000; issued_at = 3000 }

abbrev pub later : Fresh
later = record { event_id = "e10"; occurred_at = 4000; issued_at = 4000 }

abbrev pub command : String → String → Option ℕ → Dict Json → CommandEnvelope
command command_type actor expected payload = record {
  command_id = "c1";
  command_type = command_type;
  project_id = "lamp";
  expected_version = expected;
  payload = payload;
  actor = actor;
  correlation_id = none;
  causation_id = none;
  issued_at = 2500;
}

abbrev pub staging : CommandEnvelope
staging = command "lifecycle.set" "Ann@Example.org" (some 1) (("stage", str "prototype") ∷ [])
