-- ===== src/Projector/Handlers.antt =====
-- The event handlers of src/twinstudio/projector.py and their table. A handler that raises aborts the
-- projection, so what it had written by then is not seen.
use twinstudio.Base.{
  String, not, none, some, List, [], ◌∷◌, ◌++◌, any, select, Result, ok, err, ◌>>=◌, or_raise,
  value_error, validation_error, ◌==◌, if◌then◌else◌,
}
use twinstudio.Base.Text.{lower}
use twinstudio.Base.Dict.{Dict, get, put, pop}
use twinstudio.Base.Json.{Json, str, item, find, discard, as_str, as_list}
use twinstudio.Domain.Roles.{Role}
use twinstudio.Domain.Roles
use twinstudio.Domain.Stages.{LifecycleStage}
use twinstudio.Domain.Stages
use twinstudio.Domain.Objects.{ObjectNode, ArtifactRecord}
use twinstudio.Domain.Snapshot.{
  ProjectSnapshot, Pydantic, Model, ModelClass, LifecycleHistoryEntry, change_plan,
  design_fixation_review, evolution_run, lifecycle_blueprint, dsl_execution, requirement,
  evidence_claim, projection_map, selection_map, test_plan, power_model, thermal_model,
  failure_mode, human_scenario, ecommerce_offer,
}
use twinstudio.Projector.Views.{synchronize}
use twinstudio.Projector.Changes.{list_at}

abbrev pub Handler : Type 0
Handler = ProjectSnapshot → Dict Json → Result ProjectSnapshot

-- `Role(value)` and `LifecycleStage(value)`
abbrev pub role_of : Json → Result Role
role_of (str s) = or_raise (Roles.of_value s) (value_error "is not a valid Role")
role_of _ = err (value_error "is not a valid Role")

abbrev pub stage_of : Json → Result LifecycleStage
stage_of (str s) = or_raise (Stages.of_value s) (value_error "is not a valid LifecycleStage")
stage_of _ = err (value_error "is not a valid LifecycleStage")

unfoldable pub membership_granted : Handler
unfolding lower
membership_granted snapshot payload = do
  raw ← item "role" payload
  role ← role_of raw
  who ← item "email" payload
  email ← as_str who
  ok (record snapshot { memberships = put (lower email) role snapshot.memberships })

unfoldable pub membership_revoked : Handler
unfolding lower
membership_revoked snapshot payload = do
  who ← item "email" payload
  email ← as_str who
  ok (record snapshot { memberships = pop (lower email) snapshot.memberships })

unfoldable pub object_removed : Handler
object_removed snapshot payload = do
  uri ← item "object_uri" payload
  objects ← discard uri snapshot.objects
  ok (record snapshot { objects = objects })

-- `if uri not in uris: uris.append(uri)`
abbrev pub append_new : String → List String → List String
append_new uri uris = if any (λ u. u == uri) uris then uris else uris ++ uri ∷ []

-- the artifact in the list of its object, where it names one that exists
unfoldable pub link : ArtifactRecord → Dict ObjectNode → Dict ObjectNode
link artifact objects = elim artifact.object_uri [
  | none ↦ objects
  | some uri ↦ if uri == "" then objects else elim (get uri objects) [
    | none ↦ objects
    | some node ↦
        put uri (record node { artifact_uris = append_new artifact.uri node.artifact_uris }) objects
  ]
]

module _ (P : Pydantic) where
  unfoldable pub upsert_object : ProjectSnapshot → Json → Result ProjectSnapshot
  unfolding synchronize
  upsert_object snapshot raw = do
    node ← or_raise (P.validate_object raw) validation_error
    ok (record snapshot { objects = put node.uri (synchronize node) snapshot.objects })

  unfoldable pub object_upserted : Handler
  unfolding upsert_object
  object_upserted snapshot payload = do raw ← item "object" payload; upsert_object snapshot raw

  unfoldable pub attach_artifact : ProjectSnapshot → Json → Result ProjectSnapshot
  unfolding link
  attach_artifact snapshot raw = do
    artifact ← or_raise (P.validate_artifact raw) validation_error
    ok (record snapshot {
      artifacts = put artifact.uri artifact snapshot.artifacts;
      objects = link artifact snapshot.objects;
    })

  unfoldable pub artifact_attached : Handler
  unfolding attach_artifact
  artifact_attached snapshot payload = do
    raw ← item "artifact" payload
    attach_artifact snapshot raw

  abbrev pub each :
      (ProjectSnapshot → Json → Result ProjectSnapshot)
      → ProjectSnapshot
      → List Json
      → Result ProjectSnapshot
  each step snapshot [] = ok snapshot
  each step snapshot (x ∷ xs) = step snapshot x >>= λ s. each step s xs

  unfoldable pub generation_completed : Handler
  unfolding attach_artifact upsert_object as_list
  generation_completed snapshot payload = do
    artifacts ← list_at P "artifacts" payload
    attached ← each attach_artifact snapshot artifacts
    objects ← list_at P "objects" payload
    each upsert_object attached objects

  unfoldable pub annotation_created : Handler
  annotation_created snapshot payload = do
    raw ← item "annotation" payload
    annotation ← or_raise (P.validate_annotation raw) validation_error
    ok (record snapshot { annotations = put annotation.uri annotation snapshot.annotations })

  -- The annotation is changed where it stands, under the key that found it.
  unfoldable pub annotation_status_changed : Handler
  annotation_status_changed snapshot payload = do
    uri ← item "annotation_uri" payload
    found ← find uri snapshot.annotations
    elim found [
      | none ↦ ok snapshot
      | some annotation ↦ do
        key ← as_str uri
        raw ← item "status" payload
        status ← or_raise (P.assign_annotation_status raw) validation_error
        ok (record snapshot {
          annotations = put key (record annotation { status = status }) snapshot.annotations;
        })
    ]

  -- `Class.model_validate(data[field])`
  abbrev pub model_at : ModelClass → String → Dict Json → Result Model
  model_at cls field payload = do
    raw ← item field payload
    or_raise (P.validate_model cls raw) validation_error

  unfoldable pub change_plan_created : Handler
  change_plan_created snapshot payload = do
    plan ← model_at change_plan "plan" payload
    ok (record snapshot { change_plans = put plan.key plan snapshot.change_plans })

  unfoldable pub design_fixation_review_recorded : Handler
  design_fixation_review_recorded snapshot payload = do
    review ← model_at design_fixation_review "review" payload
    ok (record snapshot {
      design_fixation_reviews = put review.key review snapshot.design_fixation_reviews;
    })

  unfoldable pub evolution_run_recorded : Handler
  evolution_run_recorded snapshot payload = do
    run ← model_at evolution_run "run" payload
    ok (record snapshot { evolution_runs = put run.key run.dump snapshot.evolution_runs })

  unfoldable pub lifecycle_blueprint_upserted : Handler
  lifecycle_blueprint_upserted snapshot payload = do
    blueprint ← model_at lifecycle_blueprint "blueprint" payload
    ok (record snapshot {
      lifecycle_blueprints = put blueprint.key blueprint.dump snapshot.lifecycle_blueprints;
    })

  -- the blueprint of an approved transition, whose stage moves where it is recorded and not empty
  unfoldable pub advance_blueprint : LifecycleHistoryEntry → Dict (Dict Json) → Dict (Dict Json)
  advance_blueprint transition blueprints = elim (get transition.blueprint_id blueprints) [
    | none ↦ blueprints
    | some [] ↦ blueprints
    | some (f ∷ fs) ↦
        put transition.blueprint_id
          (put "current_stage" (str (Stages.value transition.to_stage)) (f ∷ fs)) blueprints
  ]

  unfoldable pub lifecycle_transition_recorded : Handler
  unfolding advance_blueprint
  lifecycle_transition_recorded snapshot payload = do
    raw ← item "transition" payload
    transition ← or_raise (P.validate_history_entry raw) validation_error
    let history = snapshot.lifecycle_history ++ transition.dump ∷ []
    if transition.status == "approved"
        then ok (record snapshot {
          lifecycle_history = history;
          lifecycle_stage = transition.to_stage;
          lifecycle_blueprints = advance_blueprint transition snapshot.lifecycle_blueprints;
        })
        else ok (record snapshot { lifecycle_history = history })

  unfoldable pub dsl_execution_recorded : Handler
  dsl_execution_recorded snapshot payload = do
    execution ← model_at dsl_execution "execution" payload
    ok (record snapshot {
      dsl_executions = put execution.key execution.dump snapshot.dsl_executions;
      dsl_programs = put execution.key execution.dump snapshot.dsl_programs;
    })

  unfoldable pub requirement_upserted : Handler
  requirement_upserted snapshot payload = do
    m ← model_at requirement "requirement" payload
    ok (record snapshot { requirements = put m.key m snapshot.requirements })

  unfoldable pub evidence_claimed : Handler
  evidence_claimed snapshot payload = do
    m ← model_at evidence_claim "claim" payload
    ok (record snapshot { claims = put m.key m snapshot.claims })

  unfoldable pub projection_map_upserted : Handler
  projection_map_upserted snapshot payload = do
    m ← model_at projection_map "projection_map" payload
    ok (record snapshot { projection_maps = put m.key m snapshot.projection_maps })

  unfoldable pub selection_map_resolved : Handler
  selection_map_resolved snapshot payload = do
    m ← model_at selection_map "selection_map" payload
    ok (record snapshot { selection_maps = put m.key m snapshot.selection_maps })

  unfoldable pub test_plan_upserted : Handler
  test_plan_upserted snapshot payload = do
    m ← model_at test_plan "test_plan" payload
    ok (record snapshot { test_plans = put m.key m snapshot.test_plans })

  unfoldable pub lifecycle_stage_changed : Handler
  lifecycle_stage_changed snapshot payload = do
    raw ← item "stage" payload
    stage ← stage_of raw
    ok (record snapshot { lifecycle_stage = stage })

  unfoldable pub power_model_set : Handler
  power_model_set snapshot payload = do
    m ← model_at power_model "power_model" payload
    ok (record snapshot { power_model = some m })

  unfoldable pub thermal_model_set : Handler
  thermal_model_set snapshot payload = do
    m ← model_at thermal_model "thermal_model" payload
    ok (record snapshot { thermal_model = some m })

  -- `[item for item in items if item.uri != m.uri]`, then `append(m)`
  abbrev pub replace_model : Model → List Model → List Model
  replace_model m models = select (λ x. not (x.key == m.key)) models ++ m ∷ []

  unfoldable pub failure_mode_added : Handler
  failure_mode_added snapshot payload = do
    m ← model_at failure_mode "failure_mode" payload
    ok (record snapshot { failure_modes = replace_model m snapshot.failure_modes })

  unfoldable pub human_scenario_upserted : Handler
  human_scenario_upserted snapshot payload = do
    m ← model_at human_scenario "scenario" payload
    ok (record snapshot { human_scenarios = replace_model m snapshot.human_scenarios })

  unfoldable pub ecommerce_offer_upserted : Handler
  ecommerce_offer_upserted snapshot payload = do
    m ← model_at ecommerce_offer "offer" payload
    ok (record snapshot { ecommerce_offers = replace_model m snapshot.ecommerce_offers })
