-- ===== src/Planner/Plans.antt =====
-- `ChangePlanner.plan`: the plan of a language model or, without one or when it fails, the local plan; with the
-- operations that a lower lid needs, and the check that no operation leaves the selected scope.
use Prim.Native.String.{◌++◌}
use twinstudio.Base.{
  ℕ, String, true, not, ◌+◌, List, [], ◌∷◌, is_empty, Result, ok, err, ◌>>=◌, ◌>>◌, raise_if,
  value_error, index_error, ◌==◌, if◌then◌else◌,
}
use twinstudio.Base.Dict.{Dict}
use twinstudio.Base.Json.{Json, Float}
use twinstudio.Domain.Snapshot.{ProjectSnapshot}
use twinstudio.Lifecycle.Kinds.{ChangeOperationKind}
use twinstudio.Uri.{UrlLibrary, is_within_scope}
use twinstudio.Planner.{ChangeOperation, ImpactItem, ChangePlan, RegionSelection, Tools}
use twinstudio.Planner.Drafts.{Request}
use twinstudio.Planner.Local.{Stamp, draft_of, plan_of}
use twinstudio.Planner.Dependencies.{with_cad_dependencies}

-- the loop of `validate_scope`
abbrev pub check_targets : UrlLibrary → List String → List ChangeOperation → Result (Unit {0})
check_targets urls scopes [] = ok tt
check_targets urls scopes (operation ∷ operations) = do
  inside ← is_within_scope urls operation.target_uri scopes true
  raise_if (not inside) (value_error "Operation targets outside selected scope")
  check_targets urls scopes operations

unfoldable pub validate_scope : UrlLibrary → ChangePlan → Result (Unit {0})
unfolding is_within_scope
validate_scope urls plan = do
  raise_if (is_empty plan.selected_scope_uris)
      (value_error "A change plan requires selected scope URIs")
  check_targets urls plan.selected_scope_uris plan.operations

-- `selection.target_object_uris[0]`
abbrev pub first_target : List String → Result String
first_target [] = err index_error
first_target (uri ∷ uris) = ok uri

-- The arguments of `plan`, with the identifiers and times that the models fill.
pub record Job : Type 0 where
  pub ids : ℕ → String
  pub stamp : Stamp
  pub prompt : String
  pub selection : RegionSelection
  pub project : ProjectSnapshot
  pub actor : String

abbrev pub request_of : Tools → Job → String → Request
request_of tools job target = record {
  tools = tools;
  ids = job.ids;
  prompt = job.prompt;
  lowered = tools.lower_case job.prompt;
  target = target;
  selection = job.selection;
  project = job.project;
}

abbrev pub drafted : Tools → Job → String → ChangePlan
unfolding draft_of
drafted tools job target =
    let request = request_of tools job target in
    plan_of request job.stamp job.actor (draft_of request)

unfoldable pub local_plan : Tools → UrlLibrary → Job → Result ChangePlan
unfolding validate_scope draft_of
local_plan tools urls job = do
  target ← first_target job.selection.target_object_uris
  validate_scope urls (drafted tools job target)
  ok (drafted tools job target)

-- `ChangeOperationProposal` and `ChangePlanProposal`: what a language model may answer
pub record ChangeOperationProposal : Type 0 where
  pub kind : ChangeOperationKind
  pub target_uri : String
  pub selector : Dict Json
  pub arguments : Dict Json
  pub rationale : String
  pub confidence : Float
  pub validation_steps : List String

pub record ChangePlanProposal : Type 0 where
  pub operations : List ChangeOperationProposal
  pub impact : List ImpactItem
  pub assumptions : List String
  pub unresolved_questions : List String

-- What the call of the language model and the reading of its answer come to: a proposal, an answer that is
-- none, or an error before there is an answer.
pub data Answer : Type 0 where
  proposed : ChangePlanProposal → Answer
  invalid : Answer
  failed : Answer

abbrev pub elevated : (ℕ → String) → ℕ → List ChangeOperationProposal → List ChangeOperation
elevated ids n [] = []
elevated ids n (p ∷ ps) =
    record {
      operation_id = ids n;
      kind = p.kind;
      target_uri = p.target_uri;
      selector = p.selector;
      arguments = p.arguments;
      rationale = p.rationale;
      confidence = p.confidence;
      reversible = true;
      validation_steps = p.validation_steps;
    }
    ∷ elevated ids (n + 1) ps

abbrev pub litellm_plan : String → Job → ChangePlanProposal → ChangePlan
litellm_plan model job proposal = record {
  plan_id = job.stamp.plan_id;
  project_id = job.project.project_id;
  base_revision = job.project.revision;
  prompt = job.prompt;
  selection_uri = job.selection.uri;
  selected_scope_uris = job.selection.target_object_uris;
  operations = elevated job.ids 0 proposal.operations;
  impact = proposal.impact;
  assumptions = proposal.assumptions;
  unresolved_questions = proposal.unresolved_questions;
  requires_approval = true;
  planner = "litellm:" ++ model;
  created_by = job.actor;
  created_at = job.stamp.now;
}

pub record PlannerResult : Type 0 where
  pub plan : ChangePlan
  pub mode : String
  pub message : String

abbrev pub planned_locally : Tools → UrlLibrary → Job → String → String → Result PlannerResult
planned_locally tools urls job mode message = do
  local ← local_plan tools urls job
  plan ← with_cad_dependencies tools job.ids job.project local
  ok record { plan = plan; mode = mode; message = message }

abbrev pub planned_by_model :
    Tools → UrlLibrary → Job → String → ChangePlanProposal → Result ChangePlan
planned_by_model tools urls job model proposal = do
  plan ← with_cad_dependencies tools job.ids job.project (litellm_plan model job proposal)
  validate_scope urls plan
  ok plan

abbrev pub fallback : Tools → UrlLibrary → Job → Result PlannerResult
fallback tools urls job =
    planned_locally tools urls job "local-fallback" "LiteLLM failed; local plan used"

-- `plan` with a language model
abbrev pub answered : Tools → UrlLibrary → Job → String → Answer → Result PlannerResult
answered tools urls job model invalid =
    err (value_error "LLM response does not conform to ChangePlanProposal")
answered tools urls job model failed = fallback tools urls job
answered tools urls job model (proposed proposal) =
    elim (planned_by_model tools urls job model proposal) [
      | err e ↦ fallback tools urls job
      | ok plan ↦ ok record {
        plan = plan;
        mode = "litellm";
        message = "Structured plan produced by LiteLLM and scope-validated.";
      }
    ]

unfoldable pub plan : Tools → UrlLibrary → Job → String → Answer → Result PlannerResult
unfolding local_plan with_cad_dependencies validate_scope
plan tools urls job model answer =
    if model == ""
    then planned_locally tools urls job "local"
        "Deterministic local planner used because LITELLM_MODEL is empty."
    else answered tools urls job model answer
