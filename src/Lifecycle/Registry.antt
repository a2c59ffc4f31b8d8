-- ===== src/Lifecycle/Registry.antt =====
-- `LifecycleRegistry` of src/twinstudio/lifecycle.py, and the models of src/twinstudio/evolution_models.py that it
-- builds. The catalog, which the program reads from a data file, is an argument.
use twinstudio.Base.{
  String, Bool, false, not, ◌&&◌, ◌||◌, Option, none, some, List, [], ◌∷◌, map, first, any, Result,
  ok, err, ◌>>=◌, ◌>>◌, raise_if, or_raise, value_error, validation_error, attribute_error, ◌==◌,
  if◌then◌else◌,
}
use twinstudio.Base.Text.{replace_character, title}
use twinstudio.Base.Dict.{Dict, get}
use twinstudio.Domain.Roles.{Role, admin, creator}
use twinstudio.Domain.Stages.{
  LifecycleStage, value, of_value, prototype, verification, monitoring, improvement, maintenance,
  recall, upgrade, reuse,
}
use twinstudio.Lifecycle.Kinds.{EvolutionMethod, ChangeOperationKind, ArtifactKind}
use twinstudio.Lifecycle.Guidance.{
  stage_eq, among, purpose_of, stage_methods, allowed_operations, required_artifacts,
  required_tests,
}

pub record LifecycleStageDefinition : Type 0 where
  pub stage : LifecycleStage
  pub name : String
  pub purpose : String
  pub entry_criteria : List String
  pub exit_criteria : List String
  pub required_artifact_kinds : List ArtifactKind
  pub required_test_types : List String
  pub recommended_evolution_methods : List EvolutionMethod
  pub allowed_change_operations : List ChangeOperationKind
  pub approver_roles : List Role
  pub optional : Bool
  pub repeatable : Bool

pub record LifecycleTransition : Type 0 where
  pub from_stage : LifecycleStage
  pub to_stage : LifecycleStage
  pub conditions : List String
  pub required_gate_status : String
  pub approver_roles : List Role

pub record LifecycleBlueprint : Type 0 where
  pub blueprint_id : String
  pub name : String
  pub version : String
  pub stages : List LifecycleStageDefinition
  pub transitions : List LifecycleTransition
  pub current_stage : LifecycleStage
  pub tailored : Bool
  pub notes : List String

pub record LifecycleTemplate : Type 0 where
  pub name : String
  pub stages : List LifecycleStage

-- the fields of the catalog that the registry reads
pub record EvolutionCatalog : Type 0 where
  pub catalog_version : String
  pub lifecycle_templates : Dict LifecycleTemplate

-- `[item.stage for item in self.stages]`
abbrev pub stage_ids : List LifecycleStageDefinition → List LifecycleStage
stage_ids definitions = map (λ d. d.stage) definitions

-- `len(ids) != len(set(ids))`
abbrev pub has_duplicates : List LifecycleStage → Bool
has_duplicates [] = false
has_duplicates (s ∷ stages) = among s stages || has_duplicates stages

-- `LifecycleBlueprint.validate_stage_graph`
unfoldable pub validate_stage_graph : LifecycleBlueprint → Result LifecycleBlueprint
validate_stage_graph b = do
  let ids = stage_ids b.stages
  raise_if (has_duplicates ids) validation_error
  raise_if (not (among b.current_stage ids)) validation_error
  raise_if (any (λ t. not (among t.from_stage ids) || not (among t.to_stage ids)) b.transitions)
      validation_error
  ok b

abbrev pub definition_of : LifecycleStage → LifecycleStageDefinition
definition_of stage = record {
  stage = stage;
  name = title (replace_character "_" " " (value stage));
  purpose = purpose_of stage;
  entry_criteria = "The previous stage has a recorded decision or an approved exception." ∷ [];
  exit_criteria = "Required evidence, risks and decisions for this stage are recorded." ∷ [];
  required_artifact_kinds = required_artifacts stage;
  required_test_types = required_tests stage;
  recommended_evolution_methods = stage_methods stage;
  allowed_change_operations = allowed_operations stage;
  approver_roles = admin ∷ creator ∷ [];
  optional = among stage (recall ∷ upgrade ∷ reuse ∷ []);
  repeatable = among stage (prototype ∷ verification ∷ monitoring ∷ improvement ∷ maintenance ∷ []);
}

abbrev pub transition_between : LifecycleStage → LifecycleStage → LifecycleTransition
transition_between a b = record {
  from_stage = a;
  to_stage = b;
  conditions = "Exit criteria are satisfied or an approved deviation exists." ∷ [];
  required_gate_status = "approved";
  approver_roles = admin ∷ creator ∷ [];
}

-- `for index in range(len(stages) - 1)`: each stage and the next
abbrev pub transitions_along : List LifecycleStage → List LifecycleTransition
transitions_along [] = []
transitions_along (a ∷ []) = []
transitions_along (a ∷ b ∷ stages) = transition_between a b ∷ transitions_along (b ∷ stages)

-- `LifecycleStage(current_stage) if current_stage else stages[0]`, and `stages[0]` where the template
-- does not have the stage
unfoldable pub start_stage :
    LifecycleStage → List LifecycleStage → Option String → Result LifecycleStage
start_stage head stages none = ok head
start_stage head stages (some text) = if text == "" then ok head else (do
  stage ← or_raise (of_value text) (value_error "is not a valid LifecycleStage")
  ok (if among stage stages then stage else head))

-- the arguments of `LifecycleBlueprint(...)`
abbrev pub chain :
    EvolutionCatalog
    → String
    → LifecycleTemplate
    → List LifecycleStage
    → LifecycleStage
    → LifecycleBlueprint
chain catalog template_id template stages current = record {
  blueprint_id = template_id;
  name = template.name;
  version = catalog.catalog_version;
  stages = map definition_of stages;
  transitions = transitions_along stages;
  current_stage = current;
  tailored = false;
  notes =
      "Template generated from the TwinStudio evolution catalog."
      ∷ "Tailor gates, evidence and approvals to product risk and regulation." ∷ [];
}

-- a template's blueprint from its stages
unfoldable pub build :
    EvolutionCatalog
    → String
    → LifecycleTemplate
    → Option String
    → List LifecycleStage
    → Result LifecycleBlueprint
build catalog template_id template current [] = err (value_error "Lifecycle template has no stages")
build catalog template_id template current (head ∷ rest) = do
  stage ← start_stage head (head ∷ rest) current
  validate_stage_graph (chain catalog template_id template (head ∷ rest) stage)

-- `LifecycleRegistry.blueprint`
unfoldable pub blueprint : EvolutionCatalog → String → Option String → Result LifecycleBlueprint
unfolding build
blueprint catalog template_id current = do
  template ←
      or_raise (get template_id catalog.lifecycle_templates)
        (value_error "Unknown lifecycle template")
  build catalog template_id template current template.stages

-- `LifecycleRegistry.transition`. The models are declared with `use_enum_values`, so `current_stage` is a plain text,
-- equal to the member of the enumeration, and the `.value` in the message of the last error is no attribute of it.
unfoldable pub transition : LifecycleBlueprint → String → Result LifecycleTransition
transition b to_stage = do
  target ← or_raise (of_value to_stage) (value_error "is not a valid LifecycleStage")
  or_raise
      (first (λ t. stage_eq t.from_stage b.current_stage && stage_eq t.to_stage target)
        b.transitions)
      attribute_error
