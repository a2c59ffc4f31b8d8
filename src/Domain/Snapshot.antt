-- ===== src/Domain/Snapshot.antt =====
-- `ProjectSnapshot` of src/twinstudio/domain.py, and the pydantic models that it holds.
use twinstudio.Base.{ℕ, String, Option, List}
use twinstudio.Base.Dict.{Dict}
use twinstudio.Base.Json.{Json}
use twinstudio.Domain.Roles.{Role}
use twinstudio.Domain.Stages.{LifecycleStage}
use twinstudio.Domain.Objects.{
  Instant, Scalar, ParameterValue, ObjectNode, ArtifactRecord, Annotation, AnnotationStatus,
}

-- The classes of which the modelled code reads the identifier only.
pub data ModelClass : Type 0 where
  change_plan design_fixation_review evolution_run lifecycle_blueprint dsl_execution : ModelClass
  requirement evidence_claim projection_map selection_map test_plan : ModelClass
  power_model thermal_model failure_mode human_scenario ecommerce_offer : ModelClass

-- An instance of one of them: its identifier (`uri`, `plan_id`, `review_id`, `run_id`,
-- `blueprint_id`, `execution_id` or `claim_id`; empty for the two that have none), and its
-- `model_dump(mode="json")`.
pub record Model : Type 0 where
  pub key : String
  pub dump : Dict Json

-- `LifecycleHistoryEntry` of src/twinstudio/evolution_models.py: the fields that are read, and the dump.
pub record LifecycleHistoryEntry : Type 0 where
  pub blueprint_id : String
  pub to_stage : LifecycleStage
  pub status : String
  pub dump : Dict Json

pub record ProjectSnapshot : Type 0 where
  pub project_id : String
  pub tenant : String
  pub name : String
  pub description : String
  pub revision : String
  pub stream_version : ℕ
  pub lifecycle_stage : LifecycleStage
  pub objects : Dict ObjectNode
  pub artifacts : Dict ArtifactRecord
  pub annotations : Dict Annotation
  pub change_plans : Dict Model
  pub design_fixation_reviews : Dict Model
  pub evolution_runs : Dict (Dict Json)
  pub lifecycle_blueprints : Dict (Dict Json)
  pub lifecycle_history : List (Dict Json)
  pub dsl_programs : Dict (Dict Json)
  pub dsl_executions : Dict (Dict Json)
  pub requirements : Dict Model
  pub claims : Dict Model
  pub memberships : Dict Role
  pub projection_maps : Dict Model
  pub selection_maps : Dict Model
  pub lifecycle_gates : List Json
  pub failure_modes : List Model
  pub human_scenarios : List Model
  pub test_plans : Dict Model
  pub power_model : Option Model
  pub thermal_model : Option Model
  pub ecommerce_offers : List Model
  pub metadata : Dict Json
  pub created_at : Instant
  pub updated_at : Instant

-- pydantic: `validate_*` is `model_validate` of the class, or the check that `validate_assignment` makes
-- when a field is written, and `none` is its `ValidationError`; `dump_*` is
-- `model_dump(mode="json")`.
pub record Pydantic : Type 0 where
  pub validate_object : Json → Option ObjectNode
  pub dump_object : ObjectNode → Dict Json
  pub validate_artifact : Json → Option ArtifactRecord
  pub dump_artifact : ArtifactRecord → Dict Json
  pub validate_annotation : Json → Option Annotation
  pub dump_annotation : Annotation → Dict Json
  pub validate_parameter : Json → Option ParameterValue
  pub validate_history_entry : Json → Option LifecycleHistoryEntry
  pub validate_model : ModelClass → Json → Option Model
  pub validate_snapshot : Dict Json → Option ProjectSnapshot
  pub dump_snapshot : ProjectSnapshot → Dict Json
  pub assign_text : Json → Option String
  pub assign_unit : Json → Option (Option String)
  pub assign_scalar : Json → Option Scalar
  pub assign_annotation_status : Json → Option AnnotationStatus
  -- an `int` field, `datetime` and `str(value)` as JSON
  pub dump_instant : Instant → Json
  pub to_text : Json → String
