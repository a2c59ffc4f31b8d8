-- ===== src/Planner/Drafts.antt =====
-- What `_local_plan` collects, and the operations on named parameters.
use Prim.Native.String.{◌++◌}
use twinstudio.Base.{ℕ, String, true, none, some, List, [], ◌∷◌, length, if◌then◌else◌}
use mathlib.Core.List
use twinstudio.Base.Dict.{Dict}
use twinstudio.Base.Json.{Json, Float, str, float}
use twinstudio.Domain.Snapshot.{ProjectSnapshot}
use twinstudio.Lifecycle.Kinds.{ChangeOperationKind, set_parameter}
use twinstudio.Planner.{ChangeOperation, ImpactItem, RegionSelection, Tools}
use twinstudio.Planner.Readings.{
  ParameterChange, relative_parameter_change, absolute_parameter_change,
}

-- What the planner collects; the identifiers of operations are given by their places.
pub record Draft : Type 0 where
  pub operations : List ChangeOperation
  pub assumptions : List String
  pub questions : List String
  pub impact : List ImpactItem

-- The request, in lower case too, and the identifiers that `uuid4` gives.
pub record Request : Type 0 where
  pub tools : Tools
  pub ids : ℕ → String
  pub prompt : String
  pub lowered : String
  pub target : String
  pub selection : RegionSelection
  pub project : ProjectSnapshot

abbrev pub add_operation : ChangeOperation → Draft → Draft
add_operation operation draft = record draft {
  operations = List.◌++◌ draft.operations (operation ∷ []);
}

abbrev pub add_assumption : String → Draft → Draft
add_assumption assumption draft = record draft {
  assumptions = List.◌++◌ draft.assumptions (assumption ∷ []);
}

abbrev pub add_question : String → Draft → Draft
add_question question draft = record draft { questions = List.◌++◌ draft.questions (question ∷ []) }

abbrev pub add_impact : String → String → Request → Draft → Draft
add_impact impact summary request draft = record draft {
  impact =
      List.◌++◌ draft.impact
        (record { uri = request.target; impact = impact; summary = summary } ∷ []);
}

-- `ChangeOperation(...)` on the target, with the next identifier
abbrev pub operation_on :
    Request
    → Draft
    → ChangeOperationKind
    → Dict Json
    → Dict Json
    → String
    → Float
    → List String
    → ChangeOperation
operation_on request draft kind selector arguments rationale confidence steps = record {
  operation_id = request.ids (length draft.operations);
  kind = kind;
  target_uri = request.target;
  selector = selector;
  arguments = arguments;
  rationale = rationale;
  confidence = confidence;
  reversible = true;
  validation_steps = steps;
}

abbrev pub change_impact : ParameterChange → Request → Draft → Draft
change_impact change request =
    add_impact "direct"
      ("Parameter "
        ++ change.parameter
        ++ " changes from "
        ++ request.tools.general change.previous_value
        ++ " to "
        ++ request.tools.general change.new_value
        ++ " mm.")
      request

abbrev pub change_arguments : ParameterChange → Dict Json
change_arguments change =
    ("parameter", str change.parameter)
    ∷ ("value", float change.new_value)
    ∷ ("unit", str "mm")
    ∷ []

-- 0x3feeb851eb851eb8 is 0.96
abbrev pub add_relative : ParameterChange → Request → Draft → Draft
add_relative change request draft =
    let general = request.tools.general in
    let sign = if request.tools.is_less 0 change.delta then "+" else "-" in
    change_impact change request (
      add_operation
        (operation_on request draft set_parameter
          (("parameter", str change.parameter)
            ∷ ("scope", str "selected_object")
            ∷ ("adjustment", str "relative")
            ∷ [])
          (change_arguments change)
          ("Explicit relative change detected: "
            ++ change.parameter
            ++ " "
            ++ general change.previous_value
            ++ " mm "
            ++ sign
            ++ " "
            ++ general (request.tools.absolute change.delta)
            ++ " mm = "
            ++ general change.new_value
            ++ " mm.")
          0x3feeb851eb851eb8
          ("Verify the resulting dimension remains positive and compatible with adjacent features."
            ∷ "Regenerate 2D drawings and 3D geometry before manufacturing." ∷ []))
        draft)

-- 0x3fef0a3d70a3d70a is 0.97
abbrev pub add_absolute : ParameterChange → Request → Draft → Draft
add_absolute change request draft =
    let general = request.tools.general in
    change_impact change request (
      add_operation
        (operation_on request draft set_parameter
          (("parameter", str change.parameter)
            ∷ ("scope", str "selected_object")
            ∷ ("adjustment", str "absolute")
            ∷ [])
          (change_arguments change)
          ("Explicit target value detected: "
            ++ change.parameter
            ++ " changes from "
            ++ general change.previous_value
            ++ " mm to "
            ++ general change.new_value
            ++ " mm.")
          0x3fef0a3d70a3d70a
          ("Verify the target dimension remains compatible with adjacent features."
            ∷ "Regenerate 2D drawings and 3D geometry before manufacturing." ∷ []))
        draft)

-- a parameter that the request names, by how much or to what value
unfoldable pub plan_parameter : Request → Draft → Draft
unfolding relative_parameter_change absolute_parameter_change
plan_parameter request draft =
    elim (relative_parameter_change request.tools request.lowered request.target request.project) [
      | some change ↦ add_relative change request draft
      | none ↦
          elim (absolute_parameter_change request.tools request.lowered request.target
            request.project) [ some change ↦ add_absolute change request draft | none ↦ draft ]
    ]
