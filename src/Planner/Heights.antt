-- ===== src/Planner/Heights.antt =====
-- The heights and the boss of a housing, as src/twinstudio/cad_regeneration.py reads them of a project.
use twinstudio.Base.{
  String, Bool, not, ◌&&◌, ◌||◌, Option, none, some, [], ◌∷◌, first, Result, ok, err, ◌>>=◌,
  value_error, validation_error, ◌==◌, if◌then◌else◌,
}
use twinstudio.Base.Text.{ends_with}
use twinstudio.Base.Dict.{Dict, get}
use twinstudio.Base.Json.{Json, Float, int, float, obj, fields}
use twinstudio.Domain.Objects.{Scalar, text, integer, decimal, flag, ObjectNode}
use twinstudio.Domain.Snapshot.{ProjectSnapshot}
use twinstudio.Planner.{Tools, Housing}

abbrev pub base_suffix : String
base_suffix = "/part/base"

abbrev pub lid_suffix : String
lid_suffix = "/part/lid"

abbrev pub auxiliary_boss_top_parameter : String
auxiliary_boss_top_parameter = "auxiliary_boss_top_z"

-- `_part`, where there is one
abbrev pub part_of : String → ProjectSnapshot → Option ObjectNode
unfolding ends_with
part_of suffix project = elim (first (λ entry. ends_with suffix entry.0) project.objects) [
  | none ↦ none
  | some entry ↦ some entry.1
]

-- a number that is no truth value
abbrev pub scalar_number : Tools → Scalar → Option Float
scalar_number tools (integer i) = some (tools.of_int i)
scalar_number tools (decimal x) = some x
scalar_number tools (text t) = none
scalar_number tools (flag b) = none

abbrev pub parameter_number : Tools → ObjectNode → String → Option Float
parameter_number tools node parameter = elim (get parameter node.parameters) [
  | none ↦ none
  | some p ↦ scalar_number tools p.value
]

abbrev pub cad_dimensions : ObjectNode → Dict Json
cad_dimensions node = elim (get "cad_dimensions" node.metadata) [
  | some (obj fs) ↦ fields fs
  | _ ↦ []
]

abbrev pub finite_number : Tools → Option Json → Option Float
finite_number tools (some (int i)) = some (tools.of_int i)
finite_number tools (some (float x)) = if tools.is_finite x then some x else none
finite_number tools _ = none

-- `_cad_dimensions(lid) or _cad_dimensions(base)`
abbrev pub stored_dimensions : ObjectNode → ObjectNode → Dict Json
stored_dimensions base lid = elim (cad_dimensions lid) [
  | [] ↦ cad_dimensions base
  | d ∷ ds ↦ d ∷ ds
]

-- 0x3e112e0be826d695 is 1e-9
abbrev pub is_stale_total : Tools → Float → Float → Bool
is_stale_total tools stored current =
    tools.is_less 0x3e112e0be826d695 (tools.absolute (tools.subtract stored current))

unfoldable pub generated_lid_height : Tools → ObjectNode → ObjectNode → Float → Option Float
generated_lid_height tools base lid source_total =
    let stored = stored_dimensions base lid in
    elim (finite_number tools (get "lid_height_mm" stored)) [
      | none ↦ none
      | some lid_height ↦ elim (finite_number tools (get "source_total_height_mm" stored)) [
        | none ↦ none
        | some total ↦ if is_stale_total tools total source_total then none else some lid_height
      ]
    ]

-- the height of a lid whose total height is known
abbrev pub lid_height_of : Tools → ObjectNode → ObjectNode → Float → Option Float
unfolding generated_lid_height
lid_height_of tools base node total = elim (generated_lid_height tools base node total) [
  | some height ↦ some height
  | none ↦ elim (parameter_number tools base "height") [
    | none ↦ none
    | some base_height ↦
        if tools.at_most total base_height then none else some (tools.subtract total base_height)
  ]
]

abbrev pub derived_lid_height : Tools → ProjectSnapshot → ObjectNode → Option Float
unfolding ends_with generated_lid_height
derived_lid_height tools project node = elim (part_of base_suffix project) [
  | none ↦ none
  | some base ↦ elim (parameter_number tools node "total_height") [
    | none ↦ none
    | some total ↦ lid_height_of tools base node total
  ]
]

unfoldable pub physical_component_height : Tools → ProjectSnapshot → String → Option Float
unfolding ends_with generated_lid_height
physical_component_height tools project uri = elim (get uri project.objects) [
  | none ↦ none
  | some node ↦ elim (parameter_number tools node "height") [
    | some height ↦ some height
    | none ↦ if ends_with lid_suffix uri then derived_lid_height tools project node else none
  ]
]

-- `except ValueError: return None`
abbrev pub unless_value_error {ℓ} : {A : Type ℓ} → Result A → Result (Option A)
unless_value_error (ok x) = ok (some x)
unless_value_error (err (value_error m)) = ok none
unless_value_error (err validation_error) = ok none
unless_value_error (err e) = err e

-- the boss of the lid as it is stored, or else of the configuration
abbrev pub boss_top_of : Tools → ProjectSnapshot → ObjectNode → Result (Option Float)
boss_top_of tools project node = elim (parameter_number tools node auxiliary_boss_top_parameter) [
  | some x ↦ ok (some x)
  | none ↦ unless_value_error (tools.housing_config project >>= λ config. ok config.boss_top)
]

unfoldable pub physical_component_parameter :
    Tools → ProjectSnapshot → String → String → Result (Option Float)
unfolding physical_component_height ends_with
physical_component_parameter tools project uri parameter =
    if parameter == "height"
    then ok (physical_component_height tools project uri)
    else if not (parameter == auxiliary_boss_top_parameter) || not (ends_with lid_suffix uri)
    then ok none
    else elim (get uri project.objects) [
      | none ↦ ok none
      | some node ↦ boss_top_of tools project node
    ]

-- what `lid_height_dependency` returns
pub record Dependency : Type 0 where
  pub previous_value : Float
  pub target_value : Float
  pub roof_embedding : Float

-- how deep the boss stands in the roof
abbrev pub embedding_of : Tools → Housing → Float
embedding_of tools config =
    tools.subtract config.boss_top (tools.subtract config.lid_height config.lid_top_thickness)

-- 0x3fb999999999999a is 0.1 and 0x4014000000000000 is 5.0
abbrev pub chosen_embedding : Tools → Housing → Float
chosen_embedding tools config =
    let current = embedding_of tools config in
    if tools.at_most 0x3fb999999999999a current && tools.at_most current 0x4014000000000000
    then current
    else embedding_of tools tools.default_housing

abbrev pub dependency_on : Tools → Float → Housing → Option Dependency
dependency_on tools target config =
    let embedding = chosen_embedding tools config in
    if tools.at_most config.boss_top target
    then none
    else some record {
      previous_value = config.boss_top;
      target_value =
          tools.round_6 (tools.add (tools.subtract target config.lid_top_thickness) embedding);
      roof_embedding = embedding;
    }

abbrev pub dependency_of : Tools → Float → Option Housing → Option Dependency
dependency_of tools target none = none
dependency_of tools target (some config) = dependency_on tools target config

unfoldable pub lid_height_dependency :
    Tools → ProjectSnapshot → String → Float → Result (Option Dependency)
unfolding ends_with
lid_height_dependency tools project uri target =
    if not (ends_with lid_suffix uri)
    then ok none
    else (unless_value_error (tools.housing_config project) >>= λ config.
        ok (dependency_of tools target config))
