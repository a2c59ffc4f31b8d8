-- ===== src/Planner/Dependencies.antt =====
-- `_with_cad_dependencies`: the operations that a lower lid needs.
use Prim.Native.String.{◌++◌}
use twinstudio.Base.{
  ℕ, String, Bool, true, false, not, ◌&&◌, ◌||◌, Option, none, some, List, [], ◌∷◌, any, length,
  Result, ok, err, ◌>>=◌, ◌>>◌, type_error, ◌==◌, if◌then◌else◌,
}
use mathlib.Core.List
use twinstudio.Base.Dict.{get}
use twinstudio.Base.Json.{Json, str, float, arr, obj, item}
use twinstudio.Domain.Snapshot.{ProjectSnapshot}
use twinstudio.Lifecycle.Kinds.{set_parameter}
use twinstudio.Planner.{ChangeOperation, ImpactItem, ChangePlan, Tools}
use twinstudio.Planner.Heights.{auxiliary_boss_top_parameter, Dependency, lid_height_dependency}

abbrev pub sets_parameter : ChangeOperation → Bool
sets_parameter operation = elim operation.kind [ set_parameter ↦ true | _ ↦ false ]

-- `value == text`
abbrev pub is_the_text : String → Option Json → Bool
is_the_text text (some (str s)) = s == text
is_the_text text _ = false

-- a pair of a target and a parameter is hashed
abbrev pub hashable : Option Json → Result (Unit {0})
hashable (some (arr vs)) = err type_error
hashable (some (obj fs)) = err type_error
hashable _ = ok tt

abbrev pub Keys : Type 0
Keys = List (String × Option Json)

-- `existing_parameters`
abbrev pub keys_of : List ChangeOperation → Result Keys
keys_of [] = ok []
keys_of (operation ∷ operations) =
    let parameter = get "parameter" operation.arguments in
    if sets_parameter operation
    then (hashable parameter
        >> (keys_of operations >>= λ keys. ok ((operation.target_uri, parameter) ∷ keys)))
    else keys_of operations

-- `(target, AUXILIARY_BOSS_TOP_PARAMETER) in existing_parameters`
abbrev pub sets_boss_top : String → Keys → Bool
sets_boss_top target keys =
    any (λ key. key.0 == target && is_the_text auxiliary_boss_top_parameter key.1) keys

-- the lists that `_with_cad_dependencies` extends
pub record Extension : Type 0 where
  pub operations : List ChangeOperation
  pub impact : List ImpactItem
  pub assumptions : List String
  pub keys : Keys

-- the operation that moves the boss with the roof; 0x3ff0000000000000 is 1.0
abbrev pub boss_operation : Tools → String → ChangeOperation → Dependency → ChangeOperation
boss_operation tools id operation dependency = record {
  operation_id = id;
  kind = set_parameter;
  target_uri = operation.target_uri;
  selector =
      ("parameter", str auxiliary_boss_top_parameter)
      ∷ ("scope", str "selected_object")
      ∷ ("derived_dependency_for", str operation.operation_id)
      ∷ ("constraint", str "AUX_BOSS_TOP_ABOVE_LID")
      ∷ [];
  arguments =
      ("parameter", str auxiliary_boss_top_parameter)
      ∷ ("value", float dependency.target_value)
      ∷ ("unit", str "mm")
      ∷ [];
  rationale =
      "The auxiliary boss belongs to the selected lid and must move with the lower roof; its top datum changes to "
      ++ tools.general dependency.target_value
      ++ " mm while preserving "
      ++ tools.general dependency.roof_embedding
      ++ " mm roof embedding.";
  confidence = 0x3ff0000000000000;
  reversible = true;
  validation_steps =
      "Verify the boss remains embedded in the lid roof."
      ∷ "Regenerate the lid and check boss-hole continuity." ∷ [];
}

abbrev pub boss_impact : Tools → ChangeOperation → Dependency → ImpactItem
boss_impact tools operation dependency = record {
  uri = operation.target_uri;
  impact = "dependent";
  summary =
      "Auxiliary boss top datum follows the selected lid roof: "
      ++ tools.general dependency.previous_value
      ++ " → "
      ++ tools.general dependency.target_value
      ++ " mm.";
}

abbrev pub add_boss : Tools → (ℕ → String) → ChangeOperation → Dependency → Extension → Extension
add_boss tools ids operation dependency e = record {
  operations =
      List.◌++◌ e.operations
        (boss_operation tools (ids (length e.operations)) operation dependency ∷ []);
  impact = List.◌++◌ e.impact (boss_impact tools operation dependency ∷ []);
  assumptions =
      List.◌++◌ e.assumptions (
        "Preserve the configured structural embedding of the auxiliary boss in the lid roof." ∷ []);
  keys = (operation.target_uri, some (str auxiliary_boss_top_parameter)) ∷ e.keys;
}

abbrev pub with_dependency :
    Tools → (ℕ → String) → ChangeOperation → Option Dependency → Extension → Extension
with_dependency tools ids operation none e = e
with_dependency tools ids operation (some dependency) e =
    if sets_boss_top operation.target_uri e.keys
    then e
    else add_boss tools ids operation dependency e

-- one round of the loop
abbrev pub extend_one :
    Tools → (ℕ → String) → ProjectSnapshot → ChangeOperation → Extension → Result Extension
extend_one tools ids project operation e =
    if not (sets_parameter operation)
      || not (is_the_text "height" (get "parameter" operation.arguments))
    then ok e
    else (item "value" operation.arguments >>= λ value. tools.float_of value >>= λ height.
        lid_height_dependency tools project operation.target_uri height >>= λ dependency.
        ok (with_dependency tools ids operation dependency e))

abbrev pub extend :
    Tools → (ℕ → String) → ProjectSnapshot → List ChangeOperation → Extension → Result Extension
extend tools ids project [] e = ok e
extend tools ids project (operation ∷ operations) e =
    extend_one tools ids project operation e >>= λ extended.
    extend tools ids project operations extended

unfoldable pub with_cad_dependencies :
    Tools → (ℕ → String) → ProjectSnapshot → ChangePlan → Result ChangePlan
unfolding lid_height_dependency
with_cad_dependencies tools ids project plan = do
  keys ← keys_of plan.operations
  e ← extend tools ids project plan.operations (record {
    operations = plan.operations;
    impact = plan.impact;
    assumptions = plan.assumptions;
    keys = keys;
  })
  ok (record plan { operations = e.operations; impact = e.impact; assumptions = e.assumptions })
