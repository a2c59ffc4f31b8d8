-- ===== src/Planner/Payload.antt =====
-- `compile_apply_payload`: the payload of `change.apply` that a plan compiles to. The JSON that pydantic makes of
-- an operation and of a parameter are arguments.
use Prim.Native.String.{◌++◌, compare}
use text.Mathlib.Text.{is_lt}
use twinstudio.Base.{
  ℕ, ◌+◌, String, Bool, ◌&&◌, ◌||◌, Option, none, some, List, [], ◌∷◌, length, take, any, select,
  Result, ok, err, ◌>>=◌, or_raise, key_error, value_error, ltb, eqb, ◌==◌, if◌then◌else◌,
}
use mathlib.Core.List
use twinstudio.Base.Letters.{decimal}
use twinstudio.Base.Dict.{Dict, get, has, keys}
use twinstudio.Base.Json.{Json, Float, null, str, float, arr, obj, of_items, of_fields, item, find}
use twinstudio.Domain.Objects.{ParameterValue, ObjectNode}
use twinstudio.Domain.Snapshot.{ProjectSnapshot}
use twinstudio.Uri.{UrlLibrary, PoaUri, same_texts, parse_poa_uri}
use twinstudio.Planner.{ChangeOperation, ChangePlan, Tools}
use twinstudio.Planner.Heights.{
  auxiliary_boss_top_parameter, physical_component_parameter, Dependency, lid_height_dependency,
}
use twinstudio.Planner.Dependencies.{sets_parameter, is_the_text}

-- `model_dump(mode="json")` of a parameter and of an operation
pub record Dumps : Type 0 where
  pub dump_parameter : ParameterValue → Json
  pub dump_operation : ChangeOperation → Json

-- An object that an address may belong to, with the number of its segments.
abbrev pub Candidate : Type 0
Candidate = ℕ × String

-- an address of the same project that the segments begin with
abbrev pub is_above : PoaUri → PoaUri → Bool
is_above ref parsed =
    ref.tenant == parsed.tenant
    && ref.project == parsed.project
    && same_texts (take (length ref.segments) parsed.segments) ref.segments

-- the loop over the objects
abbrev pub candidates : UrlLibrary → PoaUri → List String → Result (List Candidate)
candidates urls parsed [] = ok []
candidates urls parsed (uri ∷ uris) = do
  ref ← parse_poa_uri urls uri
  rest ← candidates urls parsed uris
  ok (if is_above ref parsed then (length ref.segments, uri) ∷ rest else rest)

-- `<` on candidates
abbrev pub is_below : Candidate → Candidate → Bool
is_below (m, s) (n, t) = ltb m n || (eqb m n && is_lt (compare s t))

-- `max(candidates)[1]`: the first of the greatest
abbrev pub greatest : Candidate → List Candidate → Candidate
greatest c [] = c
greatest c (d ∷ ds) = greatest (if is_below c d then d else c) ds

abbrev pub owner_of : List Candidate → Result String
owner_of [] = err (value_error "No owning object found")
owner_of (c ∷ cs) = ok (greatest c cs).1

-- `_owning_object_uri`
unfoldable pub owning_object_uri : UrlLibrary → String → ProjectSnapshot → Result String
unfolding parse_poa_uri
owning_object_uri urls target project =
    let search =
      parse_poa_uri urls target
      >>= (λ parsed. candidates urls parsed (keys project.objects))
      >>= owner_of in
    if has target project.objects then ok target else search

-- an entry of `parameter_patches`
pub record Patch : Type 0 where
  pub object_uri : String
  pub parameter : Json
  pub value : Json
  pub unit : Json
  pub operation_id : String
  pub previous_parameter : Json

abbrev pub patch_fields : Patch → Dict Json
patch_fields p =
    ("object_uri", str p.object_uri)
    ∷ ("parameter", p.parameter)
    ∷ ("value", p.value)
    ∷ ("unit", p.unit)
    ∷ ("operation_id", str p.operation_id)
    ∷ ("previous_parameter", p.previous_parameter)
    ∷ []

abbrev pub patch_json : Patch → Json
patch_json p = obj (of_fields (patch_fields p))

-- a parameter that only the current CAD state gives; 0x3ff0000000000000 is 1.0
abbrev pub inferred : Float → Json
inferred x = obj (
    of_fields (
      ("value", float x)
      ∷ ("unit", str "mm")
      ∷ ("status", str "derived")
      ∷ ("source_uri", null)
      ∷ ("confidence", float 0x3ff0000000000000)
      ∷ ("notes", str "Physical component parameter inferred from current CAD state.")
      ∷ []))

abbrev pub or_null : Option Json → Json
or_null none = null
or_null (some v) = v

abbrev pub inferred_or_null : Option Float → Json
inferred_or_null none = null
inferred_or_null (some x) = inferred x

-- `physical_component_parameter` of a parameter that may be no text
abbrev pub physical_of : Tools → ProjectSnapshot → String → Json → Result (Option Float)
physical_of tools project uri (str name) = physical_component_parameter tools project uri name
physical_of tools project uri _ = ok none

-- the parameter that a patch replaces
unfoldable pub previous_of :
    Tools → Dumps → ProjectSnapshot → String → ObjectNode → Json → Result Json
unfolding physical_component_parameter
previous_of tools dumps project uri node name = do
  existing ← find name node.parameters
  elim existing [
    | some p ↦ ok (dumps.dump_parameter p)
    | none ↦ physical_of tools project uri name >>= λ x. ok (inferred_or_null x)
  ]

-- the patch of an operation that sets a parameter
unfoldable pub patch_of :
    Tools → Dumps → UrlLibrary → ProjectSnapshot → ChangeOperation → Result Patch
unfolding owning_object_uri previous_of
patch_of tools dumps urls project operation = do
  uri ← owning_object_uri urls operation.target_uri project
  node ← or_raise (get uri project.objects) (key_error uri)
  name ← item "parameter" operation.arguments
  previous ← previous_of tools dumps project uri node name
  value ← item "value" operation.arguments
  ok record {
    object_uri = uri;
    parameter = name;
    value = value;
    unit = or_null (get "unit" operation.arguments);
    operation_id = operation.operation_id;
    previous_parameter = previous;
  }

-- the patches and the deferred operations of the first loop
pub record Compiled : Type 0 where
  pub patches : List Patch
  pub deferred : List Json

abbrev pub compile_operations :
    Tools → Dumps → UrlLibrary → ProjectSnapshot → List ChangeOperation → Result Compiled
compile_operations tools dumps urls project [] = ok record { patches = []; deferred = [] }
compile_operations tools dumps urls project (operation ∷ operations) =
    if sets_parameter operation
    then (patch_of tools dumps urls project operation >>= λ patch.
        compile_operations tools dumps urls project operations >>= λ rest.
        ok (record rest { patches = patch ∷ rest.patches }))
    else (compile_operations tools dumps urls project operations >>= λ rest.
        ok (record rest { deferred = dumps.dump_operation operation ∷ rest.deferred }))

-- `key in dependency_keys`
abbrev pub patches_boss_top : String → List Patch → Bool
patches_boss_top uri patches =
    any (λ p. p.object_uri == uri && is_the_text auxiliary_boss_top_parameter (some p.parameter))
      patches

abbrev pub boss_patch : Patch → Dependency → Patch
boss_patch height dependency = record {
  object_uri = height.object_uri;
  parameter = str auxiliary_boss_top_parameter;
  value = float dependency.target_value;
  unit = str "mm";
  operation_id = "derived:" ++ height.operation_id ++ ":auxiliary-boss-top";
  previous_parameter = inferred dependency.previous_value;
}

abbrev pub with_boss_patch : Patch → Option Dependency → List Patch → List Patch
with_boss_patch height none patches = patches
with_boss_patch height (some dependency) patches =
    if patches_boss_top height.object_uri patches
    then patches
    else List.◌++◌ patches (boss_patch height dependency ∷ [])

-- the loop over `height_patches`
abbrev pub add_boss_patches :
    Tools → ProjectSnapshot → List Patch → List Patch → Result (List Patch)
add_boss_patches tools project [] patches = ok patches
add_boss_patches tools project (height ∷ heights) patches = do
  target ← tools.float_of height.value
  dependency ← lid_height_dependency tools project height.object_uri target
  add_boss_patches tools project heights (with_boss_patch height dependency patches)

abbrev pub patches_json : List Patch → List Json
patches_json [] = []
patches_json (p ∷ ps) = patch_json p ∷ patches_json ps

abbrev pub texts_json : List String → List Json
texts_json [] = []
texts_json (s ∷ ss) = str s ∷ texts_json ss

abbrev pub payload_of : ChangePlan → ProjectSnapshot → List Patch → List Json → Dict Json
unfolding decimal
payload_of plan project patches deferred =
    ("plan_id", str plan.plan_id)
    ∷ ("base_revision", str plan.base_revision)
    ∷ ("new_revision", str ("rev-" ++ decimal (project.stream_version + 2)))
    ∷ ("parameter_patches", arr (of_items (patches_json patches)))
    ∷ ("deferred_operations", arr (of_items deferred))
    ∷ ("scope_uris", arr (of_items (texts_json plan.selected_scope_uris)))
    ∷ []

-- the patches and the deferred operations of a plan
unfoldable pub compiled_of :
    Tools → Dumps → UrlLibrary → ChangePlan → ProjectSnapshot → Result Compiled
unfolding patch_of lid_height_dependency
compiled_of tools dumps urls plan project = do
  compiled ← compile_operations tools dumps urls project plan.operations
  patches ←
      add_boss_patches tools project
        (select (λ p. is_the_text "height" (some p.parameter)) compiled.patches) compiled.patches
  ok (record compiled { patches = patches })

unfoldable pub compile_apply_payload :
    Tools → Dumps → UrlLibrary → ChangePlan → ProjectSnapshot → Result (Dict Json)
unfolding compiled_of decimal
compile_apply_payload tools dumps urls plan project = do
  compiled ← compiled_of tools dumps urls plan project
  ok (payload_of plan project compiled.patches compiled.deferred)
