-- ===== src/Projector/Changes.antt =====
-- `_change_applied` of src/twinstudio/projector.py: the parameter patches of a change.
use twinstudio.Base.{
  String, Bool, false, Option, none, some, List, [], ◌∷◌, Result, ok, err, ◌>>=◌, or_raise,
  validation_error, type_error, if◌then◌else◌,
}
use twinstudio.Base.Dict.{Dict, get, put, pop}
use twinstudio.Base.Json.{Json, null, str, item, find, as_dict, as_list, truthy}
use twinstudio.Domain.Objects.{ParameterValue, approved, ObjectNode}
use twinstudio.Domain.Snapshot.{ProjectSnapshot, Pydantic}
use twinstudio.Projector.Views.{synchronize}

-- `d.get(key) is not None`
abbrev not_none : Option Json → Option Json
not_none none = none
not_none (some null) = none
not_none (some v) = some v

abbrev pub present : String → Dict Json → Option Json
present k d = not_none (get k d)

-- The name of a parameter. The keys of `parameters` are texts here: a list or a dict is refused as in the program, and
-- a number, a truth value or `None`, which the program would take as a key, is refused too.
abbrev pub name_of : Json → Result String
name_of (str s) = ok s
name_of _ = err type_error

module _ (P : Pydantic) where
  -- `target.parameters[name].value = ...`, then `.unit = ...` where the patch has a unit
  abbrev pub overwrite : Dict Json → ParameterValue → Result ParameterValue
  overwrite patch old = do
    raw ← item "value" patch
    value ← or_raise (P.assign_scalar raw) validation_error
    elim (present "unit" patch) [
      | none ↦ ok (record old { value = value })
      | some u ↦ do
        unit ← or_raise (P.assign_unit u) validation_error
        ok (record old { value = value; unit = unit })
    ]

  -- `ParameterValue(value=..., unit=patch.get("unit"), status="approved")`
  abbrev pub introduce : Dict Json → Result ParameterValue
  introduce patch = do
    raw ← item "value" patch
    value ← or_raise (P.assign_scalar raw) validation_error
    unit ← elim (present "unit" patch) [
      | none ↦ ok none
      | some u ↦ or_raise (P.assign_unit u) validation_error
    ]
    ok (record {
      value = value;
      unit = unit;
      status = approved;
      source_uri = none;
      confidence = 0x3ff0000000000000;
      notes = "";
    })

  -- the new parameters of the target, by the four branches of the loop
  unfoldable pub patch_parameters :
      Dict Json → String → Dict ParameterValue → Result (Dict ParameterValue)
  patch_parameters patch name parameters =
      let removed : Bool = elim (get "remove" patch) [ none ↦ false | some v ↦ truthy v ] in
      if removed then ok (pop name parameters) else elim (present "restore_parameter" patch) [
        | some v ↦ do
          restored ← or_raise (P.validate_parameter v) validation_error
          ok (put name restored parameters)
        | none ↦ elim (get name parameters) [
          | some old ↦ do written ← overwrite patch old; ok (put name written parameters)
          | none ↦ do fresh ← introduce patch; ok (put name fresh parameters)
        ]
      ]

  patch_target : Dict Json → String → ObjectNode → Result ObjectNode
  unfolding patch_parameters synchronize
  patch_target patch name target = do
    parameters ← patch_parameters patch name target.parameters
    ok (synchronize (record target { parameters = parameters }))

  -- one round of the loop over `parameter_patches`
  unfoldable pub apply_patch : Json → Dict ObjectNode → Result (Dict ObjectNode)
  unfolding patch_target
  apply_patch raw objects = do
    patch ← as_dict raw
    uri ← item "object_uri" patch
    target ← find uri objects
    elim target [
      | none ↦ ok objects
      | some node ↦ do
        parameter ← item "parameter" patch
        name ← name_of parameter
        key ← name_of uri
        node' ← patch_target patch name node
        ok (put key node' objects)
    ]

  unfoldable pub apply_patches : List Json → Dict ObjectNode → Result (Dict ObjectNode)
  unfolding apply_patch
  apply_patches [] objects = ok objects
  apply_patches (p ∷ ps) objects = apply_patch p objects >>= apply_patches ps

  -- `data.get(key, [])`, iterated
  abbrev pub list_at : String → Dict Json → Result (List Json)
  list_at key payload = elim (get key payload) [ none ↦ ok [] | some v ↦ as_list v ]

  unfoldable pub change_applied : ProjectSnapshot → Dict Json → Result ProjectSnapshot
  unfolding apply_patches as_list
  change_applied snapshot payload = do
    raw ← item "new_revision" payload
    revision ← or_raise (P.assign_text raw) validation_error
    patches ← list_at "parameter_patches" payload
    objects ← apply_patches patches snapshot.objects
    ok (record snapshot { revision = revision; objects = objects })
