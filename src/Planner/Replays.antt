-- ===== src/Planner/Replays.antt =====
-- The projector can apply the payload that a plan compiles to.
use Prim.Native.String.{◌++◌}
use twinstudio.Base.{
  ◌+◌, String, ◌≡◌, refl, ap, ◌⊎◌, inl, inr, Option, some, List, [], ◌∷◌, All, Result, ok,
  Option-cases,
}
use twinstudio.Base.Letters.{decimal}
use twinstudio.Base.Dict.{Dict, get}
use twinstudio.Base.Json.{Json, null, str, items, of_items}
use twinstudio.Domain.Objects.{Scalar, ParameterValue, ObjectNode}
use twinstudio.Domain.Snapshot.{ProjectSnapshot, Pydantic}
use twinstudio.Projector.Changes.{
  overwrite, introduce, patch_parameters, apply_patch, apply_patches, change_applied,
}
use twinstudio.Uri.{UrlLibrary}
use twinstudio.Planner.{ChangePlan, Tools}
use twinstudio.Planner.Payload.{
  Dumps, Patch, patch_fields, patch_json, patches_json, Compiled, payload_of, compiled_of,
  compile_apply_payload,
}

-- The parameter is named by a text, and pydantic takes the value, and the unit if there is one.
abbrev pub IsApplicable : Pydantic → Patch → Type 0
IsApplicable P p =
    ((name : String) × (p.parameter ≡ str name))
    × ((value : Scalar) × (P.assign_scalar p.value ≡ some value))
    × ((p.unit ≡ null)
        ⊎ ((text : String) × (unit : Option String) × (p.unit ≡ str text)
            × (P.assign_unit (str text) ≡ some unit)))

-- A call that returns a value.
abbrev Returns {ℓ} : {A : Type ℓ} → Result A → Type ℓ
Returns {A = A} r = (x : A) × (r ≡ ok x)

module _ (P : Pydantic) where
  overwrite-Returns :
      (p : Patch) (old : ParameterValue)
      → IsApplicable P p
      → Returns (overwrite P (patch_fields p) old)
  overwrite-Returns p old ((name, named), (value, read), inl none_given) =
      rw (read, none_given) (_, refl)
  overwrite-Returns p old ((name, named), (value, read), inr (text, unit, given, taken)) =
      rw (read, given) (rw taken (_, refl))

  introduce-Returns : (p : Patch) → IsApplicable P p → Returns (introduce P (patch_fields p))
  introduce-Returns p ((name, named), (value, read), inl none_given) =
      rw (read, none_given) (_, refl)
  introduce-Returns p ((name, named), (value, read), inr (text, unit, given, taken)) =
      rw (read, given) (rw taken (_, refl))

  patch_parameters-Returns :
      (p : Patch) (name : String) (parameters : Dict ParameterValue)
      → IsApplicable P p
      → Returns (patch_parameters P (patch_fields p) name parameters)
  unfolding patch_parameters
  patch_parameters-Returns p name parameters h = elim (Option-cases (get name parameters)) [
    | inl absent ↦ let (fresh, made) = introduce-Returns p h in rw (absent, made) (_, refl)
    | inr (old, there) ↦
        let (written, made) = overwrite-Returns p old h in rw (there, made) (_, refl)
  ]

  apply_patch-Returns :
      (p : Patch) (objects : Dict ObjectNode)
      → IsApplicable P p
      → Returns (apply_patch P (patch_json p) objects)
  unfolding apply_patch patch_parameters
  apply_patch-Returns p objects h = elim (Option-cases (get p.object_uri objects)) [
    | inl gone ↦ rw gone (objects, refl)
    | inr (node, there) ↦
        let (parameters, made) = patch_parameters-Returns p h.0.0 node.parameters h in
        rw (there, h.0.1, made) (_, refl)
  ]

  apply_patches-Returns :
      (ps : List Patch) (objects : Dict ObjectNode)
      → All (IsApplicable P) ps
      → Returns (apply_patches P (patches_json ps) objects)
  unfolding apply_patches
  apply_patches-Returns [] objects h = (objects, refl)
  apply_patches-Returns (p ∷ ps) objects h =
      let (next, patched) = apply_patch-Returns p objects h.0 in
      rw patched (apply_patches-Returns ps next h.1)

items-of_items : (vs : List Json) → items (of_items vs) ≡ vs
items-of_items [] = refl
items-of_items (v ∷ vs) = ap (λ ws. v ∷ ws) (items-of_items vs)

-- When the patches that a plan compiles to name their parameters by texts, and pydantic takes their values and
-- units and takes a text as a revision, the plan compiles to a payload that the projector can apply to any
-- snapshot, and the revision of the result is the one two above the version of the project that it was
-- compiled for.
pub change_applied-compile_apply_payload :
    (P : Pydantic) (tools : Tools) (dumps : Dumps) (urls : UrlLibrary) (plan : ChangePlan)
    (project snapshot : ProjectSnapshot) (c : Compiled)
    → ((t : String) → P.assign_text (str t) ≡ some t)
    → compiled_of tools dumps urls plan project ≡ ok c
    → All (IsApplicable P) c.patches
    → (payload : Dict Json) × (compile_apply_payload tools dumps urls plan project ≡ ok payload)
      × (s : ProjectSnapshot) × (change_applied P snapshot payload ≡ ok s)
      × (s.revision ≡ "rev-" ++ decimal (project.stream_version + 2))
unfolding compile_apply_payload change_applied
change_applied-compile_apply_payload P tools dumps urls plan project snapshot c texts compiled h =
    let (objects, patched) = apply_patches-Returns P c.patches snapshot.objects h in
    let revision = texts ("rev-" ++ decimal (project.stream_version + 2)) in
    (
      payload_of plan project c.patches c.deferred,
      rw compiled refl,
      record snapshot {
        revision = "rev-" ++ decimal (project.stream_version + 2);
        objects = objects;
      },
      rw (revision, items-of_items (patches_json c.patches), patched) refl,
      refl,
    )
