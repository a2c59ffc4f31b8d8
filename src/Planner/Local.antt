-- ===== src/Planner/Local.antt =====
-- `_local_plan`: the operations that the planner finds in a request without a language model.
use twinstudio.Base.{
  String, Bool, true, false, ◌&&◌, ◌||◌, Option, none, some, List, [], ◌∷◌, any, length, is_empty,
  ◌==◌, if◌then◌else◌,
}
use twinstudio.Base.Letters.{has_text}
use twinstudio.Base.Json.{Json, Float, str, int, pos, float, arr, of_items, truthy}
use twinstudio.Domain.Objects.{Instant}
use twinstudio.Lifecycle.Kinds.{
  set_parameter, add_feature, boolean_cut, transform_feature, add_annotation,
}
use twinstudio.Planner.{ChangePlan}
use twinstudio.Planner.Readings.{
  relative_direction, number_near, diameter_of, angle_of, first_number,
}
use twinstudio.Planner.Drafts.{
  Draft, Request, add_operation, add_assumption, add_question, add_impact, operation_on,
  plan_parameter,
}

-- `[hit.semantic_face_uri for hit in selection.ray_hits if hit.semantic_face_uri]`
abbrev pub semantic_faces : List (Option String) → List String
semantic_faces [] = []
semantic_faces (none ∷ hits) = semantic_faces hits
semantic_faces (some uri ∷ hits) =
    let rest = semantic_faces hits in if uri == "" then rest else uri ∷ rest

abbrev pub texts : List String → List Json
texts [] = []
texts (s ∷ ss) = str s ∷ texts ss

-- 0x3fe70a3d70a3d70a is 0.72
abbrev pub add_local_thickness : List String → Float → Request → Draft → Draft
add_local_thickness faces thickness request draft =
    add_question
      "Confirm whether the boundary should be blended, chamfered, or left as a sharp local transition."
      (add_operation
        (operation_on request draft add_feature
          (("region_uri", str request.selection.uri)
            ∷ ("semantic_faces", arr (of_items (texts faces)))
            ∷ ("mode", str "local_offset_or_rebuild")
            ∷ [])
          (("feature_type", str "local_wall_thickness_patch")
            ∷ ("thickness_mm", float thickness)
            ∷ [])
          "The request concerns a selected face region, so the change is local rather than global."
          0x3fe70a3d70a3d70a
          ("Resolve selected mesh faces to persistent B-Rep/feature tags."
            ∷ "Regenerate the part and verify no adjacent unselected wall changed."
            ∷ "Run minimum-thickness and collision checks." ∷ []))
        draft)

-- 0x3feccccccccccccd is 0.9
abbrev pub add_wall_thickness : Float → Request → Draft → Draft
add_wall_thickness thickness request draft =
    add_operation
      (operation_on request draft set_parameter
        (("parameter", str "wall_thickness") ∷ ("scope", str "selected_object") ∷ [])
        (("parameter", str "wall_thickness") ∷ ("value", float thickness) ∷ ("unit", str "mm") ∷ [])
        "Explicit wall-thickness value detected in the natural-language request." 0x3feccccccccccccd
        ("Regenerate 2D drawings and 3D geometry." ∷ "Check cavity and mating clearances." ∷ []))
      draft

-- the thickness named in a request that gives no direction
abbrev pub thickness_of : Request → Option Float
unfolding relative_direction number_near
thickness_of request = elim (relative_direction request.tools request.lowered) [
  | some direction ↦ none
  | none ↦
      number_near request.tools request.lowered
        ("wall thickness" ∷ "grubość ścian" ∷ "grubosc scian" ∷ "thickness" ∷ [])
]

abbrev pub add_thickness : Float → Request → Draft → Draft
add_thickness thickness request draft =
    let faces = semantic_faces request.selection.ray_hits in
    add_impact "direct" "Wall geometry changes in selected scope." request (
      if is_empty faces
      then add_wall_thickness thickness request draft
      else add_local_thickness faces thickness request draft)

unfoldable pub plan_thickness : Request → Draft → Draft
unfolding relative_direction number_near
plan_thickness request draft = elim (thickness_of request) [
  | none ↦ draft
  | some thickness ↦ add_thickness thickness request draft
]

-- `any(token in lowered for token in tokens)`
abbrev pub names_one : List String → Request → Bool
unfolding has_text
names_one tokens request = any (λ token. has_text token request.lowered) tokens

-- `x or default`
abbrev pub or_float : Option Float → Float → Float
or_float none default = default
or_float (some x) default = if truthy (float x) then x else default

-- whether the number is there and not zero
abbrev pub is_given : Option Float → Bool
is_given none = false
is_given (some x) = truthy (float x)

-- 0x4008000000000000 is 3.0, 0x3fe8f5c28f5c28f6 is 0.78 and 0x3fe0a3d70a3d70a4 is 0.52
abbrev pub add_hole : Option Float → Request → Draft → Draft
add_hole diameter request draft =
    let drilled =
      add_operation
        (operation_on request draft boolean_cut
          (("region_uri", str request.selection.uri)
            ∷ ("ray_hits", int (pos (length request.selection.ray_hits)))
            ∷ [])
          (("feature_type", str "hole")
            ∷ ("diameter_mm", float (or_float diameter 0x4008000000000000))
            ∷ ("depth_mode", str "through_selected_wall")
            ∷ [])
          "A hole was requested inside the selected region."
          (if is_given diameter then 0x3fe8f5c28f5c28f6 else 0x3fe0a3d70a3d70a4)
          ("Check edge distance." ∷ "Check collision with internal components." ∷ []))
        draft in
    add_impact "manufacturing" "New cut affects print/CNC toolpath." request (elim diameter [
      | none ↦
          add_assumption
            "No diameter was provided; 3.0 mm is a provisional value requiring approval." drilled
      | some x ↦ drilled
    ])

unfoldable pub plan_hole : Request → Draft → Draft
unfolding has_text
plan_hole request draft =
    if names_one ("hole" ∷ "otwór" ∷ "otwor" ∷ []) request
    then add_hole (diameter_of request.tools request.lowered) request draft
    else draft

-- 0x4046800000000000 is 45.0, 0x3fe999999999999a is 0.8 and 0x3fe4cccccccccccd is 0.65
abbrev pub add_chamfer : Option Float → Request → Draft → Draft
add_chamfer angle request draft =
    add_operation
      (operation_on request draft add_feature
        (("region_uri", str request.selection.uri)
          ∷ ("boundary", str "selected_region_boundary")
          ∷ [])
        (("feature_type", str "chamfer")
          ∷ ("angle_deg", float (or_float angle 0x4046800000000000))
          ∷ [])
        "A chamfer was requested on the selected boundary."
        (if is_given angle then 0x3fe999999999999a else 0x3fe4cccccccccccd)
        ("Verify print overhang angle." ∷ "Verify hinge motion if the target is near the hinge."
          ∷ []))
      draft

unfoldable pub plan_chamfer : Request → Draft → Draft
unfolding has_text
plan_chamfer request draft =
    if names_one ("chamfer" ∷ "faz" ∷ "ścię" ∷ "scie" ∷ []) request
    then add_chamfer (angle_of request.tools request.lowered) request draft
    else draft

-- 0x3ff0000000000000 is 1.0 and 0x3fdccccccccccccd is 0.45
abbrev pub add_move : Option Float → Request → Draft → Draft
add_move distance request draft = add_question "Select or state the movement direction/axis." (
    add_operation
      (operation_on request draft transform_feature (("region_uri", str request.selection.uri) ∷ [])
        (("distance_mm", float (or_float distance 0x3ff0000000000000))
          ∷ ("direction", str "requires_user_gizmo_or_axis_confirmation")
          ∷ [])
        "A local move was requested, but direction must come from a 3D gizmo or explicit axis."
        0x3fdccccccccccccd ("Confirm axis/direction in the viewer before applying." ∷ []))
      draft)

unfoldable pub plan_move : Request → Draft → Draft
unfolding has_text
plan_move request draft =
    if names_one ("move" ∷ "shift" ∷ "przesuń" ∷ "przesun" ∷ []) request
    then add_move (first_number request.tools request.lowered) request draft
    else draft

abbrev pub ask_projection : Request → Draft → Draft
ask_projection request draft =
    if (request.selection.source_view == "2d" || request.selection.source_view == "photo")
      && is_empty request.selection.projection_entity_ids
    then add_question
        "The marked 2D/photo region has no projection/calibration mapping to 3D; approval must define its 3D plane."
        draft
    else draft

-- a request in which nothing was found is kept as a note
abbrev pub add_note : Request → Draft → Draft
add_note request draft =
    add_question
      "Choose a concrete operation: dimension, hole/cut, pad, chamfer, move, suppress, or replacement."
      (add_operation
        (operation_on request draft add_annotation (("region_uri", str request.selection.uri) ∷ [])
          (("text", str request.prompt) ∷ [])
          "The local parser could not safely infer a geometry operation; the request is preserved as a scoped note."
          0x3ff0000000000000 ("Review the annotation and choose a supported operation." ∷ []))
        draft)

abbrev pub note_if_empty : Request → Draft → Draft
note_if_empty request draft = if is_empty draft.operations then add_note request draft else draft

abbrev pub no_draft : Draft
no_draft = record { operations = []; assumptions = []; questions = []; impact = [] }

unfoldable pub draft_of : Request → Draft
unfolding plan_parameter plan_thickness plan_hole plan_chamfer plan_move
draft_of request = note_if_empty request (
    ask_projection request (
      plan_move request (
        plan_chamfer request
          (plan_hole request (plan_thickness request (plan_parameter request no_draft))))))

-- the identifier and the time of a plan
pub record Stamp : Type 0 where
  pub plan_id : String
  pub now : Instant

-- the plan of a draft, before its scope is checked
abbrev pub plan_of : Request → Stamp → String → Draft → ChangePlan
plan_of request stamp actor draft = record {
  plan_id = stamp.plan_id;
  project_id = request.project.project_id;
  base_revision = request.project.revision;
  prompt = request.prompt;
  selection_uri = request.selection.uri;
  selected_scope_uris = request.selection.target_object_uris;
  operations = draft.operations;
  impact = draft.impact;
  assumptions = draft.assumptions;
  unresolved_questions = draft.questions;
  requires_approval = true;
  planner = "local-rule-compiler";
  created_by = actor;
  created_at = stamp.now;
}
