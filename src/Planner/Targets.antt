-- ===== src/Planner/Targets.antt =====
-- The local plan has an operation, and all its operations are on the first selected object.
use twinstudio.Base.{
  String, ◌≡◌, refl, inl, inr, false, ◌&&◌, ◌||◌, List, [], ◌∷◌, ◌++◌, All, is_empty, Bool-cases,
  Option-cases, ok, Result-cases, ◌==◌,
}
use mathlib.Core.Path.{subst}
use twinstudio.Uri.{UrlLibrary}
use twinstudio.Planner.{ChangeOperation, ChangePlan, Tools}
use twinstudio.Planner.Readings.{relative_parameter_change, absolute_parameter_change, diameter_of}
use twinstudio.Planner.Drafts.{Draft, Request, plan_parameter}
use twinstudio.Planner.Local.{
  semantic_faces, thickness_of, plan_thickness, names_one, plan_hole, plan_chamfer, plan_move,
  ask_projection, note_if_empty, no_draft, draft_of,
}
use twinstudio.Planner.Plans.{first_target, Job, request_of, drafted, validate_scope, local_plan}
use twinstudio.Planner.Extensions.{All-append}

-- Every operation of a draft is on the target.
abbrev pub IsOn : String → List ChangeOperation → Type 0
IsOn target operations = All (λ o. o.target_uri ≡ target) operations

-- A step keeps the operations of a draft on the target.
abbrev Keeps : Request → (Draft → Draft) → Type 0
Keeps request step =
    (d : Draft) → IsOn request.target d.operations → IsOn request.target (step d).operations

is_empty-append {ℓ} : {A : Type ℓ} (xs : List A) (x : A) → is_empty (xs ++ (x ∷ [])) ≡ false
is_empty-append [] x = refl
is_empty-append (y ∷ ys) x = refl

module _ (request : Request) where
  appended :
      (d : Draft) (o : ChangeOperation)
      → o.target_uri ≡ request.target
      → IsOn request.target d.operations
      → IsOn request.target (d.operations ++ (o ∷ []))
  appended d o here h = All-append (λ x. x.target_uri ≡ request.target) d.operations o h here

  parameter_kept : Keeps request (plan_parameter request)
  unfolding plan_parameter
  parameter_kept d h =
      elim (Option-cases
        (relative_parameter_change request.tools request.lowered request.target request.project)) [
          | inr (change, relative) ↦ rw (plan_parameter, relative) (appended d _ refl h)
          | inl no_relative ↦
              elim (Option-cases (
                absolute_parameter_change request.tools request.lowered request.target
                  request.project)) [
                    | inr (change, absolute) ↦
                        rw (plan_parameter, no_relative, absolute) (appended d _ refl h)
                    | inl no_absolute ↦ rw (plan_parameter, no_relative, no_absolute) h
                  ]
        ]

  thickness_kept : Keeps request (plan_thickness request)
  unfolding plan_thickness
  thickness_kept d h = elim (Option-cases (thickness_of request)) [
    | inl unnamed ↦ rw (plan_thickness, unnamed) h
    | inr (x, named) ↦ elim (Bool-cases (is_empty (semantic_faces request.selection.ray_hits))) [
      | inl whole ↦ rw (plan_thickness, named, whole) (appended d _ refl h)
      | inr faces ↦ rw (plan_thickness, named, faces) (appended d _ refl h)
    ]
  ]

  hole_kept : Keeps request (plan_hole request)
  unfolding plan_hole
  hole_kept d h = elim (Bool-cases (names_one ("hole" ∷ "otwór" ∷ "otwor" ∷ []) request)) [
    | inr unnamed ↦ rw unnamed h
    | inl named ↦ elim (Option-cases (diameter_of request.tools request.lowered)) [
      | inl unknown ↦ rw (named, unknown) (appended d _ refl h)
      | inr (x, given) ↦ rw (named, given) (appended d _ refl h)
    ]
  ]

  chamfer_kept : Keeps request (plan_chamfer request)
  unfolding plan_chamfer
  chamfer_kept d h =
      elim (Bool-cases (names_one ("chamfer" ∷ "faz" ∷ "ścię" ∷ "scie" ∷ []) request)) [
        | inr unnamed ↦ rw unnamed h
        | inl named ↦ rw named (appended d _ refl h)
      ]

  move_kept : Keeps request (plan_move request)
  unfolding plan_move
  move_kept d h =
      elim (Bool-cases (names_one ("move" ∷ "shift" ∷ "przesuń" ∷ "przesun" ∷ []) request)) [
        | inr unnamed ↦ rw unnamed h
        | inl named ↦ rw named (appended d _ refl h)
      ]

  projection_kept : Keeps request (ask_projection request)
  projection_kept d h =
      elim (Bool-cases (
        (request.selection.source_view == "2d" || request.selection.source_view == "photo")
        && is_empty request.selection.projection_entity_ids)) [
          | inl flat ↦ rw flat h
          | inr solid ↦ rw solid h
        ]

  note_kept :
      (d : Draft)
      → IsOn request.target d.operations
      → (is_empty (note_if_empty request d).operations ≡ false)
        × IsOn request.target (note_if_empty request d).operations
  note_kept d h = elim (Bool-cases (is_empty d.operations)) [
    | inl empty ↦ rw empty (is_empty-append d.operations _, appended d _ refl h)
    | inr given ↦ rw given (given, h)
  ]

  draft_of_lem :
      (is_empty (draft_of request).operations ≡ false)
      × IsOn request.target (draft_of request).operations
  unfolding draft_of
  draft_of_lem =
      let d = plan_parameter request no_draft in
      let moved = move_kept (plan_chamfer request (plan_hole request (plan_thickness request d))) (
        chamfer_kept (plan_hole request (plan_thickness request d))
          (hole_kept (plan_thickness request d) (thickness_kept d (parameter_kept no_draft tt)))) in
      note_kept _ (projection_kept _ moved)

-- A plan that the local planner returns has an operation, and every operation is on the first of the selected
-- objects.
pub local_plan-IsOn :
    (tools : Tools) (urls : UrlLibrary) (job : Job) (p : ChangePlan)
    → local_plan tools urls job ≡ ok p
    → (is_empty p.operations ≡ false)
      × ((target : String) × (first_target job.selection.target_object_uris ≡ ok target)
          × IsOn target p.operations)
unfolding local_plan
local_plan-IsOn tools urls job p h =
    elim (Result-cases (first_target job.selection.target_object_uris)) [
      | inr (x, nothing) ↦ let k = rw nothing at h in cc
      | inl (target, chosen) ↦
          elim (Result-cases (validate_scope urls (drafted tools job target))) [
            | inr (x, outside) ↦ let k = rw (chosen, outside) at h in cc
            | inl (tt, inside) ↦
                let k : ok (drafted tools job target) ≡ ok p = rw (chosen, inside) at h in
                let same : drafted tools job target ≡ p = cc in
                let (filled, here) = draft_of_lem (request_of tools job target) in
                subst
                  (λ z.
                    (is_empty z.operations ≡ false)
                    × ((t : String) × (first_target job.selection.target_object_uris ≡ ok t)
                        × IsOn t z.operations))
                  same (filled, (target, chosen, here))
          ]
    ]
