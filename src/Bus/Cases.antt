-- ===== src/Bus/Cases.antt =====
-- The cases of `CommandBus._handle_existing` (src/twinstudio/bus.py): what each command validates, the
-- permission that it needs, and the event that it asks for.
use twinstudio.Base.{
  String, List, [], ◌∷◌, Result, ok, ◌>>=◌, ◌>>◌, raise_if, or_raise, command_rejected,
  validation_error, not, ◌||◌, ◌==◌,
}
use twinstudio.Base.Text.{lower}
use twinstudio.Base.Dict.{Dict, put}
use twinstudio.Base.Json.{Json, str, obj, arr, item, find, as_str, of_fields, of_items}
use twinstudio.Domain.Roles
use twinstudio.Domain.Stages
use twinstudio.Domain.Envelopes.{CommandEnvelope}
use twinstudio.Domain.Snapshot.{ProjectSnapshot, Pydantic, ModelClass}
use twinstudio.Projector.Changes.{list_at}
use twinstudio.Projector.Handlers.{role_of, stage_of}

-- `permission`, `event_type` and `data` at the end of a case
pub record Prepared : Type 0 where
  pub permission : String
  pub event_type : String
  pub payload : Dict Json

abbrev pub Case : Type 0
Case = CommandEnvelope → ProjectSnapshot → Result Prepared

abbrev pub prepared : String → String → Dict Json → Result Prepared
prepared permission event_type payload =
    ok (record { permission = permission; event_type = event_type; payload = payload })

-- `dict(payload)`: the cases that record what they are given
unfoldable pub passes : String → String → Case
passes permission event_type command snapshot = prepared permission event_type command.payload

unfoldable pub removes_object : Case
removes_object command snapshot = do
  uri ← item "object_uri" command.payload
  prepared "change.apply" "ObjectRemoved" (("object_uri", uri) ∷ [])

unfoldable pub grants_membership : Case
unfolding lower
grants_membership command snapshot = do
  who ← item "email" command.payload
  email ← as_str who
  raw ← item "role" command.payload
  role ← role_of raw
  prepared "membership.manage" "MembershipGranted"
      (("email", str (lower email)) ∷ ("role", str (Roles.value role)) ∷ [])

unfoldable pub revokes_membership : Case
unfolding lower
revokes_membership command snapshot = do
  who ← item "email" command.payload
  email ← as_str who
  raise_if (lower email == lower command.actor)
      (command_rejected "An actor cannot revoke their own membership")
  prepared "membership.manage" "MembershipRevoked" (("email", str (lower email)) ∷ [])

unfoldable pub sets_stage : Case
sets_stage command snapshot = do
  raw ← item "stage" command.payload
  stage ← stage_of raw
  prepared "approval.grant" "LifecycleStageChanged" (("stage", str (Stages.value stage)) ∷ [])

module _ (P : Pydantic) where
  -- a pydantic model under `field`, validated and dumped
  unfoldable pub records : String → String → String → ModelClass → Case
  records permission event_type field cls command snapshot = do
    raw ← item field command.payload
    model ← or_raise (P.validate_model cls raw) validation_error
    prepared permission event_type ((field, obj (of_fields model.dump)) ∷ [])

  unfoldable pub upserts_object : Case
  upserts_object command snapshot = do
    raw ← item "object" command.payload
    node ← or_raise (P.validate_object raw) validation_error
    prepared "change.apply" "ObjectUpserted" (("object", obj (of_fields (P.dump_object node))) ∷ [])

  unfoldable pub attaches_artifact : Case
  attaches_artifact command snapshot = do
    raw ← item "artifact" command.payload
    artifact ← or_raise (P.validate_artifact raw) validation_error
    prepared "artifact.generate" "ArtifactAttached"
        (("artifact", obj (of_fields (P.dump_artifact artifact))) ∷ [])

  unfoldable pub creates_annotation : Case
  creates_annotation command snapshot = do
    raw ← item "annotation" command.payload
    annotation ← or_raise (P.validate_annotation raw) validation_error
    prepared "annotation.create" "AnnotationCreated"
        (("annotation", obj (of_fields (P.dump_annotation annotation))) ∷ [])

  unfoldable pub changes_annotation_status : Case
  changes_annotation_status command snapshot = do
    uri ← item "annotation_uri" command.payload
    found ← find uri snapshot.annotations
    annotation ← or_raise found (command_rejected "Annotation not found")
    raw ← item "status" command.payload
    let status = P.to_text raw
    raise_if (not (status == "open" || status == "resolved" || status == "rejected"))
        (command_rejected "Invalid annotation status")
    prepared "annotation.create" "AnnotationStatusChanged"
        (("annotation_uri", str annotation.uri) ∷ ("status", str status) ∷ [])

  unfoldable pub records_transition : Case
  records_transition command snapshot = do
    raw ← item "transition" command.payload
    transition ← or_raise (P.validate_history_entry raw) validation_error
    prepared "approval.grant" "LifecycleTransitionRecorded"
        (("transition", obj (of_fields transition.dump)) ∷ [])

  -- `[Class.model_validate(item) for item in items]`, dumped
  abbrev pub dumped_artifacts : List Json → Result (List Json)
  dumped_artifacts [] = ok []
  dumped_artifacts (x ∷ xs) = do
    artifact ← or_raise (P.validate_artifact x) validation_error
    rest ← dumped_artifacts xs
    ok (obj (of_fields (P.dump_artifact artifact)) ∷ rest)

  abbrev pub dumped_objects : List Json → Result (List Json)
  dumped_objects [] = ok []
  dumped_objects (x ∷ xs) = do
    node ← or_raise (P.validate_object x) validation_error
    rest ← dumped_objects xs
    ok (obj (of_fields (P.dump_object node)) ∷ rest)

  unfoldable pub completes_generation : Case
  completes_generation command snapshot = do
    raw_artifacts ← list_at P "artifacts" command.payload
    artifacts ← dumped_artifacts raw_artifacts
    raw_objects ← list_at P "objects" command.payload
    objects ← dumped_objects raw_objects
    prepared "artifact.generate" "GenerationCompleted" (
        put "objects" (arr (of_items objects))
          (put "artifacts" (arr (of_items artifacts)) command.payload))
