-- ===== src/Projector/Replay.antt =====
-- `apply_event` and `project_from_events` of src/twinstudio/projector.py.
pub mod Folds
pub mod Versions
use twinstudio.Base.{
  ℕ, String, Bool, true, false, Option, none, some, List, [], ◌∷◌, ◌++◌, any, Result, ok, err,
  ◌>>=◌, ◌>>◌, or_raise, attribute_error, validation_error, project_not_found, ◌==◌, if◌then◌else◌,
}
use twinstudio.Base.Dict.{Dict, get, put}
use twinstudio.Base.Json.{Json, str, arr, nil, cons, Items}
use twinstudio.Domain.Objects.{Instant}
use twinstudio.Domain.Envelopes.{EventEnvelope}
use twinstudio.Domain.Snapshot.{ProjectSnapshot, Pydantic}
use twinstudio.Projector.Changes.{change_applied}
use twinstudio.Projector.Handlers.{
  Handler, membership_granted, membership_revoked, object_upserted, object_removed,
  artifact_attached, generation_completed, annotation_created, annotation_status_changed,
  change_plan_created, design_fixation_review_recorded, evolution_run_recorded,
  lifecycle_blueprint_upserted, lifecycle_transition_recorded, dsl_execution_recorded,
  requirement_upserted, evidence_claimed, projection_map_upserted, selection_map_resolved,
  test_plan_upserted, lifecycle_stage_changed, power_model_set, thermal_model_set,
  failure_mode_added, human_scenario_upserted, ecommerce_offer_upserted,
}

-- `_AUDIT_ONLY_EVENTS`
unfoldable pub audit_only : List String
audit_only =
    "InvitationRequested" ∷ "InvitationApproved" ∷ "ApprovalGranted" ∷ "SimulationRunRequested"
    ∷ "SimulationRunCompleted" ∷ "GenerationRequested" ∷ "GenerationFailed" ∷ "EdaChangePlanned"
    ∷ "EdaChangePlanFailed" ∷ "EdaValidationCompleted" ∷ "EdaCandidateCreated"
    ∷ "EdaCandidateDeleted" ∷ "EdaChangeAccepted" ∷ "EdaChangeRejected" ∷ "EdaRevisionPromoted"
    ∷ "EdaChangeReverted" ∷ "EdaHistoryImported" ∷ "ProjectUpdateRecorded" ∷ []

-- `metadata.setdefault("unhandled_events", []).append(event_type)`
abbrev snoc : Items → Json → Items
snoc nil x = cons x nil
snoc (cons y ys) x = cons y (snoc ys x)

abbrev appended : String → Option Json → Result Json
appended event_type none = ok (arr (cons (str event_type) nil))
appended event_type (some (arr xs)) = ok (arr (snoc xs (str event_type)))
appended event_type (some _) = err attribute_error

unfoldable pub note_unhandled : String → ProjectSnapshot → Result ProjectSnapshot
note_unhandled event_type snapshot = do
  noted ← appended event_type (get "unhandled_events" snapshot.metadata)
  ok (record snapshot { metadata = put "unhandled_events" noted snapshot.metadata })

module _ (P : Pydantic) where
  -- `_EVENT_HANDLERS`
  unfoldable pub handlers : Dict Handler
  handlers =
      ("MembershipGranted", membership_granted)
      ∷ ("MembershipRevoked", membership_revoked)
      ∷ ("ObjectUpserted", object_upserted P)
      ∷ ("ObjectRemoved", object_removed)
      ∷ ("ArtifactAttached", artifact_attached P)
      ∷ ("GenerationCompleted", generation_completed P)
      ∷ ("AnnotationCreated", annotation_created P)
      ∷ ("AnnotationStatusChanged", annotation_status_changed P)
      ∷ ("ChangePlanCreated", change_plan_created P)
      ∷ ("DesignFixationReviewRecorded", design_fixation_review_recorded P)
      ∷ ("EvolutionRunRecorded", evolution_run_recorded P)
      ∷ ("LifecycleBlueprintUpserted", lifecycle_blueprint_upserted P)
      ∷ ("LifecycleTransitionRecorded", lifecycle_transition_recorded P)
      ∷ ("DslExecutionRecorded", dsl_execution_recorded P)
      ∷ ("DslProgramRecorded", dsl_execution_recorded P)
      ∷ ("ChangeApplied", change_applied P)
      ∷ ("ChangeReverted", change_applied P)
      ∷ ("RequirementUpserted", requirement_upserted P)
      ∷ ("EvidenceClaimed", evidence_claimed P)
      ∷ ("ProjectionMapUpserted", projection_map_upserted P)
      ∷ ("SelectionMapResolved", selection_map_resolved P)
      ∷ ("TestPlanUpserted", test_plan_upserted P)
      ∷ ("LifecycleStageChanged", lifecycle_stage_changed P)
      ∷ ("PowerModelSet", power_model_set P)
      ∷ ("ThermalModelSet", thermal_model_set P)
      ∷ ("FailureModeAdded", failure_mode_added P)
      ∷ ("HumanScenarioUpserted", human_scenario_upserted P)
      ∷ ("EcommerceOfferUpserted", ecommerce_offer_upserted P)
      ∷ []

  -- the three ways of `apply_event` to treat an event
  unfoldable pub dispatch : EventEnvelope → ProjectSnapshot → Result ProjectSnapshot
  unfolding note_unhandled
  dispatch event snapshot = elim (get event.event_type handlers) [
    | some handler ↦ handler snapshot event.payload
    | none ↦
        if any (λ t. t == event.event_type) audit_only
        then ok snapshot
        else note_unhandled event.event_type snapshot
  ]

  unfoldable pub apply_event : ProjectSnapshot → EventEnvelope → Result ProjectSnapshot
  unfolding dispatch
  apply_event snapshot event = do
    handled ← dispatch event snapshot
    ok (record handled { stream_version = event.stream_version; updated_at = event.occurred_at })

  -- `ProjectSnapshot.model_validate(event.data)`, with the version of the event
  unfoldable pub created : EventEnvelope → Result ProjectSnapshot
  created event = do
    snapshot ← or_raise (P.validate_snapshot event.payload) validation_error
    ok (record snapshot { stream_version = event.stream_version })

  -- an event of another type than `ProjectCreated`, on the snapshot so far
  unfoldable pub applied : Option ProjectSnapshot → EventEnvelope → Result (Option ProjectSnapshot)
  unfolding apply_event
  applied none event = err (project_not_found "Project stream does not begin with ProjectCreated")
  applied (some snapshot) event = do s ← apply_event snapshot event; ok (some s)

  -- one round of the loop of `project_from_events`
  unfoldable pub project_step :
      Option ProjectSnapshot → EventEnvelope → Result (Option ProjectSnapshot)
  unfolding created applied
  project_step snapshot event =
      if event.event_type == "ProjectCreated"
      then (do s ← created event; ok (some s))
      else applied snapshot event

  unfoldable pub project_loop :
      Option ProjectSnapshot → List EventEnvelope → Result (Option ProjectSnapshot)
  unfolding project_step
  project_loop snapshot [] = ok snapshot
  project_loop snapshot (e ∷ es) = project_step snapshot e >>= λ s. project_loop s es

  unfoldable pub project_from_events : List EventEnvelope → Result ProjectSnapshot
  unfolding project_loop
  project_from_events events = do
    snapshot ← project_loop none events
    or_raise snapshot (project_not_found "Project stream is empty")
