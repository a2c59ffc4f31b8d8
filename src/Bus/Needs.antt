-- ===== src/Bus/Needs.antt =====
-- The permission that each case of src/twinstudio/bus.py asks for.
use twinstudio.Base.{String, ◌≡◌, arith, ok}
use twinstudio.Domain.Envelopes.{CommandEnvelope}
use twinstudio.Domain.Snapshot.{ProjectSnapshot, Pydantic, ModelClass}
use twinstudio.Bus.Cases.{
  Prepared, Case, passes, records, removes_object, grants_membership, revokes_membership,
  sets_stage, upserts_object, attaches_artifact, creates_annotation, changes_annotation_status,
  records_transition, completes_generation,
}

-- Where the case gets as far as a permission and an event type, they are these.
pub record Needs (case : Case) (permission event_type : String) : Type 0 where
  pub of :
      (command : CommandEnvelope) (snapshot : ProjectSnapshot) (p : Prepared)
      → case command snapshot ≡ ok p
      → (p.permission ≡ permission) × (p.event_type ≡ event_type)

pub passes-Needs :
    (permission event_type : String) → Needs (passes permission event_type) permission event_type
unfolding passes
passes-Needs permission event_type = record { of = λ c s p h. ground arith }

pub removes_object-Needs : Needs removes_object "change.apply" "ObjectRemoved"
unfolding removes_object
removes_object-Needs = record { of = λ c s p h. ground arith }

pub grants_membership-Needs : Needs grants_membership "membership.manage" "MembershipGranted"
unfolding grants_membership
grants_membership-Needs = record { of = λ c s p h. ground arith }

pub revokes_membership-Needs : Needs revokes_membership "membership.manage" "MembershipRevoked"
unfolding revokes_membership
revokes_membership-Needs = record { of = λ c s p h. ground arith }

pub sets_stage-Needs : Needs sets_stage "approval.grant" "LifecycleStageChanged"
unfolding sets_stage
sets_stage-Needs = record { of = λ c s p h. ground arith }

module _ (P : Pydantic) where
  pub records-Needs :
      (permission event_type field : String) (cls : ModelClass)
      → Needs (records P permission event_type field cls) permission event_type
  unfolding records
  records-Needs permission event_type field cls = record { of = λ c s p h. ground arith }

  pub upserts_object-Needs : Needs (upserts_object P) "change.apply" "ObjectUpserted"
  unfolding upserts_object
  upserts_object-Needs = record { of = λ c s p h. ground arith }

  pub attaches_artifact-Needs : Needs (attaches_artifact P) "artifact.generate" "ArtifactAttached"
  unfolding attaches_artifact
  attaches_artifact-Needs = record { of = λ c s p h. ground arith }

  pub creates_annotation-Needs :
      Needs (creates_annotation P) "annotation.create" "AnnotationCreated"
  unfolding creates_annotation
  creates_annotation-Needs = record { of = λ c s p h. ground arith }

  pub changes_annotation_status-Needs :
      Needs (changes_annotation_status P) "annotation.create" "AnnotationStatusChanged"
  unfolding changes_annotation_status
  changes_annotation_status-Needs = record { of = λ c s p h. ground arith }

  pub records_transition-Needs :
      Needs (records_transition P) "approval.grant" "LifecycleTransitionRecorded"
  unfolding records_transition
  records_transition-Needs = record { of = λ c s p h. ground arith }

  pub completes_generation-Needs :
      Needs (completes_generation P) "artifact.generate" "GenerationCompleted"
  unfolding completes_generation
  completes_generation-Needs = record { of = λ c s p h. ground arith }
