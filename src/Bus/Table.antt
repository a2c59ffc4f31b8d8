-- ===== src/Bus/Table.antt =====
-- The `match` of `CommandBus._handle_existing` (src/twinstudio/bus.py), as a table from command types.
use twinstudio.Base.{[], ◌∷◌}
use twinstudio.Base.Dict.{Dict}
use twinstudio.Domain.Snapshot.{
  Pydantic, change_plan, design_fixation_review, evolution_run, lifecycle_blueprint, dsl_execution,
  requirement, evidence_claim, projection_map, selection_map, test_plan, power_model, thermal_model,
  failure_mode, human_scenario, ecommerce_offer,
}
use twinstudio.Bus.Cases.{
  Case, passes, records, removes_object, grants_membership, revokes_membership, sets_stage,
  upserts_object, attaches_artifact, creates_annotation, changes_annotation_status,
  records_transition, completes_generation,
}

module _ (P : Pydantic) where
  unfoldable pub cases : Dict Case
  cases =
      ("object.upsert", upserts_object P)
      ∷ ("object.remove", removes_object)
      ∷ ("artifact.attach", attaches_artifact P)
      ∷ ("annotation.create", creates_annotation P)
      ∷ ("annotation.status", changes_annotation_status P)
      ∷ ("change.plan.record", records P "change.plan" "ChangePlanCreated" "plan" change_plan)
      ∷ (
        "design_fixation.review.record",
        records P "change.plan" "DesignFixationReviewRecorded" "review" design_fixation_review,
      )
      ∷ ("evolution.run.record", records P "change.plan" "EvolutionRunRecorded" "run" evolution_run)
      ∷ (
        "lifecycle.blueprint.upsert",
        records P "change.apply" "LifecycleBlueprintUpserted" "blueprint" lifecycle_blueprint,
      )
      ∷ ("lifecycle.transition.record", records_transition P)
      ∷ (
        "dsl.execution.record",
        records P "change.plan" "DslExecutionRecorded" "execution" dsl_execution,
      )
      ∷ ("change.apply", passes "change.apply" "ChangeApplied")
      ∷ ("change.revert", passes "change.apply" "ChangeReverted")
      ∷ ("eda.change.plan", passes "change.plan" "EdaChangePlanned")
      ∷ ("eda.change.plan.failed", passes "change.plan" "EdaChangePlanFailed")
      ∷ ("eda.validation.record", passes "change.plan" "EdaValidationCompleted")
      ∷ ("eda.schematic.analysis.record", passes "change.plan" "EdaSchematicAnalyzed")
      ∷ ("eda.pcb.analysis.record", passes "change.plan" "EdaPcbAnalyzed")
      ∷ ("eda.netlist.analysis.record", passes "change.plan" "EdaNetlistAnalyzed")
      ∷ ("eda.simulation.analysis.record", passes "change.plan" "EdaSimulationAnalyzed")
      ∷ ("svg.analysis.record", passes "change.plan" "SvgAnalyzed")
      ∷ ("eda.candidate.record", passes "change.apply" "EdaCandidateCreated")
      ∷ ("eda.candidate.delete", passes "change.apply" "EdaCandidateDeleted")
      ∷ ("eda.candidate.accept", passes "approval.grant" "EdaChangeAccepted")
      ∷ ("eda.candidate.reject", passes "approval.grant" "EdaChangeRejected")
      ∷ ("eda.revision.promote", passes "change.apply" "EdaRevisionPromoted")
      ∷ ("eda.revision.revert", passes "change.apply" "EdaChangeReverted")
      ∷ ("eda.history.import", passes "change.apply" "EdaHistoryImported")
      ∷ ("project.update.record", passes "change.plan" "ProjectUpdateRecorded")
      ∷ ("membership.grant", grants_membership)
      ∷ ("membership.revoke", revokes_membership)
      ∷ ("lifecycle.set", sets_stage)
      ∷ (
        "requirement.upsert",
        records P "change.apply" "RequirementUpserted" "requirement" requirement,
      )
      ∷ ("claim.add", records P "change.plan" "EvidenceClaimed" "claim" evidence_claim)
      ∷ (
        "projection_map.upsert",
        records P "change.apply" "ProjectionMapUpserted" "projection_map" projection_map,
      )
      ∷ (
        "selection_map.record",
        records P "change.plan" "SelectionMapResolved" "selection_map" selection_map,
      )
      ∷ ("test_plan.upsert", records P "change.apply" "TestPlanUpserted" "test_plan" test_plan)
      ∷ ("power.set", records P "change.apply" "PowerModelSet" "power_model" power_model)
      ∷ ("thermal.set", records P "change.apply" "ThermalModelSet" "thermal_model" thermal_model)
      ∷ (
        "failure_mode.add",
        records P "change.apply" "FailureModeAdded" "failure_mode" failure_mode,
      )
      ∷ (
        "human_scenario.upsert",
        records P "change.apply" "HumanScenarioUpserted" "scenario" human_scenario,
      )
      ∷ (
        "ecommerce_offer.upsert",
        records P "change.apply" "EcommerceOfferUpserted" "offer" ecommerce_offer,
      )
      ∷ ("generation.request", passes "artifact.generate" "GenerationRequested")
      ∷ ("generation.complete", completes_generation P)
      ∷ ("generation.fail", passes "artifact.generate" "GenerationFailed")
      ∷ ("simulation.request", passes "simulation.run" "SimulationRunRequested")
      ∷ ("approval.grant", passes "approval.grant" "ApprovalGranted")
      ∷ []
