-- ===== src/Bus/Guards.antt =====
-- Who may give which command: the table of src/twinstudio/bus.py against the roles.
use twinstudio.Base.{
  String, ◌≡◌, refl, Bool, true, false, not, ◌||◌, ◌&&◌, none, some, List, [], ◌∷◌, any, Bool-cases,
  inl, inr, ◌==◌, eq_iff,
}
use mathlib.Core.Path.{subst₂}
use twinstudio.Base.Dict.{Dict, get}
use twinstudio.Domain.Roles.{reader, editor}
use twinstudio.Domain.Snapshot.{
  Pydantic, change_plan, design_fixation_review, evolution_run, lifecycle_blueprint, dsl_execution,
  requirement, evidence_claim, projection_map, selection_map, test_plan, power_model, thermal_model,
  failure_mode, human_scenario, ecommerce_offer,
}
use twinstudio.Permissions.{has_permission}
use twinstudio.Projector.Replay.{audit_only, handlers}
use twinstudio.Bus.Cases.{Case}
use twinstudio.Bus.Table.{cases}
use twinstudio.Bus.Needs.{
  Needs, passes-Needs, records-Needs, removes_object-Needs, grants_membership-Needs,
  revokes_membership-Needs, sets_stage-Needs, upserts_object-Needs, attaches_artifact-Needs,
  creates_annotation-Needs, changes_annotation_status-Needs, records_transition-Needs,
  completes_generation-Needs,
}

-- The commands by which a human decides: about approvals, stages and memberships.
abbrev pub approver_commands : List String
approver_commands =
    "approval.grant" ∷ "eda.candidate.accept" ∷ "eda.candidate.reject" ∷ "lifecycle.set"
    ∷ "lifecycle.transition.record" ∷ "membership.grant" ∷ "membership.revoke" ∷ []

-- The commands whose events the projection neither applies nor knows as audit records.
abbrev pub unprojected_commands : List String
unprojected_commands =
    "eda.schematic.analysis.record" ∷ "eda.pcb.analysis.record" ∷ "eda.netlist.analysis.record"
    ∷ "eda.simulation.analysis.record" ∷ "svg.analysis.record" ∷ []

abbrev pub is_in : String → List String → Bool
is_in t ts = any (λ x. x == t) ts

abbrev pub has_handler : Pydantic → String → Bool
has_handler P event_type = elim (get event_type (handlers P)) [ none ↦ false | some _ ↦ true ]

-- What holds of the entry of a command.
pub record IsGuarded (P : Pydantic) (command_type : String) (case : Case) : Type 0 where
  pub permission : String
  pub event_type : String
  pub needs : Needs case permission event_type
  pub no_reader : has_permission (some reader) permission ≡ false
  pub approver :
      (is_in command_type approver_commands && has_permission (some editor) permission) ≡ false
  pub not_creation : (event_type == "ProjectCreated") ≡ false
  pub projected :
      (has_handler P event_type || is_in event_type audit_only)
      ≡ not (is_in command_type unprojected_commands)

-- The same of every entry of a table.
infixr 20 ◌⊕◌
data AllGuarded (P : Pydantic) : Dict Case → Type 0 where
  done : AllGuarded P []
  ◌⊕◌ :
      {k : String} {case : Case} {d : Dict Case}
      → IsGuarded P k case
      → AllGuarded P d
      → AllGuarded P ((k, case) ∷ d)

module _ (P : Pydantic) where
  guarded :
      {k permission event_type : String} {case : Case}
      → Needs case permission event_type
      → has_permission (some reader) permission ≡ false
      → (is_in k approver_commands && has_permission (some editor) permission) ≡ false
      → (event_type == "ProjectCreated") ≡ false
      → (has_handler P event_type || is_in event_type audit_only)
        ≡ not (is_in k unprojected_commands)
      → IsGuarded P k case
  guarded {k} {permission} {event_type} n r a c h = record {
    permission = permission;
    event_type = event_type;
    needs = n;
    no_reader = r;
    approver = a;
    not_creation = c;
    projected = h;
  }

  cases-AllGuarded : AllGuarded P (cases P)
  unfolding cases has_permission handlers audit_only
  cases-AllGuarded =
      guarded (upserts_object-Needs P) refl refl refl refl
      ⊕ guarded (removes_object-Needs) refl refl refl refl
      ⊕ guarded (attaches_artifact-Needs P) refl refl refl refl
      ⊕ guarded (creates_annotation-Needs P) refl refl refl refl
      ⊕ guarded (changes_annotation_status-Needs P) refl refl refl refl
      ⊕ guarded (records-Needs P "change.plan" "ChangePlanCreated" "plan" change_plan) refl refl
          refl refl
      ⊕ guarded
          (records-Needs P "change.plan" "DesignFixationReviewRecorded" "review"
            design_fixation_review)
          refl refl refl refl
      ⊕ guarded (records-Needs P "change.plan" "EvolutionRunRecorded" "run" evolution_run) refl refl
          refl refl
      ⊕ guarded
          (records-Needs P "change.apply" "LifecycleBlueprintUpserted" "blueprint"
            lifecycle_blueprint)
          refl refl refl refl
      ⊕ guarded (records_transition-Needs P) refl refl refl refl
      ⊕ guarded (records-Needs P "change.plan" "DslExecutionRecorded" "execution" dsl_execution)
          refl refl refl refl
      ⊕ guarded (passes-Needs "change.apply" "ChangeApplied") refl refl refl refl
      ⊕ guarded (passes-Needs "change.apply" "ChangeReverted") refl refl refl refl
      ⊕ guarded (passes-Needs "change.plan" "EdaChangePlanned") refl refl refl refl
      ⊕ guarded (passes-Needs "change.plan" "EdaChangePlanFailed") refl refl refl refl
      ⊕ guarded (passes-Needs "change.plan" "EdaValidationCompleted") refl refl refl refl
      ⊕ guarded (passes-Needs "change.plan" "EdaSchematicAnalyzed") refl refl refl refl
      ⊕ guarded (passes-Needs "change.plan" "EdaPcbAnalyzed") refl refl refl refl
      ⊕ guarded (passes-Needs "change.plan" "EdaNetlistAnalyzed") refl refl refl refl
      ⊕ guarded (passes-Needs "change.plan" "EdaSimulationAnalyzed") refl refl refl refl
      ⊕ guarded (passes-Needs "change.plan" "SvgAnalyzed") refl refl refl refl
      ⊕ guarded (passes-Needs "change.apply" "EdaCandidateCreated") refl refl refl refl
      ⊕ guarded (passes-Needs "change.apply" "EdaCandidateDeleted") refl refl refl refl
      ⊕ guarded (passes-Needs "approval.grant" "EdaChangeAccepted") refl refl refl refl
      ⊕ guarded (passes-Needs "approval.grant" "EdaChangeRejected") refl refl refl refl
      ⊕ guarded (passes-Needs "change.apply" "EdaRevisionPromoted") refl refl refl refl
      ⊕ guarded (passes-Needs "change.apply" "EdaChangeReverted") refl refl refl refl
      ⊕ guarded (passes-Needs "change.apply" "EdaHistoryImported") refl refl refl refl
      ⊕ guarded (passes-Needs "change.plan" "ProjectUpdateRecorded") refl refl refl refl
      ⊕ guarded (grants_membership-Needs) refl refl refl refl
      ⊕ guarded (revokes_membership-Needs) refl refl refl refl
      ⊕ guarded (sets_stage-Needs) refl refl refl refl
      ⊕ guarded (records-Needs P "change.apply" "RequirementUpserted" "requirement" requirement)
          refl refl refl refl
      ⊕ guarded (records-Needs P "change.plan" "EvidenceClaimed" "claim" evidence_claim) refl refl
          refl refl
      ⊕ guarded
          (records-Needs P "change.apply" "ProjectionMapUpserted" "projection_map" projection_map)
          refl refl refl refl
      ⊕ guarded (records-Needs P "change.plan" "SelectionMapResolved" "selection_map" selection_map)
          refl refl refl refl
      ⊕ guarded (records-Needs P "change.apply" "TestPlanUpserted" "test_plan" test_plan) refl refl
          refl refl
      ⊕ guarded (records-Needs P "change.apply" "PowerModelSet" "power_model" power_model) refl refl
          refl refl
      ⊕ guarded (records-Needs P "change.apply" "ThermalModelSet" "thermal_model" thermal_model)
          refl refl refl refl
      ⊕ guarded (records-Needs P "change.apply" "FailureModeAdded" "failure_mode" failure_mode) refl
          refl refl refl
      ⊕ guarded (records-Needs P "change.apply" "HumanScenarioUpserted" "scenario" human_scenario)
          refl refl refl refl
      ⊕ guarded (records-Needs P "change.apply" "EcommerceOfferUpserted" "offer" ecommerce_offer)
          refl refl refl refl
      ⊕ guarded (passes-Needs "artifact.generate" "GenerationRequested") refl refl refl refl
      ⊕ guarded (completes_generation-Needs P) refl refl refl refl
      ⊕ guarded (passes-Needs "artifact.generate" "GenerationFailed") refl refl refl refl
      ⊕ guarded (passes-Needs "simulation.run" "SimulationRunRequested") refl refl refl refl
      ⊕ guarded (passes-Needs "approval.grant" "ApprovalGranted") refl refl refl refl
      ⊕ done

  get-AllGuarded :
      (d : Dict Case) (k : String) (case : Case)
      → AllGuarded P d
      → get k d ≡ some case
      → IsGuarded P k case
  get-AllGuarded [] k case done h = cc
  get-AllGuarded ((j, c) ∷ d) k case (first ⊕ rest) h = elim (Bool-cases (j == k)) [
    | inl here ↦
        let name : j ≡ k = (eq_iff j k).0 here in
        let entry : some c ≡ some case = rw here at h in
        let same : c ≡ case = cc in subst₂ (λ n x. IsGuarded P n x) name same first
    | inr later ↦ get-AllGuarded d k case rest (rw later at h)
  ]

  -- Whatever a command of this type is given, its case is guarded.
  pub case-IsGuarded : (k : String) (case : Case) → get k (cases P) ≡ some case → IsGuarded P k case
  case-IsGuarded k case h = get-AllGuarded (cases P) k case cases-AllGuarded h
