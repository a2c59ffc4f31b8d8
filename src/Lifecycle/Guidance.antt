-- ===== src/Lifecycle/Guidance.antt =====
-- What src/twinstudio/lifecycle.py says of each stage: `_STAGE_PURPOSE`, `_stage_methods`, `_allowed_operations`,
-- `_required_artifacts` and `_required_tests`.
use twinstudio.Base.{String, Bool, none, some, List, [], ◌∷◌, ◌++◌, first, any, if◌then◌else◌, ◌==◌}
use twinstudio.Domain.Stages.{
  LifecycleStage, value, evidence, discovery, problem_framing, opportunity, requirements, concept,
  feasibility, architecture, detailed_design, design_review, prototype, integration, verification,
  validation, compliance, pilot, pilot_production, industrialization, release, production,
  quality_control, fulfillment, operation, monitoring, maintenance, service, improvement, upgrade,
  recall, reuse, reuse_remanufacture, retirement, recycling, end_of_life,
}
use twinstudio.Lifecycle.Kinds.{
  ArtifactKind, ChangeOperationKind, EvolutionMethod, add_annotation, add_test, adjacent_possible,
  all_operations, assumption_reversal, attach_requirement, bidirectional_graph, bom, brainswarm,
  cad_source, constraint_relaxation, drawing_2d, experiment, feature_lenses, goal_ladder, mutation,
  object_decomposition, pdf, recombination, set_parameter, step, test_result, update_manufacturing,
}

-- stages are compared by their values, as the enum of texts does
abbrev pub stage_eq : LifecycleStage → LifecycleStage → Bool
stage_eq a b = value a == value b

-- `stage in stages`
abbrev pub among : LifecycleStage → List LifecycleStage → Bool
among stage stages = any (λ s. stage_eq s stage) stages

unfoldable pub stage_purposes : List (LifecycleStage × String)
stage_purposes =
    (opportunity, "Identify value, stakeholders and the opportunity worth pursuing.")
    ∷ (discovery, "Observe context, users, interfaces and present evidence.")
    ∷ (evidence, "Collect source artifacts and separate facts from assumptions.")
    ∷ (problem_framing, "Express the desired outcome without fixing the current mechanism.")
    ∷ (requirements, "Define measurable needs, constraints and verification routes.")
    ∷ (concept, "Generate diverse mechanisms and architectures.")
    ∷ (feasibility, "Retire dominant technical, commercial and supply uncertainties.")
    ∷ (architecture, "Allocate functions, modules, interfaces and responsibilities.")
    ∷ (detailed_design, "Complete geometry, electronics, software, tolerances and documentation.")
    ∷ (design_review, "Review cross-domain consistency, risks and readiness to build.")
    ∷ (prototype, "Build representative artifacts for learning.")
    ∷ (integration, "Integrate mechanical, electrical, software and human interfaces.")
    ∷ (verification, "Verify implementation against requirements.")
    ∷ (validation, "Validate intended use with representative users and contexts.")
    ∷ (compliance, "Establish conformity and required technical evidence.")
    ∷ (pilot, "Demonstrate the product and process at limited scale.")
    ∷ (pilot_production, "Demonstrate production readiness at limited volume.")
    ∷ (industrialization, "Stabilize process, supply, quality and work instructions.")
    ∷ (release, "Freeze and package approved product and production baselines.")
    ∷ (production, "Build released products under controlled change.")
    ∷ (quality_control, "Inspect and control production conformance.")
    ∷ (fulfillment, "Package, configure, distribute and deliver products.")
    ∷ (operation, "Deliver intended value in real use.")
    ∷ (monitoring, "Observe field performance, failures and emerging needs.")
    ∷ (maintenance, "Restore function and manage wear.")
    ∷ (service, "Diagnose, repair and support products in the field.")
    ∷ (improvement, "Convert operational evidence into controlled product evolution.")
    ∷ (upgrade, "Extend capability while retaining long-lived value.")
    ∷ (recall, "Control unsafe or materially nonconforming field populations.")
    ∷ (reuse, "Prepare components or products for another use.")
    ∷ (reuse_remanufacture, "Recover, restore and requalify long-lived value.")
    ∷ (retirement, "Remove products from service safely and preserve records.")
    ∷ (recycling, "Separate and recover materials responsibly.")
    ∷ (end_of_life, "Close obligations and dispose of unrecoverable residuals.")
    ∷ []

unfoldable pub purpose_of : LifecycleStage → String
unfolding stage_purposes
purpose_of stage = elim (first (λ row. stage_eq row.0 stage) stage_purposes) [
  | none ↦ "Manage this product lifecycle stage."
  | some row ↦ row.1
]

unfoldable pub stage_methods : LifecycleStage → List EvolutionMethod
stage_methods stage =
    if among stage (problem_framing ∷ opportunity ∷ [])
    then goal_ladder ∷ assumption_reversal ∷ constraint_relaxation ∷ brainswarm ∷ []
    else if among stage (concept ∷ architecture ∷ [])
    then object_decomposition ∷ bidirectional_graph ∷ feature_lenses ∷ adjacent_possible
      ∷ recombination ∷ []
    else if among stage (feasibility ∷ prototype ∷ verification ∷ [])
    then experiment ∷ mutation ∷ feature_lenses ∷ []
    else if among stage (operation ∷ monitoring ∷ improvement ∷ [])
    then feature_lenses ∷ adjacent_possible ∷ experiment ∷ []
    else feature_lenses ∷ []

abbrev pub observation_only : List ChangeOperationKind
observation_only = add_annotation ∷ attach_requirement ∷ []

unfoldable pub allowed_operations : LifecycleStage → List ChangeOperationKind
allowed_operations stage =
    if among stage (opportunity ∷ discovery ∷ evidence ∷ problem_framing ∷ requirements ∷ [])
    then observation_only ++ add_test ∷ []
    else if among stage (
        concept ∷ feasibility ∷ architecture ∷ detailed_design ∷ prototype ∷ integration
        ∷ improvement ∷ upgrade ∷ [])
    then all_operations
    else observation_only ++ set_parameter ∷ update_manufacturing ∷ add_test ∷ []

unfoldable pub required_artifacts : LifecycleStage → List ArtifactKind
required_artifacts stage =
    if stage_eq stage detailed_design
    then cad_source ∷ drawing_2d ∷ bom ∷ []
    else if among stage (prototype ∷ verification ∷ validation ∷ [])
    then test_result ∷ []
    else if stage_eq stage release
    then cad_source ∷ step ∷ bom ∷ pdf ∷ []
    else if among stage (production ∷ quality_control ∷ [])
    then drawing_2d ∷ bom ∷ test_result ∷ []
    else []

unfoldable pub required_tests : LifecycleStage → List String
required_tests stage =
    if stage_eq stage verification
    then "mechanical" ∷ "electrical" ∷ "thermal" ∷ "software" ∷ "manufacturing" ∷ []
    else if stage_eq stage validation
    then "human_use" ∷ "field_context" ∷ []
    else if stage_eq stage compliance
    then "regulatory" ∷ "safety" ∷ "emc" ∷ []
    else if among stage (pilot ∷ pilot_production ∷ production ∷ [])
    then "manufacturing" ∷ "inspection" ∷ []
    else []
