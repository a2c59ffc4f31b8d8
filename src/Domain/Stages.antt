-- ===== src/Domain/Stages.antt =====
-- `LifecycleStage` of src/twinstudio/domain.py.
use twinstudio.Base.{String, ◌≡◌, refl, some, Option, List, [], ◌∷◌, first, ◌==◌}

pub data LifecycleStage : Type 0 where
  evidence discovery problem_framing opportunity requirements goal_reframing ideation concept :
      LifecycleStage
  feasibility architecture detailed_design design_review prototype integration : LifecycleStage
  engineering_verification verification validation compliance pilot pilot_production :
      LifecycleStage
  industrialization release production quality_control fulfillment deployment operation :
      LifecycleStage
  observation monitoring maintenance service improvement evolution upgrade recall reuse :
      LifecycleStage
  reuse_remanufacture retirement decommission recycling circular_recovery end_of_life :
      LifecycleStage

abbrev pub value : LifecycleStage → String
value evidence = "evidence_intake"
value discovery = "discovery"
value problem_framing = "problem_framing"
value opportunity = "opportunity"
value requirements = "requirements"
value goal_reframing = "goal_reframing"
value ideation = "ideation"
value concept = "concept"
value feasibility = "feasibility"
value architecture = "architecture"
value detailed_design = "detailed_design"
value design_review = "design_review"
value prototype = "prototype"
value integration = "integration"
value engineering_verification = "engineering_verification"
value verification = "verification"
value validation = "validation"
value compliance = "compliance"
value pilot = "pilot"
value pilot_production = "pilot_production"
value industrialization = "industrialization"
value release = "release"
value production = "production"
value quality_control = "quality_control"
value fulfillment = "fulfillment"
value deployment = "deployment"
value operation = "operation"
value observation = "observation"
value monitoring = "monitoring"
value maintenance = "maintenance"
value service = "service"
value improvement = "improvement"
value evolution = "evolution"
value upgrade = "upgrade"
value recall = "recall"
value reuse = "reuse"
value reuse_remanufacture = "reuse_remanufacture"
value retirement = "retirement"
value decommission = "decommission"
value recycling = "recycling"
value circular_recovery = "circular_recovery"
value end_of_life = "end_of_life"

abbrev pub all_stages : List LifecycleStage
all_stages =
    evidence ∷ discovery ∷ problem_framing ∷ opportunity ∷ requirements ∷ goal_reframing ∷ ideation
    ∷ concept ∷ feasibility ∷ architecture ∷ detailed_design ∷ design_review ∷ prototype
    ∷ integration ∷ engineering_verification ∷ verification ∷ validation ∷ compliance ∷ pilot
    ∷ pilot_production ∷ industrialization ∷ release ∷ production ∷ quality_control ∷ fulfillment
    ∷ deployment ∷ operation ∷ observation ∷ monitoring ∷ maintenance ∷ service ∷ improvement
    ∷ evolution ∷ upgrade ∷ recall ∷ reuse ∷ reuse_remanufacture ∷ retirement ∷ decommission
    ∷ recycling ∷ circular_recovery ∷ end_of_life ∷ []

-- `LifecycleStage(text)`; `none` stands for the `ValueError`
unfoldable pub of_value : String → Option LifecycleStage
of_value text = first (λ s. value s == text) all_stages

pub of_value-value : (s : LifecycleStage) → of_value (value s) ≡ some s
unfolding of_value
of_value-value evidence = refl
of_value-value discovery = refl
of_value-value problem_framing = refl
of_value-value opportunity = refl
of_value-value requirements = refl
of_value-value goal_reframing = refl
of_value-value ideation = refl
of_value-value concept = refl
of_value-value feasibility = refl
of_value-value architecture = refl
of_value-value detailed_design = refl
of_value-value design_review = refl
of_value-value prototype = refl
of_value-value integration = refl
of_value-value engineering_verification = refl
of_value-value verification = refl
of_value-value validation = refl
of_value-value compliance = refl
of_value-value pilot = refl
of_value-value pilot_production = refl
of_value-value industrialization = refl
of_value-value release = refl
of_value-value production = refl
of_value-value quality_control = refl
of_value-value fulfillment = refl
of_value-value deployment = refl
of_value-value operation = refl
of_value-value observation = refl
of_value-value monitoring = refl
of_value-value maintenance = refl
of_value-value service = refl
of_value-value improvement = refl
of_value-value evolution = refl
of_value-value upgrade = refl
of_value-value recall = refl
of_value-value reuse = refl
of_value-value reuse_remanufacture = refl
of_value-value retirement = refl
of_value-value decommission = refl
of_value-value recycling = refl
of_value-value circular_recovery = refl
of_value-value end_of_life = refl
