-- ===== src/Examples/Lifecycles.antt =====
-- The theorems on lifecycles, applied.
use twinstudio.Base.{◌≡◌, refl, some, [], ◌∷◌, ok, or_raise, attribute_error, if◌then◌else◌}
use twinstudio.Domain.Stages.{of_value, concept, prototype, validation, release}
use twinstudio.Lifecycle.Guidance.{among}
use twinstudio.Lifecycle.Registry.{
  EvolutionCatalog, LifecycleTemplate, LifecycleBlueprint, chain, blueprint, transition, stage_ids,
  start_stage, validate_stage_graph,
}
use twinstudio.Lifecycle.Chains.{IsChain, blueprint-IsChain, transition_lem, found_of, next_of}
use twinstudio.Lifecycle.Starts.{blueprint-total}

abbrev template : LifecycleTemplate
template = record { name = "Small"; stages = concept ∷ prototype ∷ release ∷ [] }

abbrev catalog : EvolutionCatalog
catalog = record { catalog_version = "1"; lifecycle_templates = ("small", template) ∷ [] }

abbrev small : LifecycleBlueprint
small = chain catalog "small" template (concept ∷ prototype ∷ release ∷ []) prototype

blueprint-IsChain_example : IsChain catalog "small" small
unfolding blueprint start_stage of_value validate_stage_graph
blueprint-IsChain_example = blueprint-IsChain catalog "small" (some "prototype") small refl

transition_lem_example :
    transition small "release"
    ≡ or_raise
        (found_of prototype release (next_of prototype (stage_ids small.stages)))
        attribute_error
unfolding blueprint start_stage of_value validate_stage_graph
transition_lem_example = transition_lem catalog "small" (some "prototype") small release refl

blueprint-total_example :
    (b : LifecycleBlueprint) × (blueprint catalog "small" (some "validation") ≡ ok b)
    × (b.current_stage
        ≡ (if among validation (concept ∷ prototype ∷ release ∷ []) then validation else concept))
blueprint-total_example =
    blueprint-total catalog "small" template concept (prototype ∷ release ∷ []) validation refl refl
      refl
