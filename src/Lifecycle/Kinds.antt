-- ===== src/Lifecycle/Kinds.antt =====
-- The enums of src/twinstudio/domain.py and src/twinstudio/evolution_models.py that stages are described by.
use twinstudio.Base.{List, [], ◌∷◌}

pub data EvolutionMethod : Type 0 where
  goal_ladder object_decomposition bidirectional_graph feature_lenses adjacent_possible :
      EvolutionMethod
  brainswarm analogy assumption_reversal constraint_relaxation mutation recombination :
      EvolutionMethod
  experiment : EvolutionMethod

pub data ChangeOperationKind : Type 0 where
  set_parameter add_feature suppress_feature transform_feature boolean_cut boolean_add :
      ChangeOperationKind
  replace_component update_manufacturing attach_requirement add_test add_annotation :
      ChangeOperationKind

pub data ArtifactKind : Type 0 where
  photo video pdf drawing_2d cad_source step stl obj glb pcb schematic gerber bom : ArtifactKind
  software_source container_image test_result simulation_result product_listing other : ArtifactKind

-- `list(ChangeOperationKind)`
abbrev pub all_operations : List ChangeOperationKind
all_operations =
    set_parameter ∷ add_feature ∷ suppress_feature ∷ transform_feature ∷ boolean_cut ∷ boolean_add
    ∷ replace_component ∷ update_manufacturing ∷ attach_requirement ∷ add_test ∷ add_annotation ∷ []
