-- ===== src/Projector/Views.antt =====
-- The mirrors that src/twinstudio/projector.py keeps in the features of an object.
use twinstudio.Base.{String, Option, none, some, map, ◌==◌, if◌then◌else◌}
use twinstudio.Base.Text.{ends_with}
use twinstudio.Base.Dict.{get, put}
use twinstudio.Domain.Objects.{ParameterValue, derived, FeatureSpec, ObjectNode}

-- `unit or "mm"`
abbrev pub unit_or_mm : Option String → Option String
unit_or_mm none = some "mm"
unit_or_mm (some u) = if u == "" then some "mm" else some u

-- the value that mirrors `boss_top` over the existing one; 0x3ff0000000000000 is 1.0
abbrev pub mirror : Option ParameterValue → ParameterValue → ParameterValue
mirror (some existing) boss_top = record existing {
  value = boss_top.value;
  unit = unit_or_mm boss_top.unit;
}
mirror none boss_top = record {
  value = boss_top.value;
  unit = unit_or_mm boss_top.unit;
  status = derived;
  source_uri = none;
  confidence = 0x3ff0000000000000;
  notes = "Synchronized from the canonical object parameter.";
}

-- the body of the loop over the features
unfoldable pub mirror_feature : ParameterValue → FeatureSpec → FeatureSpec
unfolding ends_with
mirror_feature boss_top f =
    if ends_with "/feature/aux-bosses" f.uri
    then record f {
      parameters =
          put "top_above_base" (mirror (get "top_above_base" f.parameters) boss_top) f.parameters;
    }
    else f

-- `_synchronize_object_parameter_views`
unfoldable pub synchronize : ObjectNode → ObjectNode
unfolding mirror_feature
synchronize node = elim (get "auxiliary_boss_top_z" node.parameters) [
  | none ↦ node
  | some boss_top ↦ record node { features = map (mirror_feature boss_top) node.features }
]
