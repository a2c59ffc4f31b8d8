-- ===== src/Planner.antt =====
-- src/twinstudio/change_planner.py: from a request in words to a plan of changes, and from a plan to the payload of
-- `change.apply`. Heights has what the planner reads of src/twinstudio/cad_regeneration.py, Readings the numbers and
-- parameters named in a request, Drafts and Local the plan made without a language model,
-- Dependencies the operations that a lower lid needs, Plans the planner itself and Payload the compiled payload.
pub mod Heights
pub mod Readings
pub mod Drafts
pub mod Local
pub mod Dependencies
pub mod Plans
pub mod Payload
pub mod Owners
pub mod Targets
pub mod Replays
pub mod Extensions
pub mod Scopes
use Prim.Native.Char.{Char}
use twinstudio.Base.{ℕ, String, Bool, Option, List, Result}
use twinstudio.Base.Dict.{Dict}
use twinstudio.Base.Json.{Json, Float, ℤ}
use twinstudio.Domain.Objects.{Instant}
use twinstudio.Domain.Snapshot.{ProjectSnapshot}
use twinstudio.Lifecycle.Kinds.{ChangeOperationKind}

pub record ChangeOperation : Type 0 where
  pub operation_id : String
  pub kind : ChangeOperationKind
  pub target_uri : String
  pub selector : Dict Json
  pub arguments : Dict Json
  pub rationale : String
  pub confidence : Float
  pub reversible : Bool
  pub validation_steps : List String

pub record ImpactItem : Type 0 where
  pub uri : String
  pub impact : String
  pub summary : String

pub record ChangePlan : Type 0 where
  pub plan_id : String
  pub project_id : String
  pub base_revision : String
  pub prompt : String
  pub selection_uri : String
  pub selected_scope_uris : List String
  pub operations : List ChangeOperation
  pub impact : List ImpactItem
  pub assumptions : List String
  pub unresolved_questions : List String
  pub requires_approval : Bool
  pub planner : String
  pub created_by : String
  pub created_at : Instant

-- the fields of `RegionSelection` that are read; of each ray hit, its `semantic_face_uri`
pub record RegionSelection : Type 0 where
  pub uri : String
  pub source_view : String
  pub target_object_uris : List String
  pub ray_hits : List (Option String)
  pub projection_entity_ids : List String

-- the numbers that the planner reads of a configuration of the housing studio
pub record Housing : Type 0 where
  pub boss_top : Float
  pub lid_height : Float
  pub lid_top_thickness : Float

-- What the planner uses of Python and of the housing studio: arithmetic and tests on floats (`float` of an
-- integer that a double can hold, `float(value)`, `+`, `-`, `*`, `<`, `<=`, `abs`, `round(x, 6)`, `{x:g}`, whether a
-- float is a number and finite), `str.lower`, `str.casefold`, `unicodedata`, the groups of `re.search`, the
-- configuration that `housing_config_from_snapshot` builds, and the default one.
pub record Tools : Type 0 where
  pub of_int : ℤ → Float
  pub parse_float : String → Float
  pub float_of : Json → Result Float
  pub add : Float → Float → Float
  pub subtract : Float → Float → Float
  pub multiply : Float → Float → Float
  pub is_less : Float → Float → Bool
  pub at_most : Float → Float → Bool
  pub absolute : Float → Float
  pub round_6 : Float → Float
  pub general : Float → String
  pub is_finite : Float → Bool
  pub lower_case : String → String
  pub casefold : String → String
  pub decompose : String → String
  pub combining : Char → Bool
  pub search : String → String → Option (List String)
  pub housing_config : ProjectSnapshot → Result Housing
  pub default_housing : Housing
