-- ===== src/Examples/Plans.antt =====
-- The theorems on plans of changes, applied.
use twinstudio.Base.{
  ◌+◌, ◌-◌, ◌*◌, String, ◌≡◌, refl, inr, false, true, Option, none, some, List, [], ◌∷◌, is_empty,
  Result, ok, err, type_error, ltb, leb, ◌==◌, if◌then◌else◌,
}
use twinstudio.Base.Dict.{Dict}
use twinstudio.Base.Json.{Json, Float, null, float, obj, end}
use twinstudio.Domain.Objects.{Scalar, decimal, approved, ParameterValue, ObjectNode}
use twinstudio.Domain.Snapshot.{ProjectSnapshot, Pydantic}
use twinstudio.Base.Letters.{decimal as digits_of}
use twinstudio.Projector.Changes.{change_applied}
use twinstudio.Planner.{ChangePlan, RegionSelection, Housing, Tools}
use twinstudio.Planner.Readings.{absolute_pattern}
use twinstudio.Planner.Plans.{Job, failed, PlannerResult, first_target, local_plan, plan}
use twinstudio.Planner.Payload.{
  Dumps, Compiled, compiled_of, compile_apply_payload, owning_object_uri,
}
use twinstudio.Planner.Scopes.{IsScoped, plan-IsScoped}
use twinstudio.Planner.Targets.{IsOn, local_plan-IsOn}
use twinstudio.Planner.Owners.{IsOwner, owning_object_uri-IsOwner}
use twinstudio.Planner.Replays.{change_applied-compile_apply_payload}
use twinstudio.Examples.{lamp, strict}
use twinstudio.Examples.Addresses.{urls}

abbrev housing : Housing
housing = record { boss_top = 30; lid_height = 25; lid_top_thickness = 2 }

abbrev matches : String → String → Option (List String)
matches pattern s = if pattern == absolute_pattern then some ("21" ∷ "mm" ∷ []) else none

abbrev float_of : Json → Result Float
float_of (float x) = ok x
float_of _ = err type_error

-- numbers in place of floats, and a search that finds a measure only
abbrev tools : Tools
tools = record {
  of_int = λ i. 0;
  parse_float = λ s. 21;
  float_of = float_of;
  add = λ x y. x + y;
  subtract = λ x y. x - y;
  multiply = λ x y. x * y;
  is_less = ltb;
  at_most = leb;
  absolute = λ x. x;
  round_6 = λ x. x;
  general = λ x. "21";
  is_finite = λ x. true;
  lower_case = λ s. s;
  casefold = λ s. s;
  decompose = λ s. s;
  combining = λ c. false;
  search = matches;
  housing_config = λ project. ok housing;
  default_housing = housing;
}

abbrev height : ParameterValue
height = record {
  value = decimal 25;
  unit = some "mm";
  status = approved;
  source_uri = none;
  confidence = 0x3ff0000000000000;
  notes = "";
}

abbrev lid : ObjectNode
lid = record {
  uri = "/lamp@A/part/lid";
  parent_uri = none;
  name = "Lid";
  kind = "part";
  description = "";
  quantity = 0x3ff0000000000000;
  revision = "main";
  parameters = ("height", height) ∷ [];
  features = [];
  manufacturing = obj end;
  inclusion = obj end;
  artifact_uris = [];
  tags = [];
  metadata = [];
}

abbrev housed : ProjectSnapshot
housed = record lamp {
  objects = (lid.uri, lid) ∷ ("/lamp@A/part", record lid { uri = "/lamp@A/part" }) ∷ [];
}

abbrev selection : RegionSelection
selection = record {
  uri = "/lamp@A/selection/1";
  source_view = "3d";
  target_object_uris = lid.uri ∷ [];
  ray_hits = none ∷ [];
  projection_entity_ids = [];
}

abbrev job : Job
job = record {
  ids = λ n. "op";
  stamp = record { plan_id = "plan"; now = 2000 };
  prompt = "height to 21 mm";
  selection = selection;
  project = housed;
  actor = "ann@example.org";
}

abbrev blank : ChangePlan
blank = record {
  plan_id = "plan";
  project_id = "lamp";
  base_revision = "A";
  prompt = "";
  selection_uri = "";
  selected_scope_uris = [];
  operations = [];
  impact = [];
  assumptions = [];
  unresolved_questions = [];
  requires_approval = true;
  planner = "";
  created_by = "";
  created_at = 2000;
}

abbrev returned {ℓ} : {A : Type ℓ} → A → Result A → A
returned default (ok x) = x
returned default (err e) = default

abbrev the_result : PlannerResult
the_result =
    returned (record { plan = blank; mode = ""; message = "" }) (plan tools urls job "model" failed)

plan-IsScoped_example : IsScoped urls job the_result.plan
unfolding plan
plan-IsScoped_example = plan-IsScoped tools urls job "model" failed the_result refl

local_plan-IsOn_example :
    let p = returned blank (local_plan tools urls job) in
    (is_empty p.operations ≡ false)
    × ((target : String) × (first_target (lid.uri ∷ []) ≡ ok target) × IsOn target p.operations)
unfolding local_plan
local_plan-IsOn_example =
    local_plan-IsOn tools urls job (returned blank (local_plan tools urls job)) refl

owning_object_uri-IsOwner_example : IsOwner urls "/lamp@B/part/lid/face" housed "/lamp@A/part/lid"
unfolding owning_object_uri
owning_object_uri-IsOwner_example =
    owning_object_uri-IsOwner urls "/lamp@B/part/lid/face" housed "/lamp@A/part/lid" refl

abbrev assign_scalar : Json → Option Scalar
assign_scalar (float x) = some (decimal x)
assign_scalar _ = none

-- pydantic that takes texts and floats
abbrev lenient : Pydantic
lenient = record strict { assign_unit = λ v. some (some "mm"); assign_scalar = assign_scalar }

abbrev dumps : Dumps
dumps = record { dump_parameter = λ p. null; dump_operation = λ o. null }

abbrev compiled : Compiled
compiled =
    returned (record { patches = []; deferred = [] })
      (compiled_of tools dumps urls the_result.plan housed)

change_applied-compile_apply_payload_example :
    (payload : Dict Json) × (compile_apply_payload tools dumps urls the_result.plan housed
      ≡ ok payload)
    × (s : ProjectSnapshot) × (change_applied lenient housed payload ≡ ok s)
    × (s.revision ≡ "rev-2")
unfolding plan compiled_of compile_apply_payload change_applied digits_of
change_applied-compile_apply_payload_example =
    change_applied-compile_apply_payload lenient tools dumps urls the_result.plan housed housed
      compiled (λ t. refl) refl
      (
        (("height", refl), (decimal 21, refl), inr ("mm", some "mm", refl, refl)),
        (
          (("auxiliary_boss_top_z", refl), (decimal 26, refl), inr ("mm", some "mm", refl, refl)),
          tt,
        ),
      )
