-- ===== src/Examples/Proposals.antt =====
-- The theorem on EDA operation proposals, applied.
use twinstudio.Base.{
  String, ◌≡◌, refl, some, List, [], ◌∷◌, Result, ok, err, value_error, ◌==◌, if◌then◌else◌, true,
}
use twinstudio.Base.Letters.{size}
use twinstudio.Base.Json.{Json, null, str, obj, Items, nil, cons, end, field, items}
use twinstudio.EdaPlanner.{
  propose, EdaOperationProposal, Route, Services, operation_ids, propose_eda_operation,
}
use twinstudio.EdaPlanner.Choice.{IsAllowed, IsFirst, propose_eda_operation-IsAllowed}

abbrev routing : EdaOperationProposal
routing = record {
  decision = propose;
  operation = some "route_board";
  input = ("layer", str "top") ∷ [];
  why = "asked";
  interpretation = "route";
  limitations = [];
}

abbrev route : String → Route
route mode = record { kwargs = null; mode = mode; supports_response_schema = true }

-- the first route answers nothing, the second in a fence
abbrev completion : Route → Result Json
completion r = if r.mode == "first" then ok (str " ") else ok (str "```json\n{}\n```")

abbrev loads : String → Result Json
loads s = if s == "{}" then ok (obj end) else err (value_error "JSON")

abbrev services : Services
services = record {
  dumps = λ v. ok "{}";
  loads = loads;
  read_fields = λ v. ok routing;
  repr = λ v. "";
  utf8_size = size;
  completion = completion;
}

abbrev offered : Items
offered = cons (obj (field "id" (str "route_board") end)) nil

propose_eda_operation-IsAllowed_example :
    IsAllowed (operation_ids (items offered)) routing
    × ((routes : List Route) × (ok (route "first" ∷ route "second" ∷ []) ≡ ok routes)
        × IsFirst services (operation_ids (items offered)) routes routing "second")
unfolding propose_eda_operation
propose_eda_operation-IsAllowed_example =
    propose_eda_operation-IsAllowed services null offered null
      (ok (route "first" ∷ route "second" ∷ [])) routing "second" refl
