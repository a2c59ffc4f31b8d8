-- ===== src/EdaPlanner.antt =====
-- src/twinstudio/eda_operation_planner.py: a language model selects one of the operations that the caller offers. The
-- call of the model, JSON and pydantic are arguments; messages are cut before the values that are interpolated.
pub mod Choice
use Prim.Native.Char.{Char, code}
use Prim.Native.String.{[], ◌∷◌, ◌++◌}
use twinstudio.Base.{
  ℕ, ◌+◌, ◌-◌, String, Bool, true, false, not, ◌&&◌, ◌||◌, Option, none, some, List, any, is_empty,
  Result, ok, err, ◌>>=◌, ◌>>◌, raise_if, value_error, type_error, ltb, leb, ◌==◌, if◌then◌else◌,
}
use twinstudio.Base.Text.{starts_with, ends_with, skip, split_at}
use twinstudio.Base.Letters.{size, upto, find_text, reverse_onto}
use twinstudio.Base.Dict.{Dict, get, has, put}
use twinstudio.Base.Json.{
  Json, null, bool, int, float, str, arr, obj, Items, nil, cons, Fields, end, field, items, fields,
  of_fields, truthy,
}

pub data Decision : Type 0 where
  propose unsupported : Decision

pub record EdaOperationProposal : Type 0 where
  pub decision : Decision
  pub operation : Option String
  pub input : Dict Json
  pub why : String
  pub interpretation : String
  pub limitations : List String

-- a route to a language model: its arguments, its name, and whether it takes a schema for the answer
pub record Route : Type 0 where
  pub kwargs : Json
  pub mode : String
  pub supports_response_schema : Bool

-- What the planner uses of libraries: `json.dumps` and `json.loads`, the fields of a proposal as pydantic reads them
-- before the validator of the class, `str` of a value that is no text, the number of bytes of a text in UTF-8, and
-- the content that `completion` returns for a route.
pub record Services : Type 0 where
  pub dumps : Json → Result String
  pub loads : String → Result Json
  pub read_fields : Json → Result EdaOperationProposal
  pub repr : Json → String
  pub utf8_size : String → ℕ
  pub completion : Route → Result Json

-- `str(value)`
abbrev pub as_text : Services → Json → String
as_text services (str s) = s
as_text services v = services.repr v

-- `not self.operation`
abbrev pub has_no_operation : EdaOperationProposal → Bool
has_no_operation p = elim p.operation [ none ↦ true | some operation ↦ operation == "" ]

abbrev pub has_operation : EdaOperationProposal → Bool
has_operation p = elim p.operation [ none ↦ false | some operation ↦ true ]

-- the checks of each decision
abbrev pub check_decision : Decision → EdaOperationProposal → Result EdaOperationProposal
check_decision propose p =
    raise_if (has_no_operation p) (value_error "a proposed operation requires its identifier")
    >> ok p
check_decision unsupported p =
    raise_if (has_operation p || not (is_empty p.input))
      (value_error "an unsupported request cannot smuggle an operation or input")
    >> ok p

-- the validator of the class
unfoldable pub decision_matches_operation : EdaOperationProposal → Result EdaOperationProposal
decision_matches_operation p = check_decision p.decision p

-- `c.isspace()`
abbrev pub is_space : Char → Bool
is_space c = (leb 9 (code c) && leb (code c) 13) || (leb 28 (code c) && leb (code c) 32)

-- a text without the white space before it, and without the one behind it
lstrip : String → String
lstrip [] = []
lstrip (c ∷ s) = let rest = lstrip s in if is_space c then rest else c ∷ s

unfoldable pub rstrip : String → String
unfolding lstrip reverse_onto
rstrip s = reverse_onto "" (lstrip (reverse_onto "" s))

unfoldable pub strip_space : String → String
unfolding lstrip rstrip
strip_space s = rstrip (lstrip s)

-- the text inside a Markdown fence
abbrev pub unfenced : String → String
unfolding starts_with ends_with split_at rstrip size upto
unfenced text =
    if not (starts_with "```" text)
    then text
    else let body : String = elim (split_at "\n" text) [ none ↦ "" | some (line, rest) ↦ rest ] in
      let trimmed = rstrip body in
      if ends_with "```" trimmed then rstrip (upto (size trimmed - 3) trimmed) else body

-- `text.rfind(c)` for one character, where it is found
unfoldable pub last_place : String → String → Option ℕ
last_place c [] = none
last_place c (d ∷ s) = elim (last_place c s) [
  | some n ↦ some (n + 1)
  | none ↦ if (d ∷ []) == c then some 0 else none
]

-- from the first brace to the last one
abbrev pub braced : String → String
unfolding starts_with find_text last_place upto skip
braced text = if starts_with "{" text then text else elim (find_text "{" text) [
  | none ↦ text
  | some start ↦ elim (last_place "}" text) [
    | none ↦ text
    | some stop ↦ if ltb start stop then skip start (upto (stop + 1) text) else text
  ]
]

-- `document.get("operation") in (None, "")`
abbrev pub is_omitted : Option Json → Bool
is_omitted none = true
is_omitted (some null) = true
is_omitted (some (str s)) = s == ""
is_omitted _ = false

abbrev pub is_proposing : Option Json → Bool
is_proposing (some (str s)) = s == "propose"
is_proposing _ = false

-- the only operation on offer, where the answer proposes one and omits its name
abbrev pub with_sole_operation : Option String → Json → Json
with_sole_operation (some sole) (obj fs) =
    if is_proposing (get "decision" (fields fs)) && is_omitted (get "operation" (fields fs))
    then obj (of_fields (put "operation" (str sole) (fields fs)))
    else obj fs
with_sole_operation _ document = document

-- `str(content or "")`
abbrev pub content_or_empty : Services → Json → String
content_or_empty services content = if truthy content then as_text services content else ""

-- the fields of the proposal
abbrev pub read_proposal : Services → Option String → Json → Result EdaOperationProposal
unfolding strip_space rstrip starts_with ends_with split_at find_text last_place size upto skip
read_proposal services sole content = do
  document ← services.loads (braced (unfenced (strip_space (content_or_empty services content))))
  services.read_fields (with_sole_operation sole document)

-- `not str(content or "").strip()`
abbrev pub is_blank : Services → Json → Bool
unfolding strip_space
is_blank services content = strip_space (content_or_empty services content) == ""

unfoldable pub parse_proposal : Services → Option String → Json → Result EdaOperationProposal
unfolding strip_space rstrip starts_with ends_with split_at find_text last_place
    decision_matches_operation size upto skip
parse_proposal services sole content =
    read_proposal services sole content >>= decision_matches_operation

unfoldable mutual
  pub contains_float : Json → Bool
  contains_float (float x) = true
  contains_float (obj fs) = field_contains_float fs
  contains_float (arr vs) = item_contains_float vs
  contains_float null = false
  contains_float (bool b) = false
  contains_float (int i) = false
  contains_float (str s) = false

  pub field_contains_float : Fields → Bool
  field_contains_float end = false
  field_contains_float (field k v fs) = contains_float v || field_contains_float fs

  pub item_contains_float : Items → Bool
  item_contains_float nil = false
  item_contains_float (cons v vs) = contains_float v || item_contains_float vs

-- the parts of a content that is a list, joined: a `text` that is no text cannot be joined
abbrev pub part_text : Services → Json → Result String
part_text services (obj fs) = elim (get "text" (fields fs)) [
  | none ↦ ok ""
  | some (str s) ↦ ok s
  | some v ↦ err type_error
]
part_text services v = ok (as_text services v)

abbrev pub join_parts : Services → List Json → Result String
join_parts services List.[] = ok ""
join_parts services (List.◌∷◌ part parts) = do
  here ← part_text services part
  rest ← join_parts services parts
  ok (here ++ rest)

abbrev pub joined_content : Services → Json → Result Json
joined_content services (arr parts) = join_parts services (items parts) >>= λ text. ok (str text)
joined_content services content = ok content

-- `value in texts`
abbrev pub one_of : List String → String → Bool
one_of texts value = any (λ t. t == value) texts

-- the texts at `id` of the operations on offer, each once
abbrev pub operation_ids : List Json → List String
operation_ids List.[] = List.[]
operation_ids (List.◌∷◌ operation operations) =
    let rest = operation_ids operations in
    elim operation [
      | obj fs ↦ elim (get "id" (fields fs)) [
        | some (str id) ↦ if one_of rest id then rest else List.◌∷◌ id rest
        | _ ↦ rest
      ]
      | _ ↦ rest
    ]

abbrev pub sole_operation : List String → Option String
sole_operation (List.◌∷◌ id List.[]) = some id
sole_operation _ = none

-- whether a proposed operation is not on offer
abbrev pub is_outside : List String → EdaOperationProposal → Bool
is_outside ids p = elim p.decision [
  | unsupported ↦ false
  | propose ↦ elim p.operation [ none ↦ true | some operation ↦ not (one_of ids operation) ]
]

-- the checks on a proposal after it is read
abbrev pub admit_proposal : List String → EdaOperationProposal → Result EdaOperationProposal
admit_proposal ids p = do
  raise_if (is_outside ids p) (value_error "operation is outside the advertised vocabulary")
  raise_if (has "approved" p.input) (value_error "model input cannot grant human approval")
  raise_if (contains_float (obj (of_fields p.input)))
      (value_error "operation input contains a forbidden JSON float")
  ok p

-- one round of the loop over the routes
unfoldable pub try_route : Services → List String → Route → Result EdaOperationProposal
unfolding parse_proposal contains_float strip_space
try_route services ids route = do
  answer ← services.completion route
  content ← joined_content services answer
  raise_if (is_blank services content) (value_error "LLM-EMPTY-RESPONSE-001")
  proposal ← parse_proposal services (sole_operation ids) content
  admit_proposal ids proposal

-- the first route that gives a proposal
abbrev pub try_routes : Services → List String → List Route → Result (EdaOperationProposal × String)
try_routes services ids List.[] = err (value_error "EDA LLM operation proposal was rejected")
try_routes services ids (List.◌∷◌ route routes) =
    let rest = try_routes services ids routes in
    elim (try_route services ids route) [ ok proposal ↦ ok (proposal, route.mode) | err e ↦ rest ]

-- the source, the operations on offer and the context, which are bounded together
abbrev pub context_of : Json → Items → Json → Json
context_of source operations context = obj (
    field "source" source
      (field "operations" (arr operations) (field "project_context" context end)))

-- `propose_eda_operation`, with the routes of the settings or the error of finding them
unfoldable pub propose_eda_operation :
    Services → Json → Items → Json → Result (List Route) → Result (EdaOperationProposal × String)
unfolding try_route
propose_eda_operation services source operations context available = do
  raise_if (is_empty (operation_ids (items operations)))
      (value_error "EDA operation planner received no supported operations")
  encoded ← services.dumps (context_of source operations context)
  raise_if (ltb 240000 (services.utf8_size encoded))
      (value_error "EDA operation planning context exceeds 240000 bytes")
  routes ← elim available [
    | ok routes ↦ ok routes
    | err e ↦ err (value_error "EDA LLM operation route is unavailable")
  ]
  raise_if (is_empty routes) (value_error "EDA LLM operation route is not configured")
  try_routes services (operation_ids (items operations)) routes
