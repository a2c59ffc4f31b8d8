-- ===== src/History/Codes.antt =====
-- What a log entry says of an EDA event: its code, outcome, state and severity.
use Prim.Native.String.{[], ◌∷◌, ◌++◌}
use twinstudio.Base.{
  String, Bool, true, false, ◌||◌, Option, none, some, List, any, select, Result, ok, err, ◌>>=◌,
  type_error, ◌==◌, if◌then◌else◌,
}
use twinstudio.Base.Text.{lower}
use twinstudio.Base.Letters.{among, digits, upper_letters}
use twinstudio.Base.Dict.{Dict, get}
use twinstudio.Base.Json.{Json, str, arr, obj, items, fields}
use twinstudio.Domain.Envelopes.{EventEnvelope}
use twinstudio.History.{Python, as_text}

abbrev pub eda_event_types : List String
eda_event_types = List.◌∷◌ "EdaChangePlanned" (
    List.◌∷◌ "EdaChangePlanFailed" (
      List.◌∷◌ "EdaSchematicAnalyzed" (
        List.◌∷◌ "EdaPcbAnalyzed" (
          List.◌∷◌ "EdaNetlistAnalyzed" (
            List.◌∷◌ "EdaSimulationAnalyzed" (
              List.◌∷◌ "SvgAnalyzed" (
                List.◌∷◌ "EdaValidationCompleted" (
                  List.◌∷◌ "EdaCandidateCreated" (
                    List.◌∷◌ "EdaCandidateDeleted" (
                      List.◌∷◌ "EdaChangeAccepted" (
                        List.◌∷◌ "EdaChangeRejected" (
                          List.◌∷◌ "EdaRevisionPromoted" (
                            List.◌∷◌ "EdaChangeReverted" (
                              List.◌∷◌ "EdaHistoryImported"
                                (List.◌∷◌ "ProjectUpdateRecorded" List.[])))))))))))))))

-- `value in texts`
abbrev pub one_of : List String → String → Bool
one_of texts value = any (λ t. t == value) texts

abbrev pub eda_events : List EventEnvelope → List EventEnvelope
eda_events events = select (λ e. one_of eda_event_types e.event_type) events

abbrev pub log_code_aliases : Dict String
log_code_aliases =
    List.◌∷◌ ("EDA_ROUTING_REQUIRED", "EDA-PCB-ROUTING-001")
      (List.◌∷◌ ("EDA_DRC_NOT_RUN", "EDA-PCB-DRC-001")
        (List.◌∷◌ ("EDA_CONNECTIVITY_NOT_RUN", "EDA-SCH-NET-001")
          (List.◌∷◌ ("EDA_PARITY_NOT_RUN", "EDA-SCH-PCB-SYNC-001")
            (List.◌∷◌ ("EDA_FOOTPRINT_PARITY_NOT_RUN", "EDA-SCH-PCB-SYNC-001")
              (List.◌∷◌ ("EDA_ERC_NOT_RUN", "EDA-SCH-NETGRAPH-001") List.[])))))

-- How far a text has been matched: before the name, inside it, after a dash, inside a later group.
pub data Place : Type 0 where
  at_start in_name after_dash in_group : Place

-- `LOG_CODE_PATTERN`: a name and at least one further group, of capitals and digits, between dashes
unfoldable pub matches_from : Place → String → Bool
unfolding among
matches_from in_group [] = true
matches_from _ [] = false
matches_from at_start (c ∷ s) =
    let rest = matches_from in_name s in if among upper_letters c then rest else false
matches_from in_name (c ∷ s) =
    let rest = matches_from in_name s in
    let next = matches_from after_dash s in
    if (c ∷ []) == "-"
    then next
    else if among upper_letters c || among digits c
    then rest
    else false
matches_from after_dash (c ∷ s) =
    let rest = matches_from in_group s in
    if among upper_letters c || among digits c then rest else false
matches_from in_group (c ∷ s) =
    let rest = matches_from in_group s in
    let next = matches_from after_dash s in
    if (c ∷ []) == "-"
    then next
    else if among upper_letters c || among digits c
    then rest
    else false

abbrev pub is_log_code : String → Bool
is_log_code s = matches_from at_start s

abbrev pub log_code : String → Option String
log_code value =
    let mapped : String = elim (get value log_code_aliases) [ none ↦ value | some alias ↦ alias ] in
    if is_log_code mapped then some mapped else none

-- the code of one entry of `codes`
abbrev pub value_code : Option Json → Option String
value_code (some (str value)) = log_code value
value_code _ = none

abbrev is_error : Option Json → Bool
is_error (some (str severity)) = severity == "ERROR"
is_error _ = false

-- the code of one entry of `findings`
abbrev pub finding_code : Json → Option String
finding_code (obj fs) =
    if is_error (get "severity" (fields fs)) then value_code (get "code" (fields fs)) else none
finding_code _ = none

-- the first code that a loop over the entries returns
abbrev pub first_code : (Json → Option String) → List Json → Option String
first_code code List.[] = none
first_code code (List.◌∷◌ v vs) =
    let rest = first_code code vs in elim (code v) [ none ↦ rest | some c ↦ some c ]

abbrev entries : Option Json → List Json
entries (some (arr vs)) = items vs
entries _ = List.[]

-- one turn of the loop over `analysis` and `validation`
abbrev pub container_code : Option Json → Option String
container_code (some (obj fs)) =
    elim (first_code finding_code (entries (get "findings" (fields fs)))) [
      | some c ↦ some c
      | none ↦ first_code (λ v. value_code (some v)) (entries (get "codes" (fields fs)))
    ]
container_code _ = none

abbrev pub containers_code : Dict Json → Option String
containers_code d = elim (container_code (get "analysis" d)) [
  | some c ↦ some c
  | none ↦ container_code (get "validation" d)
]

abbrev direct_code : Option Json → Dict Json → Option String
direct_code (some (str code)) d = log_code code
direct_code _ d = containers_code d

-- `error["code"]` when it is a text, else the codes of the event itself
abbrev error_code : Option Json → Dict Json → Option String
error_code (some (str code)) d = log_code code
error_code _ d = direct_code (get "code" d) d

unfoldable pub event_code : Dict Json → Option String
unfolding matches_from
event_code d = elim (get "error" d) [
  | some (obj fs) ↦ error_code (get "code" (fields fs)) d
  | _ ↦ direct_code (get "code" d) d
]

-- `category in {...}`: a list or a dict cannot be hashed
abbrev pub is_warning : Option Json → Result Bool
is_warning (some (arr vs)) = err type_error
is_warning (some (obj fs)) = err type_error
is_warning (some (str c)) = ok (
    one_of
      (List.◌∷◌ "error" (
        List.◌∷◌ "recommendation"
          (List.◌∷◌ "duplicate" (List.◌∷◌ "source_truth_conflict" List.[]))))
      c)
is_warning _ = ok false

abbrev pub field_text : Python → String → String → Dict Json → String
field_text python key default d = elim (get key d) [ none ↦ default | some v ↦ as_text python v ]

-- the outcome, the state and the severity
abbrev pub Outcome : Type 0
Outcome = String × String × String

abbrev update_outcome : Python → Dict Json → Result Outcome
update_outcome python d = do
  warns ← is_warning (get "category" d)
  ok ("OBSERVED", field_text python "category" "update" d, if warns then "WARNING" else "INFO")

abbrev analysis_outcome : Python → Dict Json → Outcome
unfolding event_code
analysis_outcome python d =
    let analysis : Dict Json = elim (get "analysis" d) [
      | some (obj fs) ↦ fields fs
      | _ ↦ List.[]
    ] in
    let severity : String = elim (event_code d) [
      | none ↦ "INFO"
      | some c ↦ if c == "" then "INFO" else "WARNING"
    ] in
    ("OBSERVED", field_text python "status" "ready" analysis, severity)

abbrev analyses : List String
analyses = List.◌∷◌ "EdaSchematicAnalyzed" (
    List.◌∷◌ "EdaPcbAnalyzed"
      (List.◌∷◌ "EdaNetlistAnalyzed" (List.◌∷◌ "EdaSimulationAnalyzed" List.[])))

unfoldable pub logs_outcome : Python → String → Dict Json → Result Outcome
unfolding event_code
logs_outcome python t d =
    if t == "EdaChangePlanFailed"
    then ok ("FAILED", "validation_failed", "WARNING")
    else if t == "ProjectUpdateRecorded"
    then update_outcome python d
    else if t == "EdaCandidateDeleted"
    then ok ("SUCCEEDED", "deleted", "WARNING")
    else if t == "EdaChangeRejected"
    then ok ("REJECTED", "rejected", "WARNING")
    else if t == "EdaChangeAccepted" || t == "EdaRevisionPromoted"
    then ok ("ACCEPTED", "accepted", "INFO")
    else if t == "EdaChangeReverted"
    then ok ("SUCCEEDED", "reverted", "WARNING")
    else if t == "EdaCandidateCreated"
    then ok ("SUCCEEDED", "candidate", "INFO")
    else if one_of analyses t
    then ok (analysis_outcome python d)
    else ok ("OBSERVED", "planned", "INFO")

-- `_snake`, after the first character or at it
snake_from : Bool → String → String
unfolding among lower
snake_from later [] = []
snake_from later (c ∷ s) =
    let rest = lower (c ∷ []) ++ snake_from true s in
    elim later [ false ↦ rest | true ↦ if among upper_letters c then "_" ++ rest else rest ]

unfoldable pub snake : String → String
unfolding snake_from
snake s = snake_from false s
