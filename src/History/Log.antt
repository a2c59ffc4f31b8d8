-- ===== src/History/Log.antt =====
-- `wellmanifest_projection` and `validate_hash_chain`: log entries that are chained by their hashes.
use Prim.Native.String.{◌++◌}
use twinstudio.Base.{
  ℕ, ◌+◌, String, Bool, true, false, Option, none, some, List, [], ◌∷◌, take, Result, ok, ◌>>=◌,
  eqb, ◌==◌, if◌then◌else◌,
}
use mathlib.Core.List
use twinstudio.Base.Text.{replace_character}
use twinstudio.Base.Letters.{contains, decimal, remove_prefix}
use twinstudio.Base.Dict.{Dict, get, put, pop}
use twinstudio.Base.Json.{
  Json, pos, null, bool, int, float, str, arr, obj, items, of_items, fields, of_fields,
}
use twinstudio.Domain.Envelopes.{EventEnvelope}
use twinstudio.History.{Python, as_text}
use twinstudio.History.Codes.{one_of, eda_events, event_code, logs_outcome, snake}

abbrev pub no_hash : String
no_hash = "0000000000000000000000000000000000000000000000000000000000000000"

abbrev pub optional : Option String → Json
optional none = null
optional (some s) = str s

-- `a or b` for an optional text
abbrev pub or_text : Option String → String → String
or_text none b = b
or_text (some a) b = if a == "" then b else a

-- one entry of `evidence`: its path and hash, where both are texts
abbrev pub reference : Json → Option Json
reference (obj fs) = elim (get "path" (fields fs)) [
  | some (str path) ↦ elim (get "sha256" (fields fs)) [
    | some (str hash) ↦ some (obj (of_fields (("path", str path) ∷ ("sha256", str hash) ∷ [])))
    | _ ↦ none
  ]
  | _ ↦ none
]
reference _ = none

abbrev pub references : List Json → List Json
references [] = []
references (v ∷ vs) =
    let rest = references vs in elim (reference v) [ none ↦ rest | some r ↦ r ∷ rest ]

abbrev pub evidence_of : Dict Json → List Json
evidence_of d = elim (get "evidence" d) [ some (arr vs) ↦ references (take 16 (items vs)) | _ ↦ [] ]

-- the JSON of an entry without its own hash, and the hash of that
abbrev pub hash_of : Python → Dict Json → Result String
hash_of python entry = do
  text ← python.canonical_json (obj (of_fields (pop "eventHash" entry)))
  ok (python.sha256 text)

-- the entry of an event before its hash is known
unfoldable pub unsealed : Python → String → ℕ → String → EventEnvelope → Result (Dict Json)
unfolding logs_outcome event_code snake replace_character contains remove_prefix
unsealed python project sequence previous e = do
  said ← logs_outcome python e.event_type e.payload
  data_text ← python.canonical_json (obj (of_fields e.payload))
  let actor = replace_character "@" "-" e.actor in
      let producer = if contains "@" e.actor then "human:" ++ actor else "service:" ++ actor in
      let planned = one_of ("EdaChangePlanned" ∷ "EdaChangePlanFailed" ∷ []) e.event_type in
      ok (
        ("schema", str "wellmanifest.logs/event/v1")
        ∷ ("eventId", str ("event:twinstudio:" ++ e.event_id))
        ∷ ("stream", str "eda")
        ∷ ("sequence", int (pos sequence))
        ∷ ("eventType", str ("eda." ++ snake (remove_prefix "Eda" e.event_type)))
        ∷ ("severity", str said.2)
        ∷ ("mode", str (if planned then "PLAN" else "APPLY"))
        ∷ ("occurredAt", str (python.isoformat e.occurred_at))
        ∷ ("correlationId", str (or_text e.correlation_id e.event_id))
        ∷ ("causationId", optional e.causation_id)
        ∷ ("producer", str producer)
        ∷ ("source", str "twinstudio.eda")
        ∷ ("code", optional (event_code e.payload))
        ∷ ("subjectRef", str ("twinstudio:project/" ++ project ++ "/eda"))
        ∷ ("outcome", str said.0)
        ∷ ("subjectState", str said.1)
        ∷ ("evidence", arr (of_items (evidence_of e.payload)))
        ∷ ("inputHash", str (python.sha256 data_text))
        ∷ ("receiptRef", null)
        ∷ ("previousHash", str previous)
        ∷ ("eventHash", str "")
        ∷ ("rawOutputIncluded", bool false)
        ∷ ("secretMaterialIncluded", bool false)
        ∷ [])

-- the loop of `wellmanifest_projection`, from a sequence number and the hash before it
unfoldable pub entries_from :
    Python → String → ℕ → String → List EventEnvelope → Result (List (Dict Json))
unfolding unsealed
entries_from python project n previous [] = ok []
entries_from python project n previous (e ∷ es) = do
  entry ← unsealed python project n previous e
  hash ← hash_of python entry
  rest ← entries_from python project (n + 1) hash es
  ok (put "eventHash" (str hash) entry ∷ rest)

unfoldable pub wellmanifest_projection :
    Python → String → List EventEnvelope → Result (List (Dict Json))
unfolding entries_from
wellmanifest_projection python project events =
    entries_from python project 1 no_hash (eda_events events)

-- `event.get(key) == n`
abbrev pub equals_number : Python → ℕ → Option Json → Bool
equals_number python n (some (int (pos m))) = eqb m n
equals_number python n (some (bool true)) = eqb n 1
equals_number python n (some (bool false)) = eqb n 0
equals_number python n (some (float x)) = python.same_number x n
equals_number python n _ = false

-- `event.get(key) == text`
abbrev pub equals_text : String → Option Json → Bool
equals_text t (some (str s)) = s == t
equals_text t _ = false

abbrev pub finding_unless : Bool → String → ℕ → List String
finding_unless true label n = []
finding_unless false label n = (label ++ decimal n) ∷ []

-- `str(event.get("eventHash", ""))`
abbrev pub stored_hash : Python → Dict Json → String
stored_hash python d = elim (get "eventHash" d) [ none ↦ "" | some v ↦ as_text python v ]

abbrev pub findings_at : Python → ℕ → String → String → Dict Json → List String
findings_at python n previous calculated d =
    List.◌++◌ (finding_unless (equals_number python n (get "sequence" d)) "sequence:" n) (
      List.◌++◌ (finding_unless (equals_text previous (get "previousHash" d)) "previousHash:" n)
        (finding_unless (equals_text calculated (get "eventHash" d)) "eventHash:" n))

unfoldable pub check_from : Python → ℕ → String → List (Dict Json) → Result (List String)
unfolding decimal
check_from python n previous [] = ok []
check_from python n previous (d ∷ ds) = do
  calculated ← hash_of python d
  rest ← check_from python (n + 1) (stored_hash python d) ds
  ok (List.◌++◌ (findings_at python n previous calculated d) rest)

unfoldable pub validate_hash_chain : Python → List (Dict Json) → Result (List String)
unfolding check_from
validate_hash_chain python entries = check_from python 1 no_hash entries
