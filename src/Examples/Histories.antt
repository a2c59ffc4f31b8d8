-- ===== src/Examples/Histories.antt =====
-- The theorems on the history of EDA artifacts, applied.
use Prim.Native.String.{◌++◌}
use mathlib.Core.Path.{subst}
use twinstudio.Base.{
  String, ◌≡◌, refl, sym, ap, ◌∙◌, ◌↔◌, ◌⊎◌, false, Option, none, some, List, [], ◌∷◌, map, Result,
  ok, err, value_error,
}
use twinstudio.Base.Letters.{decimal}
use twinstudio.Base.Dict.{Dict, get, pop}
use twinstudio.Base.Json.{Json, str, obj, fields, of_fields}
use twinstudio.Domain.Envelopes.{EventEnvelope}
use twinstudio.History.{Python}
use twinstudio.History.Log.{wellmanifest_projection, validate_hash_chain}
use twinstudio.History.Chain.{
  validate_hash_chain_iff, validate_hash_chain-wellmanifest_projection, IsChained,
}
use twinstudio.History.Tampering.{KeepsLinks, IsSameHistory, Collision, last_hash-IsSameHistory}
use twinstudio.Examples.Canonical.{marked, shown, shown_items, shown_fields, marked_inj}
use twinstudio.Examples.{event_at, creation, planned}

-- the value at `previousHash` first, where it is a text, then the other fields in order
abbrev linking : Option Json → Dict Json → String
linking (some (str p)) d = marked p (shown_fields (of_fields (pop "previousHash" d)) "")
linking _ d = shown_fields (of_fields d) ""

abbrev dumped : Json → Result String
dumped (obj fs) = ok (linking (get "previousHash" (fields fs)) (fields fs))
dumped _ = err (value_error "not a dict")

abbrev python : Python
python = record {
  canonical_json = dumped;
  sha256 = λ s. "#" ++ s;
  repr = λ v. "";
  same_number = λ x n. false;
  isoformat = λ t. "2026-01-01T00:00:00Z";
}

abbrev history : List EventEnvelope
history =
    creation
    ∷ planned
    ∷ event_at "e4" 0 "EdaCandidateCreated" (("code", str "EDA_DRC_NOT_RUN") ∷ [])
    ∷ []

abbrev logged : List (Dict Json)
logged = elim (wellmanifest_projection python "lamp" history) [ ok ds ↦ ds | err e ↦ [] ]

validate_hash_chain-wellmanifest_projection_example : validate_hash_chain python logged ≡ ok []
unfolding wellmanifest_projection
validate_hash_chain-wellmanifest_projection_example =
    validate_hash_chain-wellmanifest_projection python "lamp" history logged refl

validate_hash_chain_iff_example :
    (validate_hash_chain python logged ≡ ok []) ↔ IsChained python logged
validate_hash_chain_iff_example = validate_hash_chain_iff python logged

fields-of_fields : (d : Dict Json) → fields (of_fields d) ≡ d
fields-of_fields [] = refl
fields-of_fields ((k, v) ∷ d) = ap (λ x. (k, v) ∷ x) (fields-of_fields d)

dumped-linked :
    (d : Dict Json) (p t : String)
    → get "previousHash" d ≡ some (str p)
    → dumped (obj (of_fields d)) ≡ ok t
    → t ≡ marked p (shown_fields (of_fields (pop "previousHash" d)) "")
dumped-linked d p t linked h =
    let k : ok (linking (get "previousHash" d) d) ≡ ok t =
      subst (λ x. ok (linking (get "previousHash" x) x) ≡ ok t) (fields-of_fields d) h in
    let l : ok (marked p (shown_fields (of_fields (pop "previousHash" d)) "")) ≡ ok t =
      rw linked at k in
    cc

python-KeepsLinks : KeepsLinks python
python-KeepsLinks d e p q t here there h k =
    marked_inj p q _ _ (sym (dumped-linked d p t here h) ∙ dumped-linked e q t there k)

-- the same entry with its link in front
abbrev link_first : Dict Json → Dict Json
link_first d = elim (get "previousHash" d) [
  | none ↦ d
  | some v ↦ ("previousHash", v) ∷ pop "previousHash" d
]

last_hash-IsSameHistory_example :
    IsSameHistory python logged (map link_first logged) ⊎ Collision python
unfolding validate_hash_chain wellmanifest_projection shown_fields shown shown_items decimal
last_hash-IsSameHistory_example =
    last_hash-IsSameHistory python logged (map link_first logged) python-KeepsLinks refl refl refl
      refl
