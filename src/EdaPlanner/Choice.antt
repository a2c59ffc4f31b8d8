-- ===== src/EdaPlanner/Choice.antt =====
-- What `propose_eda_operation` returns is within what the caller offers, and comes from the first route that gives it.
use twinstudio.Base.{
  String, ◌≡◌, refl, ap, ◌∙◌, ◌⊎◌, inl, inr, Bool, true, false, not, ◌||◌, Option, none, some, List,
  [], ◌∷◌, is_empty, ltb, Bool-cases, Option-cases, Result, ok, err, Error, Result-cases,
  raise_if-held,
}
use mathlib.Core.Path.{subst}
use twinstudio.Base.Dict.{Dict, has}
use twinstudio.Base.Json.{Json, obj, Items, items, of_fields}
use twinstudio.EdaPlanner.{
  Decision, propose, unsupported, EdaOperationProposal, Route, Services, check_decision,
  has_no_operation, has_operation, decision_matches_operation, read_proposal, is_blank, context_of,
  sole_operation, parse_proposal, contains_float, joined_content, one_of, operation_ids, is_outside,
  admit_proposal, try_route, try_routes, propose_eda_operation,
}

-- The proposal selects one of the operations, or none and then it has no input; it neither approves itself nor
-- has a float in its input.
abbrev pub IsAllowed : List String → EdaOperationProposal → Type 0
IsAllowed ids p =
    (((p.decision ≡ propose)
        × ((operation : String) × (p.operation ≡ some operation) × (one_of ids operation ≡ true)))
      ⊎ ((p.decision ≡ unsupported) × (p.operation ≡ none) × (p.input ≡ [])))
    × (has "approved" p.input ≡ false)
    × (contains_float (obj (of_fields p.input)) ≡ false)

-- The route with the name gives the proposal, and the routes before it fail.
abbrev pub IsFirst : Services → List String → List Route → EdaOperationProposal → String → Type 0
IsFirst services ids [] p mode = ⊥
IsFirst services ids (route ∷ routes) p mode =
    ((try_route services ids route ≡ ok p) × (route.mode ≡ mode))
    ⊎ ((e : Error) × (try_route services ids route ≡ err e) × IsFirst services ids routes p mode)

try_routes-IsFirst :
    (services : Services) (ids : List String) (routes : List Route) (p : EdaOperationProposal)
    (mode : String)
    → try_routes services ids routes ≡ ok (p, mode)
    → IsFirst services ids routes p mode
try_routes-IsFirst services ids [] p mode h = cc
try_routes-IsFirst services ids (route ∷ routes) p mode h =
    elim (Result-cases (try_route services ids route)) [
      | inl (q, made) ↦
          let k : ok (q, route.mode) ≡ ok (p, mode) = rw (made, try_routes) at h in
          let same : q ≡ p = cc in
          let named : route.mode ≡ mode = cc in inl (made ∙ ap ok same, named)
      | inr (e, failed) ↦
          let k = rw (failed, try_routes) at h in
          inr (e, failed, try_routes-IsFirst services ids routes p mode k)
    ]

neither : (a b : Bool) → (a || b) ≡ false → (a ≡ false) × (b ≡ false)
neither false false h = (refl, refl)
neither true b h = cc
neither false true h = cc

Decision-cases : (d : Decision) → (d ≡ propose) ⊎ (d ≡ unsupported)
Decision-cases propose = inl refl
Decision-cases unsupported = inr refl

nothing : (p : EdaOperationProposal) → has_operation p ≡ false → p.operation ≡ none
nothing p h = elim (Option-cases p.operation) [
  | inl absent ↦ absent
  | inr (operation, there) ↦ let k = rw there at h in cc
]

no_entries : (d : Dict Json) → not (is_empty d) ≡ false → d ≡ []
no_entries [] h = refl
no_entries (x ∷ d) h = cc

decided :
    (ids : List String) (p q : EdaOperationProposal)
    → decision_matches_operation p ≡ ok q
    → is_outside ids p ≡ false
    → ((p.decision ≡ propose)
        × ((operation : String) × (p.operation ≡ some operation) × (one_of ids operation ≡ true)))
      ⊎ ((p.decision ≡ unsupported) × (p.operation ≡ none) × (p.input ≡ []))
unfolding decision_matches_operation
decided ids p q h inside = elim (Decision-cases p.decision) [
  | inl proposing ↦ elim (Option-cases p.operation) [
    | inl absent ↦ let k = rw (proposing, absent) at inside in cc
    | inr (operation, there) ↦ elim (Bool-cases (one_of ids operation)) [
      | inl offered ↦ inl (proposing, (operation, there, offered))
      | inr unknown ↦ let k = rw (proposing, there, unknown) at inside in cc
    ]
  ]
  | inr refusing ↦
      let k : check_decision unsupported p ≡ ok q =
        subst (λ d. check_decision d p ≡ ok q) refusing h in
      let (none_given, rest) = raise_if-held (has_operation p || not (is_empty p.input)) _ _ q k in
      let (no_operation, no_input) =
        neither (has_operation p) (not (is_empty p.input)) none_given in
      inr (refusing, nothing p no_operation, no_entries p.input no_input)
]

check_decision-same :
    (d : Decision) (p q : EdaOperationProposal) → check_decision d p ≡ ok q → p ≡ q
check_decision-same propose p q h = let k = (raise_if-held (has_no_operation p) _ _ q h).1 in cc
check_decision-same unsupported p q h =
    let k = (raise_if-held (has_operation p || not (is_empty p.input)) _ _ q h).1 in cc

decision_matches_operation-same :
    (p q : EdaOperationProposal) → decision_matches_operation p ≡ ok q → p ≡ q
unfolding decision_matches_operation
decision_matches_operation-same p q h = check_decision-same p.decision p q h

admit_proposal-IsAllowed :
    (ids : List String) (p q r : EdaOperationProposal)
    → decision_matches_operation p ≡ ok q
    → admit_proposal ids q ≡ ok r
    → IsAllowed ids r
admit_proposal-IsAllowed ids p q r valid h =
    let (inside, h1) = raise_if-held (is_outside ids q) _ _ r h in
    let (unapproved, h2) = raise_if-held (has "approved" q.input) _ _ r h1 in
    let (whole, h3) = raise_if-held (contains_float (obj (of_fields q.input))) _ _ r h2 in
    let made : ok q ≡ ok r = h3 in
    let same : q ≡ r = cc in
    let kept = decision_matches_operation-same p q valid in
    let valid_too : decision_matches_operation q ≡ ok q =
      subst (λ z. decision_matches_operation z ≡ ok q) kept valid in
    subst (IsAllowed ids) same (decided ids q q valid_too inside, unapproved, whole)

parsed_valid :
    (services : Services) (sole : Option String) (content : Json) (q : EdaOperationProposal)
    → parse_proposal services sole content ≡ ok q
    → (r : EdaOperationProposal) × (decision_matches_operation r ≡ ok q)
unfolding parse_proposal
parsed_valid services sole content q h = elim (Result-cases (read_proposal services sole content)) [
  | inr (e, failed) ↦ let k = rw failed at h in cc
  | inl (r, read) ↦ (r, rw read at h)
]

try_route-IsAllowed :
    (services : Services) (ids : List String) (route : Route) (p : EdaOperationProposal)
    → try_route services ids route ≡ ok p
    → IsAllowed ids p
unfolding try_route
try_route-IsAllowed services ids route p h = elim (Result-cases (services.completion route)) [
  | inr (e, failed) ↦ let k = rw failed at h in cc
  | inl (answer, called) ↦ elim (Result-cases (joined_content services answer)) [
    | inr (e, failed) ↦ let k = rw (called, failed) at h in cc
    | inl (content, joined) ↦
        let h1 = rw (called, joined) at h in
        let (given, h2) = raise_if-held (is_blank services content) _ _ p h1 in
        elim (Result-cases (parse_proposal services (sole_operation ids) content)) [
          | inr (e, failed) ↦ let k = rw failed at h2 in cc
          | inl (q, parsed) ↦
              let admitted : admit_proposal ids q ≡ ok p = rw parsed at h2 in
              let (r, valid) = parsed_valid services (sole_operation ids) content q parsed in
              admit_proposal-IsAllowed ids r q p valid admitted
        ]
  ]
]

IsFirst-IsAllowed :
    (services : Services) (ids : List String) (routes : List Route) (p : EdaOperationProposal)
    (mode : String)
    → IsFirst services ids routes p mode
    → IsAllowed ids p
IsFirst-IsAllowed services ids [] p mode h = elim h [ ]
IsFirst-IsAllowed services ids (route ∷ routes) p mode (inl (made, named)) =
    try_route-IsAllowed services ids route p made
IsFirst-IsAllowed services ids (route ∷ routes) p mode (inr (e, failed, rest)) =
    IsFirst-IsAllowed services ids routes p mode rest

-- Whatever the model answers, a proposal that `propose_eda_operation` returns selects an operation whose
-- identifier the caller offered, or is unsupported and has neither operation nor input; its input has no field
-- `approved` and no float at any depth. It comes from the named one of the available routes, and the routes
-- before that one fail.
pub propose_eda_operation-IsAllowed :
    (services : Services) (source : Json) (operations : Items) (context : Json)
    (available : Result (List Route)) (p : EdaOperationProposal) (mode : String)
    → propose_eda_operation services source operations context available ≡ ok (p, mode)
    → IsAllowed (operation_ids (items operations)) p
      × ((routes : List Route) × (available ≡ ok routes)
          × IsFirst services (operation_ids (items operations)) routes p mode)
unfolding propose_eda_operation
propose_eda_operation-IsAllowed services source operations context available p mode h =
    let ids = operation_ids (items operations) in
    let (offered, h1) = raise_if-held (is_empty ids) _ _ (p, mode) h in
    elim (Result-cases (services.dumps (context_of source operations context))) [
      | inr (e, failed) ↦ let k = rw failed at h1 in cc
      | inl (encoded, dumped) ↦
          let h2 = rw dumped at h1 in
          let (small, h3) =
            raise_if-held (ltb 240000 (services.utf8_size encoded)) _ _ (p, mode) h2 in
          elim (Result-cases available) [
            | inr (e, failed) ↦ let k = rw failed at h3 in cc
            | inl (routes, found) ↦
                let h4 = rw found at h3 in
                let (configured, h5) = raise_if-held (is_empty routes) _ _ (p, mode) h4 in
                let first = try_routes-IsFirst services ids routes p mode h5 in
                (IsFirst-IsAllowed services ids routes p mode first, (routes, found, first))
          ]
    ]
