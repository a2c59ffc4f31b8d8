-- ===== src/Uri/Scope.antt =====
-- The order of addresses, and which targets a list of scopes contains.
use twinstudio.Base.{
  String, ◌≡◌, refl, ◌⊎◌, ◌↔◌, inl, inr, Bool, true, List, [], ◌∷◌, ◌++◌, length, take, any, arith,
  Bool-cases, Result, ok, Result-cases, raise_if-passed, eq_iff, eq_refl,
}
use mathlib.Core.Path.{ap₂}
use twinstudio.Uri.{
  UrlLibrary, PoaUri, is_bad_name, is_bad_segment, poa_uri, child, same_texts, is_ancestor_of,
  parse_poa_uri, any_contains, is_within_scope,
}

abbrev pub begins : List String → List String → Bool
begins ss ts = same_texts (take (length ss) ts) ss

begins-append : (ss ts : List String) → begins ss (ss ++ ts) ≡ true
begins-append [] ts = refl
begins-append (s ∷ ss) ts = rw (eq_refl s) (begins-append ss ts)

-- What it is to lie below an address: the same tenant, project and, unless it is ignored, revision, and
-- segments that go on from the address's own.
abbrev pub IsBelow : Bool → PoaUri → PoaUri → Type 0
IsBelow ignore a b =
    (a.tenant ≡ b.tenant)
    × (a.project ≡ b.project)
    × ((ignore ≡ true) ⊎ (a.revision ≡ b.revision))
    × ((rest : List String) × (b.segments ≡ a.segments ++ rest))

-- One of the scopes is an address that the target lies below, and all scopes up to it are addresses.
abbrev pub IsInScope : UrlLibrary → Bool → PoaUri → List String → Type 0
IsInScope urls ignore target [] = ⊥
IsInScope urls ignore target (scope ∷ scopes) =
    (ref : PoaUri) × (parse_poa_uri urls scope ≡ ok ref)
    × (IsBelow ignore ref target ⊎ IsInScope urls ignore target scopes)

begins-rest : (ss ts : List String) → begins ss ts ≡ true → (rest : List String) × (ts ≡ ss ++ rest)
begins-rest [] ts h = (ts, refl)
begins-rest (s ∷ ss) [] h = cc
begins-rest (s ∷ ss) (t ∷ ts) h =
    let same : t ≡ s = ground (arith, eq_iff t s) in
    let (rest, further) = begins-rest ss ts (ground arith) in (rest, ap₂ ◌∷◌ same further)

is_ancestor_of-IsBelow :
    (ignore : Bool) (a b : PoaUri) → is_ancestor_of ignore a b ≡ true → IsBelow ignore a b
is_ancestor_of-IsBelow ignore a b h = (
  ground (arith, eq_iff a.tenant b.tenant),
  ground (arith, eq_iff a.project b.project),
  ground (arith, eq_iff a.revision b.revision),
  begins-rest a.segments b.segments (ground arith),
)

IsBelow-is_ancestor_of :
    (ignore : Bool) (a b : PoaUri) → IsBelow ignore a b → is_ancestor_of ignore a b ≡ true
IsBelow-is_ancestor_of ignore a b (tenant, project, revision, (rest, further)) =
    let prefix : begins a.segments b.segments ≡ true = rw further (begins-append a.segments rest) in
    ground
      (arith, eq_iff a.tenant b.tenant, eq_iff a.project b.project, eq_iff a.revision b.revision)

poa_uri-fields :
    (tenant project revision : String) (segments : List String) (uri : PoaUri)
    → poa_uri tenant project revision segments ≡ ok uri
    → record { tenant = tenant; project = project; revision = revision; segments = segments } ≡ uri
unfolding poa_uri
poa_uri-fields tenant project revision segments uri h =
    let made : Result PoaUri =
      ok record { tenant = tenant; project = project; revision = revision; segments = segments } in
    let k = raise_if-passed (any is_bad_segment segments) _ made uri (
      raise_if-passed (is_bad_name revision) _ _ uri (
        raise_if-passed (is_bad_name project) _ _ uri
          (raise_if-passed (is_bad_name tenant) _ _ uri h))) in
    cc

any_contains-IsInScope :
    (urls : UrlLibrary) (ignore : Bool) (target : PoaUri) (scopes : List String)
    → any_contains urls ignore target scopes ≡ ok true
    → IsInScope urls ignore target scopes
any_contains-IsInScope urls ignore target [] h = cc
any_contains-IsInScope urls ignore target (scope ∷ scopes) h =
    elim (Result-cases (parse_poa_uri urls scope)) [
      | inr (x, failed) ↦ let k = rw failed at h in cc
      | inl (ref, parsed) ↦ (
        ref,
        parsed,
        elim (Bool-cases (is_ancestor_of ignore ref target)) [
          | inl inside ↦ inl (is_ancestor_of-IsBelow ignore ref target inside)
          | inr outside ↦
              inr (any_contains-IsInScope urls ignore target scopes (rw (parsed, outside) at h))
        ],
      )
    ]

IsInScope-any_contains :
    (urls : UrlLibrary) (ignore : Bool) (target : PoaUri) (scopes : List String)
    → IsInScope urls ignore target scopes
    → any_contains urls ignore target scopes ≡ ok true
IsInScope-any_contains urls ignore target [] h = elim h [ ]
IsInScope-any_contains urls ignore target (scope ∷ scopes) (ref, parsed, inl below) =
    rw (parsed, IsBelow-is_ancestor_of ignore ref target below) refl
IsInScope-any_contains urls ignore target (scope ∷ scopes) (ref, parsed, inr later) =
    let rest = IsInScope-any_contains urls ignore target scopes later in
    elim (Bool-cases (is_ancestor_of ignore ref target)) [
      | inl inside ↦ rw (parsed, inside) refl
      | inr outside ↦ rw (parsed, outside) rest
    ]

-- `is_within_scope` returns true exactly when the target is an address and one of the scopes, which with all scopes
-- before it is an address, has the target's tenant, project and, unless revisions are ignored, revision, and segments
-- that the target's segments begin with.
pub is_within_scope_iff :
    (urls : UrlLibrary) (ignore : Bool) (target : String) (scopes : List String)
    → (is_within_scope urls target scopes ignore ≡ ok true)
      ↔ ((a : PoaUri) × (parse_poa_uri urls target ≡ ok a) × IsInScope urls ignore a scopes)
unfolding is_within_scope
is_within_scope_iff urls ignore target scopes = (
  λ h. elim (Result-cases (parse_poa_uri urls target)) [
    | inr (x, failed) ↦ let k = rw failed at h in cc
    | inl (a, parsed) ↦ (a, parsed, any_contains-IsInScope urls ignore a scopes (rw parsed at h))
  ],
  λ (a, parsed, inside). rw parsed (IsInScope-any_contains urls ignore a scopes inside),
)

-- An address that `child` returns lies below the address it is made from, and the rest of the address is the same.
pub is_ancestor_of-child :
    (ignore : Bool) (uri below : PoaUri) (segments : List String)
    → child uri segments ≡ ok below
    → is_ancestor_of ignore uri below ≡ true
is_ancestor_of-child ignore uri below segments h =
    let made =
      poa_uri-fields uri.tenant uri.project uri.revision (uri.segments ++ segments) below h in
    rw
      (
        ← made,
        eq_refl uri.tenant,
        eq_refl uri.project,
        eq_refl uri.revision,
        begins-append uri.segments segments,
      )
      (elim (Bool-cases ignore) [ inl e ↦ rw e refl | inr e ↦ rw e refl ])
