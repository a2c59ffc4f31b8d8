-- ===== src/Planner/Owners.antt =====
-- The object that a target belongs to is the deepest object above it.
use twinstudio.Base.{
  ◌≤◌, String, ◌≡◌, refl, sym, ◌∙◌, ◌⊎◌, inl, inr, true, false, List, [], ◌∷◌, All, length, arith,
  Bool-cases, ok, Result-cases, ◌==◌, eq_iff,
}
use mathlib.Core.Path.{subst}
use twinstudio.Base.Dict.{Dict, has, keys}
use twinstudio.Domain.Snapshot.{ProjectSnapshot}
use twinstudio.Uri.{UrlLibrary, PoaUri, is_ancestor_of, parse_poa_uri}
use twinstudio.Planner.Payload.{
  Candidate, is_above, candidates, is_below, greatest, owner_of, owning_object_uri,
}

module _ {ℓ κ} {V : Type ℓ} (P : String → Type κ) where
  All-keys : (d : Dict V) → ((k : String) → has k d ≡ true → P k) → All P (keys d)
  All-keys [] h = tt
  All-keys ((j, v) ∷ d) h =
      (h j (ground (arith, eq_iff j j)), All-keys d (λ k there. h k (ground (arith, eq_iff j k))))

  keys-All : (d : Dict V) (k : String) → has k d ≡ true → All P (keys d) → P k
  keys-All [] k there h = cc
  keys-All ((j, v) ∷ d) k there h = elim (Bool-cases (j == k)) [
    | inl same ↦ subst P ((eq_iff j k).0 same) h.0
    | inr other ↦ let k' = rw (has, other) at there in keys-All d k k' h.1
  ]

is_above-is_ancestor_of : (r a : PoaUri) → is_above r a ≡ is_ancestor_of true r a
is_above-is_ancestor_of r a = ground arith

module _ (urls : UrlLibrary) (a : PoaUri) where
  -- What holds of every object above the address holds of the candidates.
  candidates-All :
      (P : Candidate → Type 0) (Q : String → Type 0)
      → ((u : String) (r : PoaUri)
          → Q u
          → parse_poa_uri urls u ≡ ok r
          → is_ancestor_of true r a ≡ true
          → P (length r.segments, u))
      → (uris : List String) (cs : List Candidate) → All Q uris
      → candidates urls a uris ≡ ok cs
      → All P cs
  candidates-All P Q make [] cs h found = let same : [] ≡ cs = cc in subst (All P) same tt
  candidates-All P Q make (uri ∷ uris) cs h found = elim (Result-cases (parse_poa_uri urls uri)) [
    | inr (x, broken) ↦ let k = rw broken at found in cc
    | inl (r, parsed) ↦ elim (Result-cases (candidates urls a uris)) [
      | inr (x, broken) ↦ let k = rw (parsed, broken) at found in cc
      | inl (rest, collected) ↦
          let others = candidates-All P Q make uris rest h.1 collected in
          elim (Bool-cases (is_above r a)) [
            | inl above ↦
                let k : ok ((length r.segments, uri) ∷ rest) ≡ ok cs =
                  rw (parsed, collected, above) at found in
                let same : (length r.segments, uri) ∷ rest ≡ cs = cc in
                subst (All P) same
                  (make uri r h.0 parsed (sym (is_above-is_ancestor_of r a) ∙ above), others)
            | inr beside ↦
                let k : ok rest ≡ ok cs = rw (parsed, collected, beside) at found in
                let same : rest ≡ cs = cc in subst (All P) same others
          ]
    ]
  ]

  -- Every object above the address is a candidate: what holds of all candidates holds of it.
  All-candidates :
      (P : Candidate → Type 0) (uris : List String) (cs : List Candidate)
      → candidates urls a uris ≡ ok cs
      → All P cs
      → All
          (λ u.
            (r : PoaUri)
            → parse_poa_uri urls u ≡ ok r
            → is_ancestor_of true r a ≡ true
            → P (length r.segments, u))
          uris
  All-candidates P [] cs found ps = tt
  All-candidates P (uri ∷ uris) cs found ps = elim (Result-cases (parse_poa_uri urls uri)) [
    | inr (x, broken) ↦ let k = rw broken at found in cc
    | inl (r, parsed) ↦ elim (Result-cases (candidates urls a uris)) [
      | inr (x, broken) ↦ let k = rw (parsed, broken) at found in cc
      | inl (rest, collected) ↦ elim (Bool-cases (is_above r a)) [
        | inl above ↦
            let k : ok ((length r.segments, uri) ∷ rest) ≡ ok cs =
              rw (parsed, collected, above) at found in
            let same : cs ≡ (length r.segments, uri) ∷ rest = cc in
            let qs = subst (All P) same ps in
            (
              λ s again up.
                  let one : r ≡ s = (let k = sym parsed ∙ again in cc) in
                  subst (λ z. P (length z.segments, uri)) one qs.0,
              All-candidates P uris rest collected qs.1,
            )
        | inr beside ↦
            let k : ok rest ≡ ok cs = rw (parsed, collected, beside) at found in
            let same : cs ≡ rest = cc in
            (
              λ s again up.
                  let one : r ≡ s = (let k = sym parsed ∙ again in cc) in
                  let out = subst (λ z. is_above z a ≡ false) one beside in
                  let absurd : true ≡ false = sym up ∙ sym (is_above-is_ancestor_of s a) ∙ out in
                  cc,
              All-candidates P uris rest collected (subst (All P) same ps),
            )
      ]
    ]
  ]

greatest-All :
    (P : Candidate → Type 0) (c : Candidate) (cs : List Candidate)
    → All P (c ∷ cs)
    → P (greatest c cs)
greatest-All P c [] h = h.0
greatest-All P c (d ∷ ds) h = elim (Bool-cases (is_below c d)) [
  | inl below ↦ rw below (greatest-All P d ds h.1)
  | inr above ↦ rw above (greatest-All P c ds (h.0, h.1.1))
]

greatest_bound : (c : Candidate) (cs : List Candidate) → All (λ d. d.0 ≤ (greatest c cs).0) (c ∷ cs)
greatest_bound c [] = (omega arith, tt)
greatest_bound c (d ∷ ds) = elim (Bool-cases (is_below c d)) [
  | inl below ↦
      let same : greatest d ds ≡ greatest c (d ∷ ds) = rw below refl in
      let rest = greatest_bound d ds in
      let lower : c.0 ≤ (greatest d ds).0 = ground (arith, rest.0, below) in
      subst (λ g. All (λ x. x.0 ≤ g.0) (c ∷ d ∷ ds)) same (lower, rest)
  | inr above ↦
      let same : greatest c ds ≡ greatest c (d ∷ ds) = rw above refl in
      let rest = greatest_bound c ds in
      let lower : d.0 ≤ (greatest c ds).0 = ground (arith, rest.0, above) in
      subst (λ g. All (λ x. x.0 ≤ g.0) (c ∷ d ∷ ds)) same (rest.0, (lower, rest.1))
]

-- The object is the target, or else it is an object above it, up to the revision, and no object above it has more
-- segments.
abbrev pub IsOwner : UrlLibrary → String → ProjectSnapshot → String → Type 0
IsOwner urls target project uri =
    (has uri project.objects ≡ true)
    × ((uri ≡ target)
        ⊎ ((a : PoaUri) × (r : PoaUri) × (parse_poa_uri urls target ≡ ok a)
            × (parse_poa_uri urls uri ≡ ok r)
            × (is_ancestor_of true r a ≡ true)
            × ((other : String) (o : PoaUri)
                → has other project.objects ≡ true
                → parse_poa_uri urls other ≡ ok o
                → is_ancestor_of true o a ≡ true
                → length o.segments ≤ length r.segments)))

-- a candidate that stands for an object above the address
abbrev IsAbove : UrlLibrary → PoaUri → ProjectSnapshot → Candidate → Type 0
IsAbove urls a project c =
    (has c.1 project.objects ≡ true)
    × ((r : PoaUri) × (parse_poa_uri urls c.1 ≡ ok r)
        × (is_ancestor_of true r a ≡ true)
        × (c.0 ≡ length r.segments))

owner_of-IsOwner :
    (urls : UrlLibrary) (target : String) (project : ProjectSnapshot) (a : PoaUri)
    (cs : List Candidate) (uri : String)
    → parse_poa_uri urls target ≡ ok a
    → candidates urls a (keys project.objects) ≡ ok cs
    → owner_of cs ≡ ok uri
    → IsOwner urls target project uri
owner_of-IsOwner urls target project a [] uri parsed found h = cc
owner_of-IsOwner urls target project a (c ∷ cs) uri parsed found h =
    let all_above =
      candidates-All urls a (IsAbove urls a project) (λ u. has u project.objects ≡ true)
        (λ u r there again up. (there, (r, again, up, refl))) (keys project.objects) (c ∷ cs)
        (All-keys (λ u. has u project.objects ≡ true) project.objects (λ k there. there)) found in
    let (there, (r, again, up, size)) = greatest-All (IsAbove urls a project) c cs all_above in
    let most =
      All-candidates urls a (λ d. d.0 ≤ (greatest c cs).0) (keys project.objects) (c ∷ cs) found
        (greatest_bound c cs) in
    let same : (greatest c cs).1 ≡ uri = cc in
    let deepest : (other : String) (o : PoaUri)
        → has other project.objects ≡ true
        → parse_poa_uri urls other ≡ ok o
        → is_ancestor_of true o a ≡ true
        → length o.segments ≤ length r.segments =
      λ other o inside parsed_other above.
        rw (← size) (keys-All _ project.objects other inside most o parsed_other above) in
    subst (IsOwner urls target project) same (there, inr (a, r, parsed, again, up, deepest))

-- The object that `_owning_object_uri` returns for a target is an object of the project. It is the target itself,
-- or its address is above that of the target, up to the revision, and has as many segments as any object's
-- address above it.
pub owning_object_uri-IsOwner :
    (urls : UrlLibrary) (target : String) (project : ProjectSnapshot) (uri : String)
    → owning_object_uri urls target project ≡ ok uri
    → IsOwner urls target project uri
unfolding owning_object_uri
owning_object_uri-IsOwner urls target project uri h =
    elim (Bool-cases (has target project.objects)) [
      | inl there ↦
          let k : ok target ≡ ok uri = rw there at h in
          let same : target ≡ uri = cc in subst (IsOwner urls target project) same (there, inl refl)
      | inr absent ↦ elim (Result-cases (parse_poa_uri urls target)) [
        | inr (x, broken) ↦ let k = rw (absent, broken) at h in cc
        | inl (a, parsed) ↦ elim (Result-cases (candidates urls a (keys project.objects))) [
          | inr (x, broken) ↦ let k = rw (absent, parsed, broken) at h in cc
          | inl (cs, found) ↦
              let k = rw (absent, parsed, found) at h in
              owner_of-IsOwner urls target project a cs uri parsed found k
        ]
      ]
    ]
