-- ===== src/History/Tampering.antt =====
-- What the last hash of a chain says of its entries.
use twinstudio.Base.{
  ℕ, ◌+◌, String, ◌≡◌, ◌≢◌, sym, ◌∙◌, ap, ◌⊎◌, inl, inr, Option, some, List, [], ◌∷◌, length, arith,
  Bool-cases, Result, ok, Result-cases, ◌==◌, eq_iff,
}
use twinstudio.Base.Dict.{Dict, get, pop, get-pop}
use twinstudio.Base.Json.{Json, str, obj, of_fields}
use twinstudio.History.{Python}
use twinstudio.History.Log.{no_hash, hash_of, validate_hash_chain}
use twinstudio.History.Chain.{IsChainedFrom, validate_hash_chain_iff}

-- the canonical JSON of an entry without its own hash
abbrev pub sealed_text : Python → Dict Json → Result String
sealed_text python d = python.canonical_json (obj (of_fields (pop "eventHash" d)))

-- Two lists have the same entries, by their canonical JSON.
abbrev pub IsSameHistory : Python → List (Dict Json) → List (Dict Json) → Type 0
IsSameHistory python [] [] = Unit
IsSameHistory python (d ∷ ds) (e ∷ es) =
    (sealed_text python d ≡ sealed_text python e) × IsSameHistory python ds es
IsSameHistory python ds es = ⊥

-- two texts with the same hash
abbrev pub Collision : Python → Type 0
Collision python = (s : String) × (t : String) × (s ≢ t) × (python.sha256 s ≡ python.sha256 t)

-- the hash stored in the last entry, or the value before the first
abbrev pub last_hash : Option Json → List (Dict Json) → Option Json
last_hash previous [] = previous
last_hash previous (d ∷ ds) = last_hash (get "eventHash" d) ds

-- What is relied on of `json.dumps`: when two dicts have a text at `previousHash` each and get the same JSON,
-- these texts are the same.
abbrev pub KeepsLinks : Python → Type 0
KeepsLinks python =
    (d e : Dict Json) (p q t : String)
    → get "previousHash" d ≡ some (str p)
    → get "previousHash" e ≡ some (str q)
    → python.canonical_json (obj (of_fields d)) ≡ ok t
    → python.canonical_json (obj (of_fields e)) ≡ ok t
    → p ≡ q

hash_of_lem :
    (python : Python) (d : Dict Json) (hash : String)
    → hash_of python d ≡ ok hash
    → (t : String) × (sealed_text python d ≡ ok t) × (python.sha256 t ≡ hash)
hash_of_lem python d hash h = elim (Result-cases (sealed_text python d)) [
  | inr (x, failed) ↦ let k = rw failed at h in cc
  | inl (t, dumped) ↦ let k : ok (python.sha256 t) ≡ ok hash = rw dumped at h in (t, dumped, cc)
]

same_text :
    (python : Python) (d e : Dict Json) (hash : String)
    → hash_of python d ≡ ok hash
    → hash_of python e ≡ ok hash
    → ((t : String) × (sealed_text python d ≡ ok t) × (sealed_text python e ≡ ok t))
      ⊎ Collision python
same_text python d e hash h k =
    let (s, dumped, sealed) = hash_of_lem python d hash h in
    let (t, dumped_too, sealed_too) = hash_of_lem python e hash k in
    elim (Bool-cases (s == t)) [
      | inl same ↦ inl (s, dumped, dumped_too ∙ ap ok (sym ((eq_iff s t).0 same)))
      | inr differ ↦
          inr (s, t, (λ same. let k = (eq_iff s t).1 same in cc), sealed ∙ sym sealed_too)
    ]

same_link :
    (python : Python) (p q : String) (d e : Dict Json)
    → KeepsLinks python
    → ((t : String) × (sealed_text python d ≡ ok t) × (sealed_text python e ≡ ok t))
    → get "previousHash" d ≡ some (str p)
    → get "previousHash" e ≡ some (str q)
    → p ≡ q
same_link python p q d e keeps (t, dumped, dumped_too) linked linked_too =
    let here = get-pop "eventHash" "previousHash" d in
    let there = get-pop "eventHash" "previousHash" e in
    keeps (pop "eventHash" d) (pop "eventHash" e) p q t (here ∙ linked) (there ∙ linked_too) dumped
      dumped_too

pinned_from :
    (python : Python) (n : ℕ) (p q : String) (ds es : List (Dict Json))
    → KeepsLinks python
    → length ds ≡ length es
    → IsChainedFrom python n p ds
    → IsChainedFrom python n q es
    → last_hash (some (str p)) ds ≡ last_hash (some (str q)) es
    → (IsSameHistory python ds es × (p ≡ q)) ⊎ Collision python
pinned_from python n p q [] [] keeps sizes h k last = inl (tt, cc)
pinned_from python n p q [] (e ∷ es) keeps sizes h k last =
    let absurd : ⊥ = omega (arith, sizes) in elim absurd [ ]
pinned_from python n p q (d ∷ ds) [] keeps sizes h k last =
    let absurd : ⊥ = omega (arith, sizes) in elim absurd [ ]
pinned_from python n p q (d ∷ ds) (e ∷ es) keeps sizes (a, linked, (hash, hashed, stored, h))
      (b, linked_too, (hash_too, hashed_too, stored_too, k)) last =
    elim (pinned_from python (n + 1) hash hash_too ds es keeps (omega (arith, sizes)) h k
      (sym (ap (λ o. last_hash o ds) stored) ∙ last ∙ ap (λ o. last_hash o es) stored_too)) [
        | inr broken ↦ inr broken
        | inl (rest, same) ↦
            elim (same_text python d e hash hashed (hashed_too ∙ ap ok (sym same))) [
              | inr broken ↦ inr broken
              | inl (t, dumped, dumped_too) ↦ inl (
                (dumped ∙ sym dumped_too, rest),
                same_link python p q d e keeps (t, dumped, dumped_too) linked linked_too,
              )
            ]
      ]

-- When `validate_hash_chain` has no finding on either of two lists of the same length, and the last hashes
-- stored in them agree, the lists have the same entries by their canonical JSON, or else two different texts
-- are at hand with the same SHA-256. It is taken that two dicts with texts at `previousHash` get the same canonical
-- JSON only if these texts are the same.
pub last_hash-IsSameHistory :
    (python : Python) (ds es : List (Dict Json))
    → KeepsLinks python
    → length ds ≡ length es
    → validate_hash_chain python ds ≡ ok []
    → validate_hash_chain python es ≡ ok []
    → last_hash (some (str no_hash)) ds ≡ last_hash (some (str no_hash)) es
    → IsSameHistory python ds es ⊎ Collision python
last_hash-IsSameHistory python ds es keeps sizes h k last =
    elim (pinned_from python 1 no_hash no_hash ds es keeps sizes
      ((validate_hash_chain_iff python ds).0 h) ((validate_hash_chain_iff python es).0 k) last) [
        | inl (same, _) ↦ inl same
        | inr broken ↦ inr broken
      ]
