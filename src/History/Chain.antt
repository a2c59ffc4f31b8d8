-- ===== src/History/Chain.antt =====
-- When `validate_hash_chain` has nothing to report, and that it has nothing to report of a projection.
use twinstudio.Base.{
  ℕ, ◌+◌, String, ◌≡◌, ◌↔◌, refl, sym, ◌∙◌, ap, inl, inr, true, Option, none, some, List, [], ◌∷◌,
  ◌++◌, arith, Bool-cases, Result, ok, err, Result-cases, eq_iff, eq_refl,
}
use mathlib.Core.Path.{subst}
use twinstudio.Base.Dict.{Dict, get, put, pop-put, get-put, get-put_self}
use twinstudio.Base.Json.{Json, pos, null, bool, int, float, str, arr, obj, of_fields}
use twinstudio.Domain.Envelopes.{EventEnvelope}
use twinstudio.History.{Python}
use twinstudio.History.Codes.{eda_events, logs_outcome}
use twinstudio.History.Log.{
  no_hash, hash_of, unsealed, entries_from, wellmanifest_projection, equals_number, equals_text,
  stored_hash, findings_at, check_from, validate_hash_chain,
}

-- Each entry has its place as its sequence number, the hash of the entry before it, and the hash of its
-- own canonical JSON.
abbrev pub IsChainedFrom : Python → ℕ → String → List (Dict Json) → Type 0
IsChainedFrom python n previous [] = Unit
IsChainedFrom python n previous (d ∷ ds) =
    (equals_number python n (get "sequence" d) ≡ true)
    × (get "previousHash" d ≡ some (str previous))
    × ((hash : String) × (hash_of python d ≡ ok hash)
        × (get "eventHash" d ≡ some (str hash))
        × IsChainedFrom python (n + 1) hash ds)

abbrev pub IsChained : Python → List (Dict Json) → Type 0
IsChained python ds = IsChainedFrom python 1 no_hash ds

pub equals_text-str : (t : String) (o : Option Json) → equals_text t o ≡ true → o ≡ some (str t)
equals_text-str t (some (str s)) h = ap (λ x. some (str x)) ((eq_iff s t).0 h)
equals_text-str t none h = cc
equals_text-str t (some null) h = cc
equals_text-str t (some (bool b)) h = cc
equals_text-str t (some (int i)) h = cc
equals_text-str t (some (float x)) h = cc
equals_text-str t (some (arr xs)) h = cc
equals_text-str t (some (obj fs)) h = cc

pub equals_text_refl : (t : String) → equals_text t (some (str t)) ≡ true
equals_text_refl t = eq_refl t

pub stored_hash_lem :
    (python : Python) (hash : String) (d : Dict Json)
    → get "eventHash" d ≡ some (str hash)
    → stored_hash python d ≡ hash
stored_hash_lem python hash d h = rw (h, stored_hash) refl

findings_at_none :
    (python : Python) (n : ℕ) (previous calculated : String) (d : Dict Json) (rest : List String)
    → findings_at python n previous calculated d ++ rest ≡ []
    → (equals_number python n (get "sequence" d) ≡ true)
      × (equals_text previous (get "previousHash" d) ≡ true)
      × (equals_text calculated (get "eventHash" d) ≡ true)
      × (rest ≡ [])
findings_at_none python n previous calculated d rest h =
    elim (Bool-cases (equals_number python n (get "sequence" d))) [
      | inr e ↦ let k = rw e at h in cc
      | inl numbered ↦ elim (Bool-cases (equals_text previous (get "previousHash" d))) [
        | inr e ↦ let k = rw (numbered, e) at h in cc
        | inl linked ↦ elim (Bool-cases (equals_text calculated (get "eventHash" d))) [
          | inr e ↦ let k = rw (numbered, linked, e) at h in cc
          | inl sealed ↦ let k = rw (numbered, linked, sealed) at h in (numbered, linked, sealed, k)
        ]
      ]
    ]

pub check_from-IsChained :
    (python : Python) (n : ℕ) (previous : String) (ds : List (Dict Json))
    → IsChainedFrom python n previous ds
    → check_from python n previous ds ≡ ok []
unfolding check_from
check_from-IsChained python n previous [] h = refl
check_from-IsChained python n previous (d ∷ ds) (numbered, linked, (hash, hashed, stored, h)) =
    let tail = check_from-IsChained python (n + 1) hash ds h in
    rw (hashed, stored_hash_lem python hash d stored, tail, numbered, linked, stored)
      (rw (equals_text_refl previous, equals_text_refl hash) refl)

pub IsChained-check_from :
    (python : Python) (n : ℕ) (previous : String) (ds : List (Dict Json))
    → check_from python n previous ds ≡ ok []
    → IsChainedFrom python n previous ds
unfolding check_from
IsChained-check_from python n previous [] h = tt
IsChained-check_from python n previous (d ∷ ds) h = elim (Result-cases (hash_of python d)) [
  | inr (e, hashed) ↦ let k = rw hashed at h in cc
  | inl (hash, hashed) ↦ elim (Result-cases (check_from python (n + 1) (stored_hash python d) ds)) [
    | inr (e, checked) ↦ let k = rw (hashed, checked) at h in cc
    | inl (rest, checked) ↦
        let k : ok (findings_at python n previous hash d ++ rest) ≡ ok [] =
          rw (hashed, checked) at h in
        let none_found : findings_at python n previous hash d ++ rest ≡ [] = cc in
        let all_hold = findings_at_none python n previous hash d rest none_found in
        let stored = equals_text-str hash (get "eventHash" d) all_hold.2 in
        let tail : check_from python (n + 1) hash ds ≡ ok [] =
          rw (← stored_hash_lem python hash d stored) (checked ∙ ap ok all_hold.3) in
        (
          all_hold.0,
          equals_text-str previous (get "previousHash" d) all_hold.1,
          (hash, hashed, stored, IsChained-check_from python (n + 1) hash ds tail),
        )
  ]
]

-- The findings of `validate_hash_chain` are empty exactly when each entry has its place in the list as its
-- sequence number, the hash stored in the entry before it (64 zeros for the first) as its previous hash, and
-- the hash of its own canonical JSON without that hash as its event hash.
pub validate_hash_chain_iff :
    (python : Python) (ds : List (Dict Json))
    → (validate_hash_chain python ds ≡ ok []) ↔ IsChained python ds
unfolding validate_hash_chain
validate_hash_chain_iff python ds =
    (IsChained-check_from python 1 no_hash ds, check_from-IsChained python 1 no_hash ds)

-- a value of a returned dict
fetch : String → Result (Dict Json) → Option Json
fetch key (ok d) = get key d
fetch key (err e) = none

unsealed-fields :
    (python : Python) (project : String) (n : ℕ) (previous : String) (e : EventEnvelope)
    (d : Dict Json)
    → unsealed python project n previous e ≡ ok d
    → (get "sequence" d ≡ some (int (pos n))) × (get "previousHash" d ≡ some (str previous))
unfolding unsealed fetch
unsealed-fields python project n previous e d h =
    elim (Result-cases (logs_outcome python e.event_type e.payload)) [
      | inr (x, failed) ↦ let k = rw failed at h in cc
      | inl (said, worked) ↦
          elim (Result-cases (python.canonical_json (obj (of_fields e.payload)))) [
            | inr (x, failed) ↦ let k = rw (worked, failed) at h in cc
            | inl (text, dumped) ↦
                let k = rw (worked, dumped) at h in
                (sym (ap (fetch "sequence") k), sym (ap (fetch "previousHash") k))
          ]
    ]

hash_of-put :
    (python : Python) (v : Json) (d : Dict Json)
    → hash_of python (put "eventHash" v d) ≡ hash_of python d
hash_of-put python v d = rw (pop-put "eventHash" v d) refl

numbered :
    (python : Python) (n : ℕ) (o : Option Json)
    → o ≡ some (int (pos n))
    → equals_number python n o ≡ true
numbered python n o h = rw h (ground arith)

entries_from-IsChained :
    (python : Python) (project : String) (n : ℕ) (previous : String) (es : List EventEnvelope)
    (ds : List (Dict Json))
    → entries_from python project n previous es ≡ ok ds
    → IsChainedFrom python n previous ds
unfolding entries_from
entries_from-IsChained python project n previous [] [] h = tt
entries_from-IsChained python project n previous [] (d ∷ ds) h = cc
entries_from-IsChained python project n previous (e ∷ es) ds h =
    elim (Result-cases (unsealed python project n previous e)) [
      | inr (x, failed) ↦ let k = rw failed at h in cc
      | inl (d, worked) ↦ elim (Result-cases (hash_of python d)) [
        | inr (x, failed) ↦ let k = rw (worked, failed) at h in cc
        | inl (hash, hashed) ↦ elim (Result-cases (entries_from python project (n + 1) hash es)) [
          | inr (x, failed) ↦ let k = rw (worked, hashed, failed) at h in cc
          | inl (rest, recorded) ↦
              let k : ok (put "eventHash" (str hash) d ∷ rest) ≡ ok ds =
                rw (worked, hashed, recorded) at h in
              let whole : put "eventHash" (str hash) d ∷ rest ≡ ds = cc in
              let said = unsealed-fields python project n previous e d worked in
              subst (λ z. IsChainedFrom python n previous z) whole
                (
                  numbered python n (get "sequence" (put "eventHash" (str hash) d))
                      (get-put "eventHash" "sequence" (str hash) d ∙ said.0),
                  get-put "eventHash" "previousHash" (str hash) d ∙ said.1,
                  (
                    hash,
                    hash_of-put python (str hash) d ∙ hashed,
                    get-put_self "eventHash" (str hash) d,
                    entries_from-IsChained python project (n + 1) hash es rest recorded,
                  ),
                )
        ]
      ]
    ]

-- Whatever the events and the functions of Python's library are, `validate_hash_chain` has no finding on the
-- entries that `wellmanifest_projection` returns.
pub validate_hash_chain-wellmanifest_projection :
    (python : Python) (project : String) (events : List EventEnvelope) (ds : List (Dict Json))
    → wellmanifest_projection python project events ≡ ok ds
    → validate_hash_chain python ds ≡ ok []
unfolding wellmanifest_projection
validate_hash_chain-wellmanifest_projection python project events ds h =
    (validate_hash_chain_iff python ds).1
      (entries_from-IsChained python project 1 no_hash (eda_events events) ds h)
