-- ===== src/Planner/Extensions.antt =====
-- The operations that a lower lid needs are on the targets of the plan.
use twinstudio.Base.{
  ℕ, String, ◌≡◌, inl, inr, not, ◌||◌, Option, none, some, List, [], ◌∷◌, ◌++◌, All, Bool-cases, ok,
  Result-cases,
}
use mathlib.Core.Path.{subst}
use twinstudio.Base.Dict.{get}
use twinstudio.Base.Json.{item}
use twinstudio.Domain.Snapshot.{ProjectSnapshot}
use twinstudio.Planner.{ChangeOperation, Tools}
use twinstudio.Planner.Heights.{Dependency, lid_height_dependency}
use twinstudio.Planner.Dependencies.{
  sets_parameter, is_the_text, sets_boss_top, Extension, with_dependency, extend_one, extend,
}

pub All-append {ℓ κ} :
    {A : Type ℓ} (P : A → Type κ) (xs : List A) (x : A) → All P xs → P x → All P (xs ++ (x ∷ []))
All-append P [] x h p = (p, tt)
All-append P (y ∷ ys) x h p = (h.0, All-append P ys x h.1 p)

-- Every operation has a target with the property.
abbrev pub Targets : (String → Type 0) → List ChangeOperation → Type 0
Targets P operations = All (λ operation. P operation.target_uri) operations

module _ (P : String → Type 0) (tools : Tools) (ids : ℕ → String) (project : ProjectSnapshot) where
  with_dependency-Targets :
      (operation : ChangeOperation) (dependency : Option Dependency) (e : Extension)
      → P operation.target_uri
      → Targets P e.operations
      → Targets P (with_dependency tools ids operation dependency e).operations
  with_dependency-Targets operation none e p h = h
  with_dependency-Targets operation (some dependency) e p h =
      elim (Bool-cases (sets_boss_top operation.target_uri e.keys)) [
        | inl there ↦ rw there h
        | inr absent ↦ rw absent (All-append (λ o. P o.target_uri) e.operations _ h p)
      ]

  extend_one-Targets :
      (operation : ChangeOperation) (e f : Extension)
      → P operation.target_uri
      → Targets P e.operations
      → extend_one tools ids project operation e ≡ ok f
      → Targets P f.operations
  extend_one-Targets operation e f p h extended =
      elim (Bool-cases (
        not (sets_parameter operation)
        || not (is_the_text "height" (get "parameter" operation.arguments)))) [
          | inl other ↦
              let k : ok e ≡ ok f = rw other at extended in
              let same : e ≡ f = cc in subst (λ x. Targets P x.operations) same h
          | inr height ↦ elim (Result-cases (item "value" operation.arguments)) [
            | inr (x, missing) ↦ let k = rw (height, missing) at extended in cc
            | inl (value, given) ↦ elim (Result-cases (tools.float_of value)) [
              | inr (x, refused) ↦ let k = rw (height, given, refused) at extended in cc
              | inl (number, read) ↦
                  elim (Result-cases
                    (lid_height_dependency tools project operation.target_uri number)) [
                      | inr (x, broken) ↦ let k = rw (height, given, read, broken) at extended in cc
                      | inl (dependency, found) ↦
                          let g = with_dependency tools ids operation dependency e in
                          let k : ok g ≡ ok f = rw (height, given, read, found) at extended in
                          let same : g ≡ f = cc in
                          subst (λ x. Targets P x.operations) same
                            (with_dependency-Targets operation dependency e p h)
                    ]
            ]
          ]
        ]

  pub extend-Targets :
      (operations : List ChangeOperation) (e f : Extension)
      → Targets P operations
      → Targets P e.operations
      → extend tools ids project operations e ≡ ok f
      → Targets P f.operations
  extend-Targets [] e f ps h extended =
      let same : e ≡ f = cc in subst (λ x. Targets P x.operations) same h
  extend-Targets (operation ∷ operations) e f ps h extended =
      elim (Result-cases (extend_one tools ids project operation e)) [
        | inr (x, broken) ↦ let k = rw broken at extended in cc
        | inl (g, one) ↦
            let k = rw one at extended in
            extend-Targets operations g f ps.1 (extend_one-Targets operation e g ps.0 h one) k
      ]
