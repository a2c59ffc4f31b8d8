-- ===== src/Planner/Scopes.antt =====
-- No operation of a plan that `plan` returns leaves the selected scope.
use twinstudio.Base.{
  String, ◌≡◌, refl, ap, ◌∙◌, inl, inr, true, false, List, [], ◌∷◌, All, is_empty, Bool-cases, ok,
  Result-cases, ◌==◌,
}
use mathlib.Core.Path.{subst}
use twinstudio.Uri.{UrlLibrary, is_within_scope}
use twinstudio.Planner.{ChangeOperation, ChangePlan, Tools}
use twinstudio.Planner.Dependencies.{keys_of, Extension, extend, with_cad_dependencies}
use twinstudio.Planner.Plans.{
  check_targets, validate_scope, first_target, Job, drafted, local_plan, Answer, proposed, invalid,
  failed, ChangePlanProposal, litellm_plan, PlannerResult, planned_locally, planned_by_model,
  answered, plan,
}
use twinstudio.Planner.Extensions.{Targets, extend-Targets}

check_targets-Targets :
    (urls : UrlLibrary) (scopes : List String) (operations : List ChangeOperation)
    → check_targets urls scopes operations ≡ ok tt
    → Targets (λ target. is_within_scope urls target scopes true ≡ ok true) operations
check_targets-Targets urls scopes [] h = tt
check_targets-Targets urls scopes (operation ∷ operations) h =
    elim (Result-cases (is_within_scope urls operation.target_uri scopes true)) [
      | inr (x, broken) ↦ let k = rw broken at h in cc
      | inl (false, outside) ↦ let k = rw outside at h in cc
      | inl (true, inside) ↦
          let k = rw inside at h in (inside, check_targets-Targets urls scopes operations k)
    ]

-- A plan of the job: its scope is the selection, every operation lies in it whatever the revision, it is made
-- for the revision of the project and it asks for approval.
abbrev pub IsScoped : UrlLibrary → Job → ChangePlan → Type 0
IsScoped urls job p =
    (p.selected_scope_uris ≡ job.selection.target_object_uris)
    × (is_empty p.selected_scope_uris ≡ false)
    × All (λ o. is_within_scope urls o.target_uri job.selection.target_object_uris true ≡ ok true)
        p.operations
    × (p.base_revision ≡ job.project.revision)
    × (p.requires_approval ≡ true)

-- A plan is of the job, whatever its operations are.
abbrev IsOfJob : Job → ChangePlan → Type 0
IsOfJob job p =
    (p.selected_scope_uris ≡ job.selection.target_object_uris)
    × (p.base_revision ≡ job.project.revision)
    × (p.requires_approval ≡ true)

validate_scope-IsScoped :
    (urls : UrlLibrary) (job : Job) (p : ChangePlan)
    → IsOfJob job p
    → validate_scope urls p ≡ ok tt
    → IsScoped urls job p
unfolding validate_scope
validate_scope-IsScoped urls job p (same, revision, approval) h =
    elim (Bool-cases (is_empty p.selected_scope_uris)) [
      | inl empty ↦ let k = rw empty at h in cc
      | inr given ↦
          let checked : check_targets urls p.selected_scope_uris p.operations ≡ ok tt =
            rw given at h in
          let inside = check_targets-Targets urls p.selected_scope_uris p.operations checked in
          (
            same,
            given,
            subst
                (λ scopes.
                  Targets (λ target. is_within_scope urls target scopes true ≡ ok true)
                    p.operations)
                same inside,
            revision,
            approval,
          )
    ]

-- The operations that a lower lid needs keep a plan in its scope, and of its job.
dependencies-IsOfJob :
    (tools : Tools) (job : Job) (p q : ChangePlan)
    → with_cad_dependencies tools job.ids job.project p ≡ ok q
    → (q.selected_scope_uris ≡ p.selected_scope_uris)
      × (q.base_revision ≡ p.base_revision)
      × (q.requires_approval ≡ p.requires_approval)
      × ((P : String → Type 0) → Targets P p.operations → Targets P q.operations)
unfolding with_cad_dependencies
dependencies-IsOfJob tools job p q h = elim (Result-cases (keys_of p.operations)) [
  | inr (x, broken) ↦ let k = rw broken at h in cc
  | inl (keys, found) ↦
      let start : Extension = record {
        operations = p.operations;
        impact = p.impact;
        assumptions = p.assumptions;
        keys = keys;
      } in
      elim (Result-cases (extend tools job.ids job.project p.operations start)) [
        | inr (x, broken) ↦ let k = rw (found, broken) at h in cc
        | inl (e, extended) ↦
            let r : ChangePlan = record p {
              operations = e.operations;
              impact = e.impact;
              assumptions = e.assumptions;
            } in
            let k : ok r ≡ ok q = rw (found, extended) at h in
            let same : r ≡ q = cc in
            subst
              (λ z.
                (z.selected_scope_uris ≡ p.selected_scope_uris)
                × (z.base_revision ≡ p.base_revision)
                × (z.requires_approval ≡ p.requires_approval)
                × ((P : String → Type 0) → Targets P p.operations → Targets P z.operations))
              same
              (
                refl,
                refl,
                refl,
                λ P targets.
                    extend-Targets P tools job.ids job.project p.operations start e targets targets
                      extended,
              )
      ]
]

local_plan-IsScoped :
    (tools : Tools) (urls : UrlLibrary) (job : Job) (p : ChangePlan)
    → local_plan tools urls job ≡ ok p
    → IsScoped urls job p
unfolding local_plan
local_plan-IsScoped tools urls job p h =
    elim (Result-cases (first_target job.selection.target_object_uris)) [
      | inr (x, empty) ↦ let k = rw empty at h in cc
      | inl (target, chosen) ↦
          elim (Result-cases (validate_scope urls (drafted tools job target))) [
            | inr (x, outside) ↦ let k = rw (chosen, outside) at h in cc
            | inl (tt, inside) ↦
                let k : ok (drafted tools job target) ≡ ok p = rw (chosen, inside) at h in
                let same : drafted tools job target ≡ p = cc in
                subst (IsScoped urls job) same (
                  validate_scope-IsScoped urls job (drafted tools job target) (refl, refl, refl)
                    inside)
          ]
    ]

extended-IsScoped :
    (tools : Tools) (urls : UrlLibrary) (job : Job) (p q : ChangePlan)
    → IsScoped urls job p
    → with_cad_dependencies tools job.ids job.project p ≡ ok q
    → IsScoped urls job q
extended-IsScoped tools urls job p q (same, given, inside, revision, approval) h =
    let (scopes, base, asks, keeps) = dependencies-IsOfJob tools job p q h in
    (
      scopes ∙ same,
      ap is_empty scopes ∙ given,
      keeps (λ target. is_within_scope urls target job.selection.target_object_uris true ≡ ok true)
          inside,
      base ∙ revision,
      asks ∙ approval,
    )

planned_locally-IsScoped :
    (tools : Tools) (urls : UrlLibrary) (job : Job) (mode message : String) (r : PlannerResult)
    → planned_locally tools urls job mode message ≡ ok r
    → IsScoped urls job r.plan
planned_locally-IsScoped tools urls job mode message r h =
    elim (Result-cases (local_plan tools urls job)) [
      | inr (x, broken) ↦ let k = rw broken at h in cc
      | inl (p, planned) ↦ elim (Result-cases (with_cad_dependencies tools job.ids job.project p)) [
        | inr (x, broken) ↦ let k = rw (planned, broken) at h in cc
        | inl (q, extended) ↦
            let s : PlannerResult = record { plan = q; mode = mode; message = message } in
            let k : ok s ≡ ok r = rw (planned, extended) at h in
            let same : s ≡ r = cc in
            subst (λ z. IsScoped urls job z.plan) same
              (extended-IsScoped tools urls job p q (local_plan-IsScoped tools urls job p planned)
                extended)
      ]
    ]

planned_by_model-IsScoped :
    (tools : Tools) (urls : UrlLibrary) (job : Job) (model : String) (proposal : ChangePlanProposal)
    (p : ChangePlan)
    → planned_by_model tools urls job model proposal ≡ ok p
    → IsScoped urls job p
planned_by_model-IsScoped tools urls job model proposal p h =
    elim (Result-cases
      (with_cad_dependencies tools job.ids job.project (litellm_plan model job proposal))) [
        | inr (x, broken) ↦ let k = rw broken at h in cc
        | inl (q, extended) ↦ elim (Result-cases (validate_scope urls q)) [
          | inr (x, outside) ↦ let k = rw (extended, outside) at h in cc
          | inl (tt, inside) ↦
              let k : ok q ≡ ok p = rw (extended, inside) at h in
              let same : q ≡ p = cc in
              let (scopes, base, asks, keeps) =
                dependencies-IsOfJob tools job (litellm_plan model job proposal) q extended in
              subst (IsScoped urls job) same
                (validate_scope-IsScoped urls job q (scopes, base, asks) inside)
        ]
      ]

answered-IsScoped :
    (tools : Tools) (urls : UrlLibrary) (job : Job) (model : String) (answer : Answer)
    (r : PlannerResult)
    → answered tools urls job model answer ≡ ok r
    → IsScoped urls job r.plan
answered-IsScoped tools urls job model invalid r h = cc
answered-IsScoped tools urls job model failed r h = planned_locally-IsScoped tools urls job _ _ r h
answered-IsScoped tools urls job model (proposed proposal) r h =
    elim (Result-cases (planned_by_model tools urls job model proposal)) [
      | inr (x, refused) ↦
          let k = rw (refused, answered) at h in planned_locally-IsScoped tools urls job _ _ r k
      | inl (p, accepted) ↦
          let k = rw (accepted, answered) at h in
          let same : p ≡ r.plan = cc in
          subst (IsScoped urls job) same
            (planned_by_model-IsScoped tools urls job model proposal p accepted)
    ]

-- Whatever a language model answers, in a plan that `plan` returns the scope is the selection and is not empty,
-- every operation is within the scope up to the revision, the operations added for a lower lid included, the
-- base revision is that of the project and the plan asks for approval.
pub plan-IsScoped :
    (tools : Tools) (urls : UrlLibrary) (job : Job) (model : String) (answer : Answer)
    (r : PlannerResult)
    → plan tools urls job model answer ≡ ok r
    → IsScoped urls job r.plan
unfolding plan
plan-IsScoped tools urls job model answer r h = elim (Bool-cases (model == "")) [
  | inl alone ↦ let k = rw alone at h in planned_locally-IsScoped tools urls job _ _ r k
  | inr configured ↦ let k = rw configured at h in answered-IsScoped tools urls job model answer r k
]
