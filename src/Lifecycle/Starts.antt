-- ===== src/Lifecycle/Starts.antt =====
-- The registry returns a blueprint for every template without repetition.
use twinstudio.Base.{
  String, ◌≡◌, refl, ap, ◌∙◌, Bool, true, false, ◌||◌, not, some, inl, inr, List, [], ◌∷◌, any,
  Bool-cases, arith, ok, ◌==◌, eq_iff, if◌then◌else◌,
}
use mathlib.Core.Path.{subst}
use twinstudio.Base.Dict.{get}
use twinstudio.Domain.Stages.{LifecycleStage, value, of_value, of_value-value}
use twinstudio.Lifecycle.Guidance.{among}
use twinstudio.Lifecycle.Registry.{
  LifecycleTransition, LifecycleBlueprint, LifecycleTemplate, EvolutionCatalog, stage_ids,
  has_duplicates, validate_stage_graph, transitions_along, start_stage, chain, build, blueprint,
}
use twinstudio.Lifecycle.Chains.{stage_eq_refl, stage_ids-definition_of}

abbrev outside : List LifecycleStage → LifecycleTransition → Bool
outside ids t = not (among t.from_stage ids) || not (among t.to_stage ids)

inside_along :
    (ids stages : List LifecycleStage)
    → ((s : LifecycleStage) → among s stages ≡ true → among s ids ≡ true)
    → any (outside ids) (transitions_along stages) ≡ false
inside_along ids [] sub = refl
inside_along ids (a ∷ []) sub = refl
inside_along ids (a ∷ b ∷ stages) sub =
    let from_in : among a ids ≡ true = sub a (rw (stage_eq_refl a) refl) in
    let second : among b (b ∷ stages) ≡ true = rw (stage_eq_refl b) refl in
    let to_in : among b ids ≡ true = sub b (ground (arith, second)) in
    let rest : any (outside ids) (transitions_along (b ∷ stages)) ≡ false =
      inside_along ids (b ∷ stages) (λ s h. sub s (ground (arith, h))) in
    rw (from_in, to_in) rest

-- The validator lets a graph through that satisfies its three conditions.
valid :
    (b : LifecycleBlueprint) (stages : List LifecycleStage)
    → stage_ids b.stages ≡ stages
    → has_duplicates stages ≡ false
    → among b.current_stage stages ≡ true
    → any (outside stages) b.transitions ≡ false
    → validate_stage_graph b ≡ ok b
unfolding validate_stage_graph
valid b stages ids distinct member inside = rw (ids, distinct, member, inside) refl

start_asked :
    (head asked : LifecycleStage) (stages : List LifecycleStage)
    → start_stage head stages (some (value asked)) ≡ ok (if among asked stages then asked else head)
unfolding start_stage of_value
start_asked head asked stages = elim (Bool-cases (value asked == "")) [
  | inl empty ↦
      let same : value asked ≡ "" = (eq_iff (value asked) "").0 empty in
      let k : of_value "" ≡ some asked =
        subst (λ t. of_value t ≡ some asked) same (of_value-value asked) in
      cc
  | inr text ↦ rw (text, of_value-value asked) refl
]

start_among :
    (head asked : LifecycleStage) (rest : List LifecycleStage)
    → among (if among asked (head ∷ rest) then asked else head) (head ∷ rest) ≡ true
start_among head asked rest = elim (Bool-cases (among asked (head ∷ rest))) [
  | inl has ↦
      let chosen : asked ≡ (if among asked (head ∷ rest) then asked else head) = rw has refl in
      subst (λ s. among s (head ∷ rest) ≡ true) chosen has
  | inr lacks ↦
      let chosen : head ≡ (if among asked (head ∷ rest) then asked else head) = rw lacks refl in
      subst (λ s. among s (head ∷ rest) ≡ true) chosen (rw (stage_eq_refl head) refl)
]

-- Where the catalog has the template and its stages are `head ∷ rest` without repetition, the registry
-- returns a blueprint for any stage that is asked for; it starts at that stage where the template has
-- it, and at the first stage otherwise.
pub blueprint-total :
    (catalog : EvolutionCatalog) (template_id : String) (template : LifecycleTemplate)
    (head : LifecycleStage) (rest : List LifecycleStage) (asked : LifecycleStage)
    → get template_id catalog.lifecycle_templates ≡ some template
    → template.stages ≡ head ∷ rest
    → has_duplicates (head ∷ rest) ≡ false
    → (b : LifecycleBlueprint) × (blueprint catalog template_id (some (value asked)) ≡ ok b)
      × (b.current_stage ≡ (if among asked (head ∷ rest) then asked else head))
unfolding blueprint build
blueprint-total catalog template_id template head rest asked found stages distinct =
    let all_stages = head ∷ rest in
    let start = if among asked all_stages then asked else head in
    let b = chain catalog template_id template all_stages start in
    let made : build catalog template_id template (some (value asked)) all_stages ≡ ok b =
      rw (start_asked head asked all_stages) (
        valid b all_stages (stage_ids-definition_of all_stages) distinct
          (start_among head asked rest) (inside_along all_stages all_stages (λ s h. h))) in
    let same : blueprint catalog template_id (some (value asked))
        ≡ build catalog template_id template (some (value asked)) template.stages =
      rw found refl in
    (b, same ∙ ap (build catalog template_id template (some (value asked))) stages ∙ made, refl)
