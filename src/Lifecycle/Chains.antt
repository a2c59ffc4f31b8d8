-- ===== src/Lifecycle/Chains.antt =====
-- A blueprint of the registry is a chain: from each stage it allows the next stage and no other.
use twinstudio.Base.{
  String, ◌≡◌, refl, sym, ap, ◌∙◌, Bool, true, false, ◌&&◌, ◌||◌, not, Option, none, some, inl, inr,
  List, [], ◌∷◌, map, first, any, Bool-cases, Option-cases, Result-cases, arith, ok, or_raise,
  attribute_error, eq_iff, eq_refl, if◌then◌else◌, length, take, drop, All, suc, ◌+◌,
}
use mathlib.Core.Path.{subst}
use twinstudio.Base.Dict.{get}
use twinstudio.Domain.Roles.{admin, creator}
use twinstudio.Domain.Stages.{LifecycleStage, value, of_value, of_value-value}
use twinstudio.Lifecycle.Guidance.{stage_eq, among}
use twinstudio.Lifecycle.Registry.{
  LifecycleTransition, LifecycleBlueprint, LifecycleTemplate, EvolutionCatalog, stage_ids,
  has_duplicates, validate_stage_graph, definition_of, transition_between, transitions_along,
  start_stage, build, blueprint, transition,
}

-- The stage after the first occurrence of a stage.
abbrev pub next_of : LifecycleStage → List LifecycleStage → Option LifecycleStage
next_of s [] = none
next_of s (a ∷ []) = none
next_of s (a ∷ b ∷ stages) = if stage_eq a s then some b else next_of s (b ∷ stages)

pub stage_eq-true : (a b : LifecycleStage) → stage_eq a b ≡ true → a ≡ b
stage_eq-true a b h =
    let same : value a ≡ value b = (eq_iff (value a) (value b)).0 h in
    let k : some a ≡ some b = sym (of_value-value a) ∙ ap of_value same ∙ of_value-value b in cc

pub stage_eq_refl : (a : LifecycleStage) → stage_eq a a ≡ true
stage_eq_refl a = eq_refl (value a)

-- whether a transition leads from one stage to another
abbrev leads : LifecycleStage → LifecycleStage → LifecycleTransition → Bool
leads s target t = stage_eq t.from_stage s && stage_eq t.to_stage target

-- what is found among the transitions from the stage that the next one is
abbrev pub found_of :
    LifecycleStage → LifecycleStage → Option LifecycleStage → Option LifecycleTransition
found_of s target none = none
found_of s target (some b) = if stage_eq b target then some (transition_between s b) else none

no_transition :
    (s target : LifecycleStage) (stages : List LifecycleStage)
    → among s stages ≡ false
    → first (leads s target) (transitions_along stages) ≡ none
no_transition s target [] h = refl
no_transition s target (a ∷ []) h = refl
no_transition s target (a ∷ b ∷ stages) h =
    let here : stage_eq a s ≡ false = ground arith in
    rw here (no_transition s target (b ∷ stages) (ground arith))

first-transitions_along :
    (s target : LifecycleStage) (stages : List LifecycleStage)
    → has_duplicates stages ≡ false
    → first (leads s target) (transitions_along stages) ≡ found_of s target (next_of s stages)
first-transitions_along s target [] d = refl
first-transitions_along s target (a ∷ []) d = refl
first-transitions_along s target (a ∷ b ∷ stages) d = elim (Bool-cases (stage_eq a s)) [
  | inl here ↦
      let same : a ≡ s = stage_eq-true a s here in
      let once : among a (b ∷ stages) ≡ false = ground arith in
      let absent : among s (b ∷ stages) ≡ false =
        subst (λ x. among x (b ∷ stages) ≡ false) same once in
      elim (Bool-cases (stage_eq b target)) [
        | inl hit ↦ rw (here, hit) (ap (λ x. some (transition_between x b)) same)
        | inr miss ↦ rw (here, miss) (no_transition s target (b ∷ stages) absent)
      ]
  | inr apart ↦ rw apart (first-transitions_along s target (b ∷ stages) (ground arith))
]

pub stage_ids-definition_of :
    (stages : List LifecycleStage) → stage_ids (map definition_of stages) ≡ stages
stage_ids-definition_of [] = refl
stage_ids-definition_of (a ∷ stages) = ap (λ rest. a ∷ rest) (stage_ids-definition_of stages)

validated :
    (b c : LifecycleBlueprint)
    → validate_stage_graph b ≡ ok c
    → (b ≡ c)
      × (has_duplicates (stage_ids b.stages) ≡ false)
      × (among b.current_stage (stage_ids b.stages) ≡ true)
unfolding validate_stage_graph
validated b c h = elim (Bool-cases (has_duplicates (stage_ids b.stages))) [
  | inl repeated ↦ let k = rw repeated at h in cc
  | inr distinct ↦
      let h1 = rw distinct at h in
      elim (Bool-cases (among b.current_stage (stage_ids b.stages))) [
        | inl member ↦
            let h2 = rw member at h1 in
            elim (Bool-cases (
              any
                (λ t.
                  not (among t.from_stage (stage_ids b.stages))
                  || not (among t.to_stage (stage_ids b.stages)))
                b.transitions)) [
                  | inl outside ↦ let k = rw outside at h2 in cc
                  | inr inside ↦ let k : ok b ≡ ok c = rw inside at h2 in (cc, distinct, member)
                ]
        | inr elsewhere ↦ let k = rw elsewhere at h1 in cc
      ]
]

-- A transition needs an approved gate, and the approval of an administrator or a creator.
abbrev pub IsGated : LifecycleTransition → Type 0
IsGated t = (t.required_gate_status ≡ "approved") × (t.approver_roles ≡ admin ∷ creator ∷ [])

-- What a blueprint of the registry is: the template's stages in their order, all distinct, one of them
-- the current stage, and a transition from each stage but the last to the stage after it.
pub record IsChain (catalog : EvolutionCatalog) (template_id : String) (b : LifecycleBlueprint)
    : Type 0 where
  pub template : LifecycleTemplate
  pub found : get template_id catalog.lifecycle_templates ≡ some template
  pub stages : stage_ids b.stages ≡ template.stages
  pub distinct : has_duplicates template.stages ≡ false
  pub current : among b.current_stage template.stages ≡ true
  pub count : length b.transitions + 1 ≡ length template.stages
  pub starts : map (λ t. t.from_stage) b.transitions ≡ take (length b.transitions) template.stages
  pub ends : map (λ t. t.to_stage) b.transitions ≡ drop 1 template.stages
  pub gated : All IsGated b.transitions

-- the stages in order, distinct, with the current one among them and the transitions along them
abbrev IsAlong : List LifecycleStage → LifecycleBlueprint → Type 0
IsAlong stages b =
    (stage_ids b.stages ≡ stages)
    × (has_duplicates stages ≡ false)
    × (among b.current_stage stages ≡ true)
    × (b.transitions ≡ transitions_along stages)

along_count :
    (a : LifecycleStage) (stages : List LifecycleStage)
    → length (transitions_along (a ∷ stages)) ≡ length stages
along_count a [] = refl
along_count a (b ∷ stages) = ap suc (along_count b stages)

-- a list that contains something is one longer than the transitions along it
along_size :
    (s : LifecycleStage) (stages : List LifecycleStage)
    → among s stages ≡ true
    → length (transitions_along stages) + 1 ≡ length stages
along_size s [] h = cc
along_size s (a ∷ stages) h = omega (arith, along_count a stages)

built :
    (catalog : EvolutionCatalog) (template_id : String) (template : LifecycleTemplate)
    (current : Option String) (stages : List LifecycleStage) (b : LifecycleBlueprint)
    → build catalog template_id template current stages ≡ ok b
    → IsAlong stages b
unfolding build
built catalog template_id template current [] b h = cc
built catalog template_id template current (head ∷ rest) b h =
    elim (Result-cases (start_stage head (head ∷ rest) current)) [
      | inl (stage, started) ↦
          let (same, distinct, member) = validated _ b (rw started at h) in
          let ids = stage_ids-definition_of (head ∷ rest) in
          let once = subst (λ xs. has_duplicates xs ≡ false) ids distinct in
          let inside = subst (λ xs. among stage xs ≡ true) ids member in
          subst (IsAlong (head ∷ rest)) same (ids, once, inside, refl)
      | inr (e, refused) ↦ let k = rw refused at h in cc
    ]

-- the stages that the transitions along a list of stages start from and lead to
along_starts :
    (stages : List LifecycleStage)
    → map (λ t. t.from_stage) (transitions_along stages)
      ≡ take (length (transitions_along stages)) stages
along_starts [] = refl
along_starts (a ∷ []) = refl
along_starts (a ∷ b ∷ stages) = ap (λ rest. a ∷ rest) (along_starts (b ∷ stages))

along_ends :
    (stages : List LifecycleStage)
    → map (λ t. t.to_stage) (transitions_along stages) ≡ drop 1 stages
along_ends [] = refl
along_ends (a ∷ []) = refl
along_ends (a ∷ b ∷ stages) = ap (λ rest. b ∷ rest) (along_ends (b ∷ stages))

along-IsGated : (stages : List LifecycleStage) → All IsGated (transitions_along stages)
along-IsGated [] = tt
along-IsGated (a ∷ []) = tt
along-IsGated (a ∷ b ∷ stages) = ((refl, refl), along-IsGated (b ∷ stages))

found_blueprint :
    (catalog : EvolutionCatalog) (template_id : String) (current : Option String)
    (b : LifecycleBlueprint)
    → blueprint catalog template_id current ≡ ok b
    → (template : LifecycleTemplate) × (get template_id catalog.lifecycle_templates ≡ some template)
      × IsAlong template.stages b
unfolding blueprint
found_blueprint catalog template_id current b h =
    elim (Option-cases (get template_id catalog.lifecycle_templates)) [
      | inl missing ↦ let k = rw missing at h in cc
      | inr (template, found) ↦ (
        template,
        found,
        built catalog template_id template current template.stages b (rw found at h),
      )
    ]

-- A blueprint that the registry returns has its template's stages in their order, without repetition, and its
-- current stage is one of them. It has one transition less than stages: they start from the stages but the last and
-- lead to the stages but the first, in this order, and each needs an approved gate and the approval of an
-- administrator or a creator.
pub blueprint-IsChain :
    (catalog : EvolutionCatalog) (template_id : String) (current : Option String)
    (b : LifecycleBlueprint)
    → blueprint catalog template_id current ≡ ok b
    → IsChain catalog template_id b
blueprint-IsChain catalog template_id current b h =
    let (template, found, (stages, distinct, member, along)) =
      found_blueprint catalog template_id current b h in
    record {
      template = template;
      found = found;
      stages = stages;
      distinct = distinct;
      current = member;
      count =
          subst (λ ts. length ts + 1 ≡ length template.stages) (sym along)
            (along_size b.current_stage template.stages member);
      starts =
          subst (λ ts. map (λ t. t.from_stage) ts ≡ take (length ts) template.stages) (sym along)
            (along_starts template.stages);
      ends =
          subst (λ ts. map (λ t. t.to_stage) ts ≡ drop 1 template.stages) (sym along)
            (along_ends template.stages);
      gated = subst (All IsGated) (sym along) (along-IsGated template.stages);
    }

-- In a blueprint of the registry, `transition` to a stage returns the transition from the current stage where the
-- stage is the one after it, and for every other stage raises, an AttributeError: no stage is skipped or revisited.
pub transition_lem :
    (catalog : EvolutionCatalog) (template_id : String) (current : Option String)
    (b : LifecycleBlueprint) (target : LifecycleStage)
    → blueprint catalog template_id current ≡ ok b
    → transition b (value target)
      ≡ or_raise
          (found_of b.current_stage target (next_of b.current_stage (stage_ids b.stages)))
          attribute_error
unfolding transition
transition_lem catalog template_id current b target h =
    let (template, found, (stages, distinct, member, along)) =
      found_blueprint catalog template_id current b h in
    rw (of_value-value target, along, stages)
      (ap (λ t. or_raise t attribute_error)
        (first-transitions_along b.current_stage target template.stages distinct))
