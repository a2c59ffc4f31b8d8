-- ===== src/Auth/Approvers.antt =====
-- Who is asked to decide on a request for access.
use twinstudio.Base.{
  String, ◌≡◌, ◌⊎◌, refl, sym, ◌∙◌, Bool, true, ◌&&◌, inl, inr, Option, List, [], ◌∷◌, any, select,
  is_empty, Bool-cases, arith, ok, ◌==◌, eq_refl,
}
use mathlib.Core.Path.{subst}
use twinstudio.Base.Text.{lower}
use twinstudio.Base.Dict.{Dict, keys}
use twinstudio.Domain.Roles.{Role}
use twinstudio.Auth.{is_approver, is_creator, first_of, choose_approver}
use twinstudio.Bus.Execute.{or_else}

any-keys :
    (a : String) (test : String × Role → Bool) (m : Dict Role)
    → any (λ email. email == a) (keys (select test m)) ≡ any (λ p. (p.0 == a) && test p) m
any-keys a test [] = refl
any-keys a test (p ∷ m) = ground (arith, any-keys a test m)

creator_approves : (p : String × Role) → is_creator p ≡ true → is_approver p ≡ true
creator_approves (email, role) h = ground arith

creators_approve :
    (a : String) (m : Dict Role)
    → any (λ p. (p.0 == a) && is_creator p) m ≡ true
    → any (λ p. (p.0 == a) && is_approver p) m ≡ true
creators_approve a [] h = cc
creators_approve a (p ∷ m) h = ground (arith, creators_approve a m, creator_approves p)

first_of_lem :
    (cs bs : List String) (a : String)
    → first_of cs bs ≡ ok a
    → (any (λ e. e == a) cs ≡ true) ⊎ (any (λ e. e == a) bs ≡ true)
first_of_lem (c ∷ cs) bs a h = let same : c ≡ a = cc in inl (rw same (rw (eq_refl a) refl))
first_of_lem [] (b ∷ bs) a h = let same : b ≡ a = cc in inr (rw same (rw (eq_refl a) refl))
first_of_lem [] [] a h = cc

-- The address that `request_access` chooses to decide is that of a creator or an admin of the project,
-- whether the request names one or not.
pub choose_approver_lem :
    (memberships : Dict Role) (decision_email : Option String) (a : String)
    → choose_approver memberships decision_email ≡ ok a
    → any (λ p. (p.0 == a) && is_approver p) memberships ≡ true
unfolding choose_approver
choose_approver_lem memberships decision_email a h =
    let approvers = keys (select is_approver memberships) in
    let decision = or_else decision_email "" in
    elim (Bool-cases (is_empty approvers)) [
      | inl nobody ↦ let k = rw nobody at h in cc
      | inr somebody ↦
          let h1 = rw somebody at h in
          elim (Bool-cases (decision == "")) [
            | inl open_choice ↦
                elim (first_of_lem (keys (select is_creator memberships)) approvers a
                  (rw open_choice at h1)) [
                    | inl c ↦
                        creators_approve a memberships (sym (any-keys a is_creator memberships) ∙ c)
                    | inr b ↦ sym (any-keys a is_approver memberships) ∙ b
                  ]
            | inr named ↦
                let h2 = rw named at h1 in
                elim (Bool-cases (any (λ email. email == lower decision) approvers)) [
                  | inl member ↦
                      let k : ok (lower decision) ≡ ok a = rw member at h2 in
                      let same : lower decision ≡ a = cc in
                      sym (any-keys a is_approver memberships)
                      ∙ subst (λ x. any (λ email. email == x) approvers ≡ true) same member
                  | inr stranger ↦ let k = rw stranger at h2 in cc
                ]
          ]
    ]
