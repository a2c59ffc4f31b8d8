-- ===== src/Examples/Invitations.antt =====
-- The theorems on invitations, applied.
use twinstudio.Base.{String, ◌≡◌, ◌⊎◌, refl, none, some, arith, ok, err, Error, value_error}
use twinstudio.Domain.Roles.{editor}
use twinstudio.EventStore.Tables.{approved}
use twinstudio.EventStore.Invitations.{
  to_accepted, to_rejected, create_invitation, approve_invitation, reject_invitation,
  accept_invitation,
}
use twinstudio.EventStore.Invitations.Acceptances.{Accepts, accept_outcome, accept_once}
use twinstudio.EventStore.Invitations.Approvals.{
  Approves, approve_outcome, approve_once, reject_final,
}
use twinstudio.EventStore.Invitations.Flow.{accept-approve}
use twinstudio.EventStore.Invitations.Soundness.{
  IsConsistent, create, approve, accept, here, next, Reach-IsConsistent,
}
use twinstudio.Examples.{database, pending_database, approved_database, invitation, plain}

accept_outcome_example :
    Accepts plain "access" 1500 approved_database
    ⊎ ((text : String) × (accept_invitation plain "access" 1500 approved_database
          ≡ (err (value_error text), approved_database)))
accept_outcome_example = accept_outcome plain "access" 1500 approved_database

accept_once_example :
    let after = (accept_invitation plain "access" 1500 approved_database).1 in
    accept_invitation plain "access" 1600 after
    ≡ (err (value_error "Invitation cannot be accepted"), after)
unfolding accept_invitation
accept_once_example =
    accept_once plain "access" 1500 1600 approved_database
      (to_accepted 1500 (invitation approved (some "access"))) refl

approve_outcome_example :
    Approves plain "approval" "access" 1500 pending_database
    ⊎ ((e : Error) × (approve_invitation plain "approval" "access" 1500 pending_database
          ≡ (err e, pending_database)))
approve_outcome_example = approve_outcome plain "approval" "access" 1500 pending_database

approve_once_example :
    let after = (approve_invitation plain "approval" "access" 1500 pending_database).1 in
    approve_invitation plain "approval" "second" 1600 after
    ≡ (err (value_error "Invitation is already"), after)
unfolding approve_invitation
approve_once_example =
    approve_once plain "approval" "access" "second" 1500 1600 pending_database
      (record (invitation approved none) { approved_at = some 1500 }, "access") refl

reject_final_example :
    let after = (reject_invitation plain "approval" approved_database).1 in
    ((reject_invitation plain "approval" approved_database).0
      ≡ ok (to_rejected (invitation approved (some "access"))))
    × (approve_invitation plain "approval" "second" 1500 after
        ≡ (err (value_error "Invitation is already"), after))
    × (accept_invitation plain "access" 1500 after
        ≡ (err (value_error "Invitation cannot be accepted"), after))
reject_final_example =
    reject_final plain "approval" "access" "second" 1500 approved_database
      (invitation approved (some "access")) refl refl

accept-approve_example :
    (accept_invitation plain "access" 1600
      (approve_invitation plain "approval" "access" 1500 pending_database).1).0
    ≡ ok (
        to_accepted 1600 (record (invitation approved (some "access")) { approved_at = some 1500 }))
unfolding approve_invitation
accept-approve_example =
    accept-approve plain "approval" "access" "access" 1500 1600 pending_database
      (record (invitation approved none) { approved_at = some 1500 }) (refl, tt) refl (omega arith)

Reach-IsConsistent_example :
    let created =
      (create_invitation plain "lamp" "Eve@example.org" editor "bob@example.org" "ann@example.org"
        "" 2000 "inv_1" "approval" 1000 database).1 in
    let granted = (approve_invitation plain "approval" "access" 1500 created).1 in
    IsConsistent (accept_invitation plain "access" 1600 granted).1.invitations
Reach-IsConsistent_example = Reach-IsConsistent plain refl (
    next
      (next
        (next here (
          create "lamp" "Eve@example.org" editor "bob@example.org" "ann@example.org" "" 2000 "inv_1"
            "approval" 1000 database))
        (approve "approval" "access" 1500
          (create_invitation plain "lamp" "Eve@example.org" editor "bob@example.org"
            "ann@example.org" "" 2000 "inv_1" "approval" 1000 database).1))
      (accept "access" 1600
        (approve_invitation plain "approval" "access" 1500
          (create_invitation plain "lamp" "Eve@example.org" editor "bob@example.org"
            "ann@example.org" "" 2000 "inv_1" "approval" 1000 database).1).1))
