-- ===== src/EventStore/Invitations/Acceptances.antt =====
-- `accept_invitation`, and why an access token works once.
use twinstudio.Base.{
  String, ◌≡◌, ◌⊎◌, ◌<◌, refl, ap, ◌∙◌, true, false, inl, inr, some, Bool-cases, Option-cases,
  arith, ok, err, value_error, leb,
}
use twinstudio.Domain.Objects.{Instant}
use twinstudio.EventStore.Tables.{Database, Invitation, InvitationStatus, approved}
use twinstudio.EventStore.Invitations.{
  status_eq, has_access, update_invitation, to_accepted, find_access, accept_invitation,
}
use twinstudio.EventStore.Invitations.Updates.{first-update_rows, updated_self}

pub status_eq-true : (s t : InvitationStatus) → status_eq s t ≡ true → s ≡ t
status_eq-true s t h = ground arith

module _ (sha256 : String → String) where
  -- What a successful acceptance found, and what it did.
  pub record Accepts (token : String) (now : Instant) (db : Database) : Type 0 where
    pub row : Invitation
    pub found : find_access sha256 token db ≡ some row
    pub was_approved : row.status ≡ approved
    pub in_time : now < row.expires_at
    pub result :
        accept_invitation sha256 token now db
        ≡ (ok (to_accepted now row), update_invitation row.invitation_id (to_accepted now) db)

  pub accept_unapproved :
      (token : String) (now : Instant) (db : Database) (row : Invitation)
      → find_access sha256 token db ≡ some row
      → status_eq row.status approved ≡ false
      → accept_invitation sha256 token now db
        ≡ (err (value_error "Invitation cannot be accepted"), db)
  unfolding accept_invitation
  accept_unapproved token now db row found other = rw (found, accept_invitation, other) refl

  -- `accept_invitation` either finds an approved invitation that has not expired and marks it
  -- accepted, or raises and changes nothing.
  pub accept_outcome :
      (token : String) (now : Instant) (db : Database)
      → Accepts token now db
        ⊎ ((text : String) × (accept_invitation sha256 token now db ≡ (err (value_error text), db)))
  unfolding accept_invitation
  accept_outcome token now db = elim (Option-cases (find_access sha256 token db)) [
    | inl missing ↦ inr ("Invitation access token is invalid", rw (missing, accept_invitation) refl)
    | inr (row, found) ↦ elim (Bool-cases (status_eq row.status approved)) [
      | inl granted ↦ elim (Bool-cases (leb row.expires_at now)) [
        | inl late ↦
            inr ("Invitation has expired", rw (found, accept_invitation, granted, late) refl)
        | inr timely ↦ inl (record {
          row = row;
          found = found;
          was_approved = status_eq-true row.status approved granted;
          in_time = ground arith;
          result = rw (found, accept_invitation, granted, timely) refl;
        })
      ]
      | inr other ↦
          inr ("Invitation cannot be accepted", accept_unapproved token now db row found other)
    ]
  ]

  -- the row that a token finds after it was accepted
  pub found_after_accept :
      (token : String) (now : Instant) (db : Database) (row : Invitation)
      → find_access sha256 token db ≡ some row
      → find_access sha256 token (update_invitation row.invitation_id (to_accepted now) db)
        ≡ some (to_accepted now row)
  found_after_accept token now db row found =
      first-update_rows (has_access (sha256 token)) row.invitation_id (to_accepted now) (λ r. refl)
        db.invitations row found
      ∙ ap (λ r. some r) (updated_self (to_accepted now) row)

  -- Once an access token has been accepted, using it again, at whatever time, is refused and
  -- changes nothing.
  pub accept_once :
      (token : String) (now later : Instant) (db : Database) (row : Invitation)
      → (accept_invitation sha256 token now db).0 ≡ ok row
      → let after = (accept_invitation sha256 token now db).1 in
        accept_invitation sha256 token later after
        ≡ (err (value_error "Invitation cannot be accepted"), after)
  accept_once token now later db row h = elim (accept_outcome token now db) [
    | inl a ↦ rw a.result (
        accept_unapproved token later (update_invitation a.row.invitation_id (to_accepted now) db)
          (to_accepted now a.row) (found_after_accept token now db a.row a.found) refl)
    | inr (text, failed) ↦ cc
  ]
