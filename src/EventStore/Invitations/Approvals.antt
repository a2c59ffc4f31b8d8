-- ===== src/EventStore/Invitations/Approvals.antt =====
-- `approve_invitation` and `reject_invitation`: an approval token approves once, and a rejection is
-- final.
use twinstudio.Base.{
  String, ◌≡◌, ◌⊎◌, ◌<◌, refl, ap, ◌∙◌, Bool, false, not, ◌&&◌, inl, inr, some, any, Bool-cases,
  Option-cases, arith, ok, err, Error, value_error, integrity_error, leb, ◌==◌,
}
use twinstudio.Domain.Objects.{Instant}
use twinstudio.EventStore.Tables.{Database, Invitation, pending_approval, approved}
use twinstudio.EventStore.Invitations.{
  status_eq, has_access, update_invitation, to_approved, to_rejected, find_approval, find_access,
  approve_invitation, reject_invitation, accept_invitation,
}
use twinstudio.EventStore.Invitations.Updates.{first-update_rows, updated_self}
use twinstudio.EventStore.Invitations.Acceptances.{status_eq-true, accept_unapproved}

module _ (sha256 : String → String) where
  -- another row that already has the hash of the access token
  abbrev pub is_taken : String → Invitation → Database → Bool
  is_taken access row db =
      any (λ i. has_access (sha256 access) i && not (i.invitation_id == row.invitation_id))
        db.invitations

  -- What a successful approval found, and what it did.
  pub record Approves (token access : String) (now : Instant) (db : Database) : Type 0 where
    pub row : Invitation
    pub found : find_approval sha256 token db ≡ some row
    pub was_pending : row.status ≡ pending_approval
    pub in_time : now < row.expires_at
    pub unused : is_taken access row db ≡ false
    pub result : approve_invitation sha256 token access now db ≡ (
      ok (record row { status = approved; approved_at = some now }, access),
      update_invitation row.invitation_id (to_approved now (sha256 access)) db,
    )

  approve_decided :
      (token access : String) (now : Instant) (db : Database) (row : Invitation)
      → find_approval sha256 token db ≡ some row
      → status_eq row.status pending_approval ≡ false
      → approve_invitation sha256 token access now db
        ≡ (err (value_error "Invitation is already"), db)
  unfolding approve_invitation
  approve_decided token access now db row found other = rw (found, approve_invitation, other) refl

  -- `approve_invitation` either finds a pending invitation that has not expired, marks it approved
  -- and stores the hash of the new access token, or raises and changes nothing.
  pub approve_outcome :
      (token access : String) (now : Instant) (db : Database)
      → Approves token access now db
        ⊎ ((e : Error) × (approve_invitation sha256 token access now db ≡ (err e, db)))
  unfolding approve_invitation
  approve_outcome token access now db = elim (Option-cases (find_approval sha256 token db)) [
    | inl missing ↦
        inr (
          value_error "Invitation approval token is invalid",
          rw (missing, approve_invitation) refl,
        )
    | inr (row, found) ↦ elim (Bool-cases (status_eq row.status pending_approval)) [
      | inl waiting ↦ elim (Bool-cases (leb row.expires_at now)) [
        | inl late ↦ inr (
          value_error "Invitation has expired",
          rw (found, approve_invitation, waiting, late) refl,
        )
        | inr timely ↦ elim (Bool-cases (is_taken access row db)) [
          | inl taken ↦
              inr (integrity_error, rw (found, approve_invitation, waiting, timely, taken) refl)
          | inr unused ↦ inl (record {
            row = row;
            found = found;
            was_pending = status_eq-true row.status pending_approval waiting;
            in_time = ground arith;
            unused = unused;
            result = rw (found, approve_invitation, waiting, timely, unused) refl;
          })
        ]
      ]
      | inr other ↦
          inr (
            value_error "Invitation is already",
            approve_decided token access now db row found other,
          )
    ]
  ]

  -- Once an approval token has approved, using it to approve again is refused and changes nothing,
  -- at whatever time and whatever access token it would have handed out.
  pub approve_once :
      (token access other : String) (now later : Instant) (db : Database)
      (row : Invitation × String)
      → (approve_invitation sha256 token access now db).0 ≡ ok row
      → let after = (approve_invitation sha256 token access now db).1 in
        approve_invitation sha256 token other later after
        ≡ (err (value_error "Invitation is already"), after)
  approve_once token access other now later db row h = elim (approve_outcome token access now db) [
    | inl a ↦
        let change = to_approved now (sha256 access) in
        rw a.result (
          approve_decided token other later (update_invitation a.row.invitation_id change db)
            (change a.row)
            (first-update_rows (λ i. i.approval_token_hash == sha256 token) a.row.invitation_id
                change (λ r. refl) db.invitations a.row a.found
              ∙ ap (λ r. some r) (updated_self change a.row))
            refl)
    | inr (e, failed) ↦ cc
  ]

  rejects :
      (token : String) (db : Database) (row : Invitation)
      → find_approval sha256 token db ≡ some row
      → reject_invitation sha256 token db
        ≡ (ok (to_rejected row), update_invitation row.invitation_id to_rejected db)
  unfolding reject_invitation
  rejects token db row found = rw (found, reject_invitation) refl

  -- Where an approval token and an access token find the same invitation, rejecting by the first
  -- succeeds in any state and at any time; afterwards the approval token approves nothing, and the
  -- access token is not accepted.
  pub reject_final :
      (token access other : String) (now : Instant) (db : Database) (row : Invitation)
      → find_approval sha256 token db ≡ some row
      → find_access sha256 access db ≡ some row
      → let after = (reject_invitation sha256 token db).1 in
        ((reject_invitation sha256 token db).0 ≡ ok (to_rejected row))
        × (approve_invitation sha256 token other now after
            ≡ (err (value_error "Invitation is already"), after))
        × (accept_invitation sha256 access now after
            ≡ (err (value_error "Invitation cannot be accepted"), after))
  reject_final token access other now db row found granted =
      let after = update_invitation row.invitation_id to_rejected db in
      rw (rejects token db row found) (
        refl,
        approve_decided token other now after (to_rejected row)
            (first-update_rows (λ i. i.approval_token_hash == sha256 token) row.invitation_id
                to_rejected (λ r. refl) db.invitations row found
              ∙ ap (λ r. some r) (updated_self to_rejected row))
            refl,
        accept_unapproved sha256 access now after (to_rejected row)
            (first-update_rows (has_access (sha256 access)) row.invitation_id to_rejected
                (λ r. refl) db.invitations row granted
              ∙ ap (λ r. some r) (updated_self to_rejected row))
            refl,
      )
