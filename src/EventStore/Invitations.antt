-- ===== src/EventStore/Invitations.antt =====
-- The invitations of `EventStore` (src/twinstudio/event_store.py). A statement that finds its row updates
-- it by its primary key, in one transaction; each error is raised before the update.
pub mod Updates
pub mod Acceptances
pub mod Approvals
pub mod Flow
pub mod Soundness
use twinstudio.Base.{
  String, Bool, true, false, not, ◌&&◌, ◌||◌, Option, none, some, List, [], ◌∷◌, ◌++◌, any, first,
  ok, err, integrity_error, value_error, leb, ◌==◌, if◌then◌else◌,
}
use twinstudio.Base.Text.{lower}
use twinstudio.Base.Exec.{Exec, pure, raise, begin, raise_if, ◌>>=◌, ◌>>◌}
use twinstudio.Domain.Roles.{Role}
use twinstudio.Domain.Objects.{Instant}
use twinstudio.EventStore.Tables.{
  Database, Invitation, InvitationStatus, pending_approval, approved, rejected, accepted,
}

abbrev pub status_eq : InvitationStatus → InvitationStatus → Bool
status_eq pending_approval pending_approval = true
status_eq approved approved = true
status_eq rejected rejected = true
status_eq accepted accepted = true
status_eq _ _ = false

-- `access_token_hash = :hash`, which a NULL never is
abbrev pub has_access : String → Invitation → Bool
has_access hash row = elim row.access_token_hash [ none ↦ false | some h ↦ h == hash ]

-- a row that violates the primary key or a unique column against `i`
abbrev clashes : Invitation → Invitation → Bool
clashes i row =
    (row.invitation_id == i.invitation_id) || (row.approval_token_hash == i.approval_token_hash)

unfoldable pub insert_invitation : Invitation → Exec Database (Unit {0})
insert_invitation i db =
    if any (clashes i) db.invitations
    then (err integrity_error, db)
    else (ok tt, record db { invitations = db.invitations ++ i ∷ [] })

-- `UPDATE ... WHERE invitation_id = :id`
abbrev pub update_rows : String → (Invitation → Invitation) → List Invitation → List Invitation
update_rows id change [] = []
update_rows id change (row ∷ rows) =
    (if row.invitation_id == id then change row else row) ∷ update_rows id change rows

abbrev pub update_invitation : String → (Invitation → Invitation) → Database → Database
update_invitation id change db = record db { invitations = update_rows id change db.invitations }

abbrev pub to_approved : Instant → String → Invitation → Invitation
to_approved now hash row = record row {
  status = approved;
  approved_at = some now;
  access_token_hash = some hash;
}

abbrev pub to_rejected : Invitation → Invitation
to_rejected row = record row { status = rejected }

abbrev pub to_accepted : Instant → Invitation → Invitation
to_accepted now row = record row { status = accepted; accepted_at = some now }

module _ (sha256 : String → String) where
  abbrev pub find_approval : String → Database → Option Invitation
  find_approval token db = first (λ i. i.approval_token_hash == sha256 token) db.invitations

  abbrev pub find_access : String → Database → Option Invitation
  find_access token db = first (has_access (sha256 token)) db.invitations

  -- `invitation_id` and `approval_token` are the results of `secrets`
  unfoldable pub create_invitation :
      (project_id requested_email : String)
      → Role
      → (requested_by approver_email message : String) → Instant
      → (invitation_id approval_token : String) → Instant
      → Exec Database (String × String × String)
  unfolding insert_invitation lower
  create_invitation project_id requested_email role requested_by approver message expires_at id
        token now =
      do
        insert_invitation (record {
          invitation_id = id;
          project_id = project_id;
          requested_email = lower requested_email;
          requested_role = role;
          requested_by = lower requested_by;
          approver_email = lower approver;
          message = message;
          status = pending_approval;
          approval_token_hash = sha256 token;
          access_token_hash = none;
          created_at = now;
          expires_at = expires_at;
          approved_at = none;
          accepted_at = none;
        })
        pure (id, token, lower requested_email)

  -- the `UPDATE` of `approve_invitation`, which the unique column `access_token_hash` can refuse
  approve_row : String → Instant → Invitation → Exec Database (Invitation × String)
  approve_row access now row db =
      if any (λ i. has_access (sha256 access) i && not (i.invitation_id == row.invitation_id))
        db.invitations
      then (err integrity_error, db)
      else (
        ok (record row { status = approved; approved_at = some now }, access),
        update_invitation row.invitation_id (to_approved now (sha256 access)) db,
      )

  -- `access` is the result of `secrets.token_urlsafe(40)`
  unfoldable pub approve_invitation :
      String → String → Instant → Exec Database (Invitation × String)
  unfolding approve_row
  approve_invitation token access now db = elim (find_approval token db) [
    | none ↦ (err (value_error "Invitation approval token is invalid"), db)
    | some row ↦
        if not (status_eq row.status pending_approval)
        then (err (value_error "Invitation is already"), db)
        else if leb row.expires_at now
        then (err (value_error "Invitation has expired"), db)
        else approve_row access now row db
  ]

  unfoldable pub reject_invitation : String → Exec Database Invitation
  reject_invitation token db = elim (find_approval token db) [
    | none ↦ (err (value_error "Invitation approval token is invalid"), db)
    | some row ↦ (ok (to_rejected row), update_invitation row.invitation_id to_rejected db)
  ]

  unfoldable pub accept_invitation : String → Instant → Exec Database Invitation
  accept_invitation token now db = elim (find_access token db) [
    | none ↦ (err (value_error "Invitation access token is invalid"), db)
    | some row ↦
        if not (status_eq row.status approved)
        then (err (value_error "Invitation cannot be accepted"), db)
        else if leb row.expires_at now
        then (err (value_error "Invitation has expired"), db)
        else (ok (to_accepted now row), update_invitation row.invitation_id (to_accepted now) db)
  ]
