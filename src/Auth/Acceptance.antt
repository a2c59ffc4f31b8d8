-- ===== src/Auth/Acceptance.antt =====
-- What remains of an invitation whose acceptance fails half way.
use twinstudio.Base.{
  String, ◌≡◌, refl, ◌∙◌, ap, inl, inr, none, Option, ok, err, Error, value_error, any, first, some,
  false, Bool-cases, ◌==◌,
}
use mathlib.Core.Path.{subst}
use twinstudio.Base.Text.{lower}
use twinstudio.Domain.Objects.{Instant}
use twinstudio.Domain.Envelopes.{CommandEnvelope}
use twinstudio.Domain.Snapshot.{Pydantic}
use twinstudio.EventStore.Tables.{Database, Invitation, approved}
use twinstudio.EventStore.Events.{current_version}
use twinstudio.EventStore.Credentials.{ensure_user}
use twinstudio.EventStore.Invitations.{
  status_eq, has_access, find_access, to_accepted, accept_invitation,
}
use twinstudio.EventStore.Invitations.Acceptances.{
  accept_outcome, accept_unapproved, found_after_accept,
}
use twinstudio.Bus.Execute.{Fresh, execute}
use twinstudio.Bus.Execute.Effects.{execute_outcome}
use twinstudio.Auth.{Settings, Random}
use twinstudio.Auth.Access.{granting, admit, accept}

ensure_user_ok :
    (email : String) (name : Option String) (now : Instant) (db : Database)
    → ((ensure_user email name now db).0 ≡ ok tt)
      × ((ensure_user email name now db).1.invitations ≡ db.invitations)
unfolding ensure_user
ensure_user_ok email name now db = elim (Bool-cases (any (λ u. u.email == lower email) db.users)) [
  | inl known ↦ rw known (refl, refl)
  | inr new ↦ rw new (refl, refl)
]

-- A command that is refused leaves the database as it was.
execute-err :
    (P : Pydantic) (fresh : Fresh) (command : CommandEnvelope) (db : Database) (e : Error)
    → (execute P fresh command db).0 ≡ err e
    → execute P fresh command db ≡ (err e, db)
execute-err P fresh command db e h = elim (execute_outcome P fresh command db) [
  | inl r ↦ let k = r.result in cc
  | inr (x, failed) ↦ cc
]

module _ (sha256 : String → String) (settings : Settings) (random : Random) (fresh : Fresh)
    (P : Pydantic) where
  admit_refused :
      (command_id : String) (row : Invitation) (db : Database) (e : Error)
      → let known = (ensure_user row.requested_email none random.now db).1 in
        (execute P fresh
            (granting fresh command_id (current_version row.project_id known) row)
            known).0
          ≡ err e
        → admit sha256 settings random fresh P command_id row db ≡ (err e, known)
  unfolding admit
  admit_refused command_id row db e refused =
      let known = (ensure_user row.requested_email none random.now db).1 in
      let grant = granting fresh command_id (current_version row.project_id known) row in
      rw
        (
          (ensure_user_ok row.requested_email none random.now db).0,
          execute-err P fresh grant known e refused,
        )
        refl

  -- the row that the token finds after it was accepted
  spent :
      (token : String) (now : Instant) (db : Database) (row : Invitation)
      → (accept_invitation sha256 token now db).0 ≡ ok row
      → (find_access sha256 token (accept_invitation sha256 token now db).1 ≡ some row)
        × (status_eq row.status approved ≡ false)
  spent token now db row h = elim (accept_outcome sha256 token now db) [
    | inl a ↦
        let same : to_accepted now a.row ≡ row = cc (a.result) in
        rw a.result (
          found_after_accept sha256 token now db a.row a.found ∙ ap (λ r. some r) same,
          subst (λ r. status_eq r.status approved ≡ false) same refl,
        )
    | inr (text, failed) ↦ cc
  ]

  accept_refused :
      (command_id token : String) (db : Database) (row : Invitation) (e : Error)
      → (accept_invitation sha256 token random.now db).0 ≡ ok row
      → let taken = (accept_invitation sha256 token random.now db).1 in
        let known = (ensure_user row.requested_email none random.now taken).1 in
        (execute P fresh
            (granting fresh command_id (current_version row.project_id known) row)
            known).0
          ≡ err e
        → accept sha256 settings random fresh P command_id token db ≡ (err e, known)
  unfolding accept
  accept_refused command_id token db row e accepts refused =
      rw accepts
        (admit_refused command_id row (accept_invitation sha256 token random.now db).1 e refused)

  -- Where an invitation is accepted in the store, but the grant of the membership that follows is
  -- refused, for instance as the approver may no longer grant memberships, `accept` raises the
  -- error of the grant, and yet the invitation is spent: accepting it again, at whatever time, is
  -- refused.
  pub accept_spends :
      (command_id token : String) (later : Instant) (db : Database) (row : Invitation) (e : Error)
      → (accept_invitation sha256 token random.now db).0 ≡ ok row
      → let taken = (accept_invitation sha256 token random.now db).1 in
        let known = (ensure_user row.requested_email none random.now taken).1 in
        (execute P fresh
            (granting fresh command_id (current_version row.project_id known) row)
            known).0
          ≡ err e
        → ((accept sha256 settings random fresh P command_id token db).0 ≡ err e)
          × ((accept_invitation sha256 token later
                (accept sha256 settings random fresh P command_id token db).1).0
              ≡ err (value_error "Invitation cannot be accepted"))
  accept_spends command_id token later db row e accepts refused =
      let taken = (accept_invitation sha256 token random.now db).1 in
      let known = (ensure_user row.requested_email none random.now taken).1 in
      let (found, done) = spent token random.now db row accepts in
      let still : find_access sha256 token known ≡ some row =
        ap (first (has_access (sha256 token)))
          (ensure_user_ok row.requested_email none random.now taken).1
        ∙ found in
      rw (accept_refused command_id token db row e accepts refused)
        (refl, ap (λ r. r.0) (accept_unapproved sha256 token later known row still done))
