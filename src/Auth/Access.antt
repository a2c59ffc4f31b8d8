-- ===== src/Auth/Access.antt =====
-- `request_access`, `approve`, `reject` and `accept` of `AuthService` (src/twinstudio/auth.py).
use Prim.Native.String.{◌++◌}
use twinstudio.Base.{ℕ, ◌+◌, String, Option, none, some, [], ◌∷◌}
use twinstudio.Base.Text.{lower}
use twinstudio.Base.Dict.{Dict}
use twinstudio.Base.Json.{Json, str}
use twinstudio.Base.Exec.{Exec, pure, gets, lift, ◌>>=◌, ◌>>◌}
use twinstudio.Domain.Roles
use twinstudio.Domain.Envelopes.{EventEnvelope, CommandEnvelope}
use twinstudio.Domain.Snapshot.{Pydantic}
use twinstudio.EventStore.Tables.{Database, Invitation}
use twinstudio.EventStore.Events.{current_version, append}
use twinstudio.EventStore.Credentials.{ensure_user, create_api_token, create_session}
use twinstudio.EventStore.Invitations.{
  create_invitation, approve_invitation, reject_invitation, accept_invitation,
}
use twinstudio.Bus.Execute.{Fresh, or_else, project, execute}
use twinstudio.Auth.{Settings, Random, InvitationRequest, InvitationResult, hours, choose_approver}

-- an event of the service
abbrev pub event_by : Fresh → String → String → String → Dict Json → EventEnvelope
event_by fresh project_id event_type actor payload = record {
  event_id = fresh.event_id;
  stream_id = project_id;
  stream_version = 0;
  event_type = event_type;
  payload = payload;
  actor = actor;
  correlation_id = none;
  causation_id = none;
  occurred_at = fresh.occurred_at;
  schema_version = 1;
}

-- the command of `accept`
abbrev pub granting : Fresh → String → ℕ → Invitation → CommandEnvelope
granting fresh command_id version row = record {
  command_id = command_id;
  command_type = "membership.grant";
  project_id = row.project_id;
  expected_version = some version;
  payload =
      ("email", str row.requested_email) ∷ ("role", str (Roles.value row.requested_role)) ∷ [];
  actor = row.approver_email;
  correlation_id = none;
  causation_id = none;
  issued_at = fresh.issued_at;
}

-- what `accept` returns
pub record Access : Type 0 where
  pub email : String
  pub project_id : String
  pub role : String
  pub api_token : String
  pub session : String

module _ (sha256 : String → String) (settings : Settings) (random : Random) (fresh : Fresh) where
  module _ (P : Pydantic) where
    unfoldable pub request_access :
        InvitationRequest → Option String → Option String → Exec Database InvitationResult
    unfolding project choose_approver create_invitation current_version append lower
    request_access body requested_by decision_email = do
      snapshot ← λ db. (project P body.project_id db, db)
      approver ← lift (choose_approver snapshot.memberships decision_email)
      let requester = lower (or_else requested_by body.requested_email)
      let expires_at = random.now + hours settings.invitation_ttl_hours
      invited ←
          create_invitation sha256 body.project_id body.requested_email body.requested_role
            requester approver body.message expires_at random.invitation_id random.approval_token
            random.now
      version ← gets (current_version body.project_id)
      append body.project_id (some version) (
          event_by fresh body.project_id "InvitationRequested" requester (
            ("invitation_id", str invited.0)
            ∷ ("requested_email", str (invited.2))
            ∷ ("requested_role", str (Roles.value body.requested_role))
            ∷ ("approver_email", str approver)
            ∷ ("message", str body.message)
            ∷ [])
          ∷ [])
      pure (record {
        invitation_id = invited.0;
        status = "pending_approval";
        approver_email = approver;
        requested_email = invited.2;
      })

    -- the membership, the API token and the session of an accepted invitation
    unfoldable pub admit : String → Invitation → Exec Database Access
    unfolding ensure_user current_version execute create_api_token create_session
    admit command_id row = do
      ensure_user row.requested_email none random.now
      version ← gets (current_version row.project_id)
      execute P fresh (granting fresh command_id version row)
      token ←
          create_api_token sha256 row.requested_email ("Invitation " ++ row.invitation_id) none
            random.api_token random.api_token_id random.now
      session ←
          create_session sha256 row.requested_email (random.now + hours settings.session_ttl_hours)
            random.session random.session_id random.now
      pure (record {
        email = row.requested_email;
        project_id = row.project_id;
        role = Roles.value row.requested_role;
        api_token = token.1;
        session = session;
      })

    unfoldable pub accept : String → String → Exec Database Access
    unfolding accept_invitation admit
    accept command_id token = accept_invitation sha256 token random.now >>= admit command_id

  unfoldable pub approve : String → Exec Database Invitation
  unfolding approve_invitation current_version append
  approve token = do
    granted ← approve_invitation sha256 token random.access_token random.now
    let row = granted.0
    version ← gets (current_version row.project_id)
    append row.project_id (some version) (
        event_by fresh row.project_id "InvitationApproved" row.approver_email (
          ("invitation_id", str row.invitation_id)
          ∷ ("requested_email", str row.requested_email)
          ∷ ("requested_role", str (Roles.value row.requested_role))
          ∷ [])
        ∷ [])
    pure row

  unfoldable pub reject : String → Exec Database Invitation
  unfolding reject_invitation
  reject token = reject_invitation sha256 token
