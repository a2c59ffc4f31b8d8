-- ===== src/Auth.antt =====
-- `AuthService` of src/twinstudio/auth.py: who a request is from, and the way from a request for access to a
-- membership. Mails and the publishing of events follow the changes of the store and are left out, as
-- are the links in the mails. The Base64 decoder, the hash, the random texts and the clock are arguments.
pub mod Access
pub mod Approvers
pub mod Acceptance
use Prim.Native.String.{[], ◌∷◌}
use twinstudio.Base.{
  ℕ, ◌+◌, ◌*◌, String, Bool, true, false, Option, none, some, List, any, is_empty, select, map,
  Result, ok, err, ◌>>=◌, raise_if, or_raise, value_error, unauthorized, ◌==◌, if◌then◌else◌,
}
use twinstudio.Base.Text.{lower, starts_with, split_at}
use twinstudio.Base.Dict.{Dict, get, keys}
use twinstudio.Base.Json.{Json, str}
use twinstudio.Base.Exec
use twinstudio.Base.Exec.{Exec}
use twinstudio.Domain.Roles.{Role, admin, creator}
use twinstudio.Domain.Roles
use twinstudio.Domain.Objects.{Instant}
use twinstudio.Domain.Envelopes.{EventEnvelope, CommandEnvelope}
use twinstudio.Domain.Snapshot.{ProjectSnapshot, Pydantic}
use twinstudio.EventStore.Tables.{Database, Invitation}
use twinstudio.EventStore.Events.{current_version, append}
use twinstudio.EventStore.Credentials.{
  ensure_user, create_api_token, authenticate_api_token, create_session, authenticate_session,
}
use twinstudio.EventStore.Invitations.{create_invitation, approve_invitation, accept_invitation}
use twinstudio.Bus.Execute.{Fresh, or_else, project, execute}

-- the fields of `Settings` that are read
pub record Settings : Type 0 where
  pub dev_auth_bypass : Bool
  pub dev_user_email : String
  pub invitation_ttl_hours : ℕ
  pub session_ttl_hours : ℕ

pub record AuthPrincipal : Type 0 where
  pub email : String
  pub auth_method : String

-- a request's cookies, and its `Authorization` header or the empty text
pub record Request : Type 0 where
  pub cookies : Dict String
  pub authorization : String

pub record InvitationRequest : Type 0 where
  pub project_id : String
  pub requested_email : String
  pub requested_role : Role
  pub message : String

pub record InvitationResult : Type 0 where
  pub invitation_id : String
  pub status : String
  pub approver_email : String
  pub requested_email : String

-- the texts that `secrets` gives, and the clock
pub record Random : Type 0 where
  pub invitation_id : String
  pub approval_token : String
  pub access_token : String
  pub api_token_id : String
  pub api_token : String
  pub session_id : String
  pub session : String
  pub now : Instant

abbrev pub hours : ℕ → Instant
hours n = n * 3600000000

abbrev pub is_approver : String × Role → Bool
is_approver (email, admin) = true
is_approver (email, creator) = true
is_approver _ = false

abbrev pub is_creator : String × Role → Bool
is_creator (email, creator) = true
is_creator _ = false

-- `creators[0] if creators else approvers[0]`
abbrev pub first_of : List String → List String → Result String
first_of (List.◌∷◌ c cs) approvers = ok c
first_of List.[] (List.◌∷◌ a approvers) = ok a
first_of List.[] List.[] =
    err (value_error "Project has no creator or admin able to approve access")

-- the member that `request_access` asks for the decision
unfoldable pub choose_approver : Dict Role → Option String → Result String
unfolding lower
choose_approver memberships decision_email =
    let approvers = keys (select is_approver memberships) in
    let decision = or_else decision_email "" in
    if is_empty approvers
    then err (value_error "Project has no creator or admin able to approve access")
    else if decision == ""
    then first_of (keys (select is_creator memberships)) approvers
    else if any (λ email. email == lower decision) approvers
    then ok (lower decision)
    else err (value_error "Decision email is not a creator/admin member of this project")

-- the first of the two cookies that is set
abbrev pub session_cookie : Dict String → String
session_cookie cookies =
    or_else (get "twinstudio_session" cookies) (or_else (get "lps_session" cookies) "")

module _ (sha256 : String → String) where
  -- `base64.b64decode(...).decode("utf-8")`, where it does not raise
  module _ (decode : String → Option String) where
    abbrev pub credentials : String → Option (String × String)
    credentials authorization = elim (split_at " " authorization) [
      | none ↦ none
      | some (scheme, encoded) ↦ elim (decode encoded) [
        | none ↦ none
        | some text ↦ split_at ":" text
      ]
    ]

    -- the `Authorization` header of a request without a valid session
    unfoldable pub basic_principal : String → Instant → Database → Result AuthPrincipal
    unfolding lower starts_with split_at authenticate_api_token
    basic_principal authorization now db =
        if starts_with "basic " (lower authorization)
        then elim (credentials authorization) [
          | none ↦ err (unauthorized "Invalid Basic credentials")
          | some (email, token) ↦
              if authenticate_api_token sha256 email token now db
              then ok (record { email = lower email; auth_method = "basic" })
              else err (unauthorized "Authentication required")
        ]
        else err (unauthorized "Authentication required")

    -- `AuthService.principal_from_request`
    unfoldable pub principal_from_request :
        Settings → Request → Instant → Database → Result AuthPrincipal
    unfolding basic_principal authenticate_session
    principal_from_request settings request now db =
        if settings.dev_auth_bypass
        then ok (record { email = settings.dev_user_email; auth_method = "dev" })
        else if session_cookie request.cookies == ""
        then basic_principal request.authorization now db
        else elim (authenticate_session sha256 (session_cookie request.cookies) now db) [
          | none ↦ basic_principal request.authorization now db
          | some email ↦
              if email == ""
              then basic_principal request.authorization now db
              else ok (record { email = email; auth_method = "session" })
        ]

  module _ (P : Pydantic) where
    -- `AuthService.role_for`
    unfoldable pub role_for : String → String → Database → Result (Option Role)
    unfolding lower
    role_for project_id email db = do
      snapshot ← project P project_id db
      ok (get (lower email) snapshot.memberships)
