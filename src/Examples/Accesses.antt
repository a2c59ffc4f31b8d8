-- ===== src/Examples/Accesses.antt =====
-- The theorems on access, applied.
use twinstudio.Base.{
  ◌≡◌, ◌&&◌, not, refl, true, false, none, some, any, [], ◌∷◌, err, value_error, permission_denied,
  leb, if◌then◌else◌, ◌==◌,
}
use twinstudio.EventStore.Tables.{Database, Invitation, approved}
use twinstudio.EventStore.Invitations.{to_accepted, accept_invitation}
use twinstudio.Auth.{Random, Settings, is_approver, choose_approver}
use twinstudio.Auth.Access.{accept}
use twinstudio.Auth.Approvers.{choose_approver_lem}
use twinstudio.Auth.Acceptance.{accept_spends}
use twinstudio.Domain.Roles.{of_value}
use twinstudio.Permissions.{require_permission}
use twinstudio.EventStore.Events.{load}
use twinstudio.EventStore.Credentials.{
  is_past, ensure_user, create_session, authenticate_session, create_api_token,
  authenticate_api_token,
}
use twinstudio.EventStore.Credentials.Sessions.{authenticate_session-create}
use twinstudio.EventStore.Credentials.Tokens.{authenticate_api_token-create}
use twinstudio.Base.Text.{lower}
use twinstudio.Projector.Replay.{project_from_events}
use twinstudio.Bus.Cases.{grants_membership}
use twinstudio.Bus.Table.{cases}
use twinstudio.Bus.Execute.{execute}
use twinstudio.Examples.{with_invitations, invitation, plain, lamp, strict, fresh}

choose_approver_lem_example :
    any (λ p. (p.0 == "ann@example.org") && is_approver p) lamp.memberships ≡ true
unfolding choose_approver
choose_approver_lem_example = choose_approver_lem lamp.memberships none "ann@example.org" refl

abbrev random : Random
random = record {
  invitation_id = "inv_2";
  approval_token = "approval_2";
  access_token = "access_2";
  api_token_id = "t1";
  api_token = "api";
  session_id = "s1";
  session = "session";
  now = 1500;
}

abbrev settings : Settings
settings = record {
  dev_auth_bypass = false;
  dev_user_email = "";
  invitation_ttl_hours = 48;
  session_ttl_hours = 12;
}

-- an approver who may no longer grant memberships
abbrev row : Invitation
row = record (invitation approved (some "access")) { approver_email = "bob@example.org" }

abbrev demoted : Database
demoted = with_invitations (row ∷ [])

accept_spends_example :
    ((accept plain settings random fresh strict "c1" "access" demoted).0 ≡ err permission_denied)
    × ((accept_invitation plain "access" 1600
          (accept plain settings random fresh strict "c1" "access" demoted).1).0
        ≡ err (value_error "Invitation cannot be accepted"))
unfolding accept_invitation execute project_from_events load ensure_user cases grants_membership
    of_value require_permission
accept_spends_example =
    accept_spends plain settings random fresh strict "c1" "access" 1600 demoted
      (to_accepted 1500 row) permission_denied refl refl

authenticate_session-create_example :
    authenticate_session plain "session" 1600
      (create_session plain "Eve@example.org" 2000 "session" "s1" 1500 demoted).1
    ≡ (if leb 2000 1600 then none else some (lower "Eve@example.org"))
unfolding create_session
authenticate_session-create_example =
    authenticate_session-create plain "Eve@example.org" "session" "s1" "session" 2000 1500 1600
      demoted refl

authenticate_api_token-create_example :
    authenticate_api_token plain "eve@EXAMPLE.org" "token" 1600
      (create_api_token plain "Eve@example.org" "laptop" (some 2000) "token" "t1" 1500 demoted).1
    ≡ ((lower "Eve@example.org" == lower "eve@EXAMPLE.org") && not (is_past (some 2000) 1600))
unfolding create_api_token
authenticate_api_token-create_example =
    authenticate_api_token-create plain "Eve@example.org" "laptop" "token" "t1" "eve@EXAMPLE.org"
      "t1" "token" (some 2000) 1500 1600 demoted refl
