-- ===== src/EventStore/Tables.antt =====
-- The tables of src/twinstudio/event_store.py, as lists of rows in the order of insertion.
use twinstudio.Base.{String, Option, List}
use twinstudio.Domain.Roles.{Role}
use twinstudio.Domain.Objects.{Instant}
use twinstudio.Domain.Envelopes.{EventEnvelope}

pub record User : Type 0 where
  pub email : String
  pub display_name : Option String
  pub created_at : Instant
  pub disabled_at : Option Instant

pub record ApiToken : Type 0 where
  pub token_id : String
  pub email : String
  pub token_hash : String
  pub label : String
  pub created_at : Instant
  pub expires_at : Option Instant
  pub revoked_at : Option Instant

pub record Session : Type 0 where
  pub session_id : String
  pub email : String
  pub token_hash : String
  pub created_at : Instant
  pub expires_at : Instant
  pub revoked_at : Option Instant

-- The texts of the column `status`.
pub data InvitationStatus : Type 0 where
  pending_approval approved rejected accepted : InvitationStatus

pub record Invitation : Type 0 where
  pub invitation_id : String
  pub project_id : String
  pub requested_email : String
  pub requested_role : Role
  pub requested_by : String
  pub approver_email : String
  pub message : String
  pub status : InvitationStatus
  pub approval_token_hash : String
  pub access_token_hash : Option String
  pub created_at : Instant
  pub expires_at : Instant
  pub approved_at : Option Instant
  pub accepted_at : Option Instant

pub record Database : Type 0 where
  pub events : List EventEnvelope
  pub users : List User
  pub api_tokens : List ApiToken
  pub sessions : List Session
  pub invitations : List Invitation
