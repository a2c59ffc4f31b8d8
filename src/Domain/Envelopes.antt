-- ===== src/Domain/Envelopes.antt =====
-- The envelopes of events and commands (src/twinstudio/domain.py). Identifiers and times that pydantic
-- fills by `uuid4` and `utcnow` are values of the fields.
use twinstudio.Base.{ℕ, String, Option}
use twinstudio.Base.Dict.{Dict}
use twinstudio.Base.Json.{Json}
use twinstudio.Domain.Objects.{Instant}

pub record EventEnvelope : Type 0 where
  pub event_id : String
  pub stream_id : String
  pub stream_version : ℕ
  pub event_type : String
  pub payload : Dict Json
  pub actor : String
  pub correlation_id : Option String
  pub causation_id : Option String
  pub occurred_at : Instant
  pub schema_version : ℕ

pub record CommandEnvelope : Type 0 where
  pub command_id : String
  pub command_type : String
  pub project_id : String
  pub expected_version : Option ℕ
  pub payload : Dict Json
  pub actor : String
  pub correlation_id : Option String
  pub causation_id : Option String
  pub issued_at : Instant
