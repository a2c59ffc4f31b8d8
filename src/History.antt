-- ===== src/History.antt =====
-- src/twinstudio/eda_history.py: the history of EDA artifacts. Codes is what a log entry says of an event, Log
-- the hash chain of the log entries, Descriptor the file `project.twinstudio.json`.
pub mod Codes
pub mod Log
pub mod Chain
pub mod Tampering
pub mod Descriptor
pub mod Heads
pub mod Sources
use twinstudio.Base.{ℕ, String, Bool, Result}
use twinstudio.Base.Json.{Json, Float, str}
use twinstudio.Domain.Objects.{Instant}

-- What the file uses of Python's library: `json.dumps` with the options of `canonical_json`, the hexadecimal
-- SHA-256 of a text in UTF-8, `str` on a value that is no text, `==` between a float and a natural
-- number, and an instant in UTC in ISO 8601 with `Z`.
pub record Python : Type 0 where
  pub canonical_json : Json → Result String
  pub sha256 : String → String
  pub repr : Json → String
  pub same_number : Float → ℕ → Bool
  pub isoformat : Instant → String

-- `str(value)`
abbrev pub as_text : Python → Json → String
as_text python (str s) = s
as_text python v = python.repr v
