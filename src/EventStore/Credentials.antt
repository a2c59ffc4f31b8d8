-- ===== src/EventStore/Credentials.antt =====
-- Users, API tokens and sessions of `EventStore` (src/twinstudio/event_store.py). Only hashes of
-- tokens are stored; the hash, the random texts and the clock are arguments.
pub mod Sessions
pub mod Tokens
use twinstudio.Base.{
  String, Bool, true, false, not, ◌&&◌, ◌||◌, Option, none, some, [], ◌∷◌, ◌++◌, any, first, ok,
  err, integrity_error, leb, ◌==◌, if◌then◌else◌,
}
use twinstudio.Base.Text.{lower}
use twinstudio.Base.Exec.{Exec, pure, ◌>>◌}
use twinstudio.Domain.Objects.{Instant}
use twinstudio.EventStore.Tables.{Database, ApiToken, Session}

abbrev pub is_none {ℓ} : {A : Type ℓ} → Option A → Bool
is_none none = true
is_none (some a) = false

unfoldable pub ensure_user : String → Option String → Instant → Exec Database (Unit {0})
unfolding lower
ensure_user email display_name now db =
    let normalized = lower email in
    if any (λ u. u.email == normalized) db.users then (ok tt, db) else (
      ok tt,
      record db {
        users =
            db.users
            ++ record {
              email = normalized;
              display_name = display_name;
              created_at = now;
              disabled_at = none;
            }
              ∷ [];
      },
    )

unfoldable pub insert_api_token : ApiToken → Exec Database (Unit {0})
insert_api_token t db =
    if any (λ r. (r.token_id == t.token_id) || (r.token_hash == t.token_hash)) db.api_tokens
    then (err integrity_error, db)
    else (ok tt, record db { api_tokens = db.api_tokens ++ t ∷ [] })

unfoldable pub insert_session : Session → Exec Database (Unit {0})
insert_session t db =
    if any (λ r. (r.session_id == t.session_id) || (r.token_hash == t.token_hash)) db.sessions
    then (err integrity_error, db)
    else (ok tt, record db { sessions = db.sessions ++ t ∷ [] })

-- `expires_at is not None and expires_at <= now`
abbrev pub is_past : Option Instant → Instant → Bool
is_past none now = false
is_past (some at) now = leb at now

module _ (sha256 : String → String) where
  -- `raw` and `token_id` are the results of `secrets.token_urlsafe(36)` and `token_hex(16)`
  unfoldable pub create_api_token :
      String
      → String
      → Option Instant
      → (raw token_id : String) → Instant
      → Exec Database (String × String)
  unfolding ensure_user insert_api_token lower
  create_api_token email label expires_at raw token_id now = do
    ensure_user email none now
    insert_api_token (record {
      token_id = token_id;
      email = lower email;
      token_hash = sha256 raw;
      label = label;
      created_at = now;
      expires_at = expires_at;
      revoked_at = none;
    })
    pure (token_id, raw)

  unfoldable pub authenticate_api_token : String → String → Instant → Database → Bool
  unfolding lower
  authenticate_api_token email raw_token now db =
      elim (first
        (λ t.
          (t.email == lower email) && (t.token_hash == sha256 raw_token) && is_none t.revoked_at)
        db.api_tokens) [ none ↦ false | some row ↦ not (is_past row.expires_at now) ]

  unfoldable pub create_session :
      String → Instant → (raw session_id : String) → Instant → Exec Database String
  unfolding ensure_user insert_session lower
  create_session email expires_at raw session_id now = do
    ensure_user email none now
    insert_session (record {
      session_id = session_id;
      email = lower email;
      token_hash = sha256 raw;
      created_at = now;
      expires_at = expires_at;
      revoked_at = none;
    })
    pure raw

  unfoldable pub authenticate_session : String → Instant → Database → Option String
  authenticate_session raw_token now db =
      elim (first (λ t. (t.token_hash == sha256 raw_token) && is_none t.revoked_at) db.sessions) [
        | none ↦ none
        | some row ↦ if leb row.expires_at now then none else some row.email
      ]
