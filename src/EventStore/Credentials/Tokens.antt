-- ===== src/EventStore/Credentials/Tokens.antt =====
-- An API token authenticates the address that it was created for, and no other.
use twinstudio.Base.{
  String, ◌≡◌, refl, false, not, ◌&&◌, ◌||◌, inl, inr, Option, none, some, List, [], ◌∷◌, ◌++◌,
  first, any, Bool-cases, arith, ok, ◌==◌, eq_refl, if◌then◌else◌,
}
use twinstudio.Base.Text.{lower}
use twinstudio.Domain.Objects.{Instant}
use twinstudio.EventStore.Tables.{Database, ApiToken}
use twinstudio.EventStore.Credentials.{
  is_none, is_past, ensure_user, insert_api_token, create_api_token, authenticate_api_token,
}

abbrev token_of : String → String → String → String → Instant → Option Instant → ApiToken
token_of id email hash label now expires_at = record {
  token_id = id;
  email = lower email;
  token_hash = hash;
  label = label;
  created_at = now;
  expires_at = expires_at;
  revoked_at = none;
}

-- A row with a hash that no row has is found behind them, for its own address.
first-snoc :
    (rows : List ApiToken) (row : ApiToken) (who : String)
    → any (λ r. (r.token_id == row.token_id) || (r.token_hash == row.token_hash)) rows ≡ false
    → row.revoked_at ≡ none
    → first
        (λ t. (t.email == who) && (t.token_hash == row.token_hash) && is_none t.revoked_at)
        (rows ++ row ∷ [])
      ≡ (if row.email == who then some row else none)
first-snoc [] row who free live = rw (eq_refl row.token_hash, live) (ground arith)
first-snoc (x ∷ rows) row who free live =
    let apart : ((x.email == who) && (x.token_hash == row.token_hash)) ≡ false = ground arith in
    rw apart (first-snoc rows row who (ground arith) live)

ensure_user_keeps :
    (email : String) (name : Option String) (now : Instant) (db : Database)
    → ((ensure_user email name now db).0 ≡ ok tt)
      × ((ensure_user email name now db).1.api_tokens ≡ db.api_tokens)
unfolding ensure_user
ensure_user_keeps email name now db =
    elim (Bool-cases (any (λ u. u.email == lower email) db.users)) [
      | inl known ↦ rw known (refl, refl)
      | inr new ↦ rw new (refl, refl)
    ]

module _ (sha256 : String → String) where
  -- A token that `create_api_token` returned authenticates an address exactly when it is the one that the token
  -- was created for, up to the case of letters, and the token has no expiry or has not reached it.
  pub authenticate_api_token-create :
      (email label raw id who given_id given : String) (expires_at : Option Instant)
      (now later : Instant) (db : Database)
      → (create_api_token sha256 email label expires_at raw id now db).0 ≡ ok (given_id, given)
      → authenticate_api_token sha256 who given later
          (create_api_token sha256 email label expires_at raw id now db).1
        ≡ ((lower email == lower who) && not (is_past expires_at later))
  unfolding create_api_token authenticate_api_token insert_api_token
  authenticate_api_token-create email label raw id who given_id given expires_at now later db h =
      let known = (ensure_user email none now db).1 in
      let row = token_of id email (sha256 raw) label now expires_at in
      let (done, same) = ensure_user_keeps email none now db in
      let h1 = rw done at h in
      elim (Bool-cases (
        any (λ r. (r.token_id == row.token_id) || (r.token_hash == row.token_hash))
          known.api_tokens)) [
            | inl taken ↦ let k = rw taken at h1 in cc
            | inr free ↦
                let k : ok (id, raw) ≡ ok (given_id, given) = rw free at h1 in
                let token : given ≡ raw = cc in
                let found = first-snoc known.api_tokens row (lower who) free refl in
                rw (done, free, token)
                  (rw (found, authenticate_api_token)
                    (elim (Bool-cases (lower email == lower who)) [
                      | inl own ↦ rw own refl
                      | inr other ↦ rw other refl
                    ]))
          ]
