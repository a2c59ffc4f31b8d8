-- ===== src/EventStore/Credentials/Sessions.antt =====
-- A session that was created is the one that its token authenticates.
use twinstudio.Base.{
  String, ◌≡◌, refl, false, ◌&&◌, ◌||◌, inl, inr, Option, none, some, List, [], ◌∷◌, ◌++◌, first,
  any, Bool-cases, arith, ok, leb, ◌==◌, eq_refl, if◌then◌else◌,
}
use twinstudio.Base.Text.{lower}
use twinstudio.Domain.Objects.{Instant}
use twinstudio.EventStore.Tables.{Database, Session}
use twinstudio.EventStore.Credentials.{
  is_none, ensure_user, insert_session, create_session, authenticate_session,
}

abbrev session_of : String → String → String → Instant → Instant → Session
session_of id email hash now expires_at = record {
  session_id = id;
  email = lower email;
  token_hash = hash;
  created_at = now;
  expires_at = expires_at;
  revoked_at = none;
}

-- A row with a hash that no row has is found behind them.
first-snoc :
    (rows : List Session) (row : Session)
    → any (λ r. (r.session_id == row.session_id) || (r.token_hash == row.token_hash)) rows ≡ false
    → row.revoked_at ≡ none
    → first (λ t. (t.token_hash == row.token_hash) && is_none t.revoked_at) (rows ++ row ∷ [])
      ≡ some row
first-snoc [] row free live = rw (eq_refl row.token_hash, live) refl
first-snoc (x ∷ rows) row free live =
    let apart : (x.token_hash == row.token_hash) ≡ false = ground arith in
    rw apart (first-snoc rows row (ground arith) live)

ensure_user_keeps :
    (email : String) (name : Option String) (now : Instant) (db : Database)
    → ((ensure_user email name now db).0 ≡ ok tt)
      × ((ensure_user email name now db).1.sessions ≡ db.sessions)
unfolding ensure_user
ensure_user_keeps email name now db =
    elim (Bool-cases (any (λ u. u.email == lower email) db.users)) [
      | inl known ↦ rw known (refl, refl)
      | inr new ↦ rw new (refl, refl)
    ]

module _ (sha256 : String → String) where
  -- A session that `create_session` returned authenticates the address it was created for, in lower case,
  -- at any time before it expires, and nobody from then on.
  pub authenticate_session-create :
      (email raw id given : String) (expires_at now later : Instant) (db : Database)
      → (create_session sha256 email expires_at raw id now db).0 ≡ ok given
      → authenticate_session sha256 given later
          (create_session sha256 email expires_at raw id now db).1
        ≡ (if leb expires_at later then none else some (lower email))
  unfolding create_session authenticate_session insert_session
  authenticate_session-create email raw id given expires_at now later db h =
      let known = (ensure_user email none now db).1 in
      let row = session_of id email (sha256 raw) now expires_at in
      let (done, same) = ensure_user_keeps email none now db in
      let h1 = rw done at h in
      elim (Bool-cases (
        any (λ r. (r.session_id == row.session_id) || (r.token_hash == row.token_hash))
          known.sessions)) [
            | inl taken ↦ let k = rw taken at h1 in cc
            | inr free ↦
                let k : ok raw ≡ ok given = rw free at h1 in
                let token : given ≡ raw = cc in
                rw (done, free, token)
                  (rw (first-snoc known.sessions row free refl, authenticate_session) refl)
          ]
