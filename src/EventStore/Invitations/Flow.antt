-- ===== src/EventStore/Invitations/Flow.antt =====
-- An approved invitation can be accepted with the token that the approval handed out.
use twinstudio.Base.{
  String, ◌≡◌, ◌<◌, refl, ap, ◌∙◌, Bool, true, false, not, ◌&&◌, ◌||◌, inl, inr, some, List, [],
  ◌∷◌, first, any, Bool-cases, arith, ok, ◌==◌, eq_iff, eq_refl, leb,
}
use twinstudio.Domain.Objects.{Instant}
use twinstudio.EventStore.Tables.{Database, Invitation, approved}
use twinstudio.EventStore.Invitations.{
  has_access, update_rows, update_invitation, to_approved, to_accepted, find_access,
  approve_invitation, accept_invitation,
}
use twinstudio.EventStore.Invitations.Approvals.{approve_outcome}

-- No two rows have one primary key.
abbrev pub IsKeyed : List Invitation → Type 0
IsKeyed [] = Unit
IsKeyed (r ∷ rows) = (any (λ s. s.invitation_id == r.invitation_id) rows ≡ false) × IsKeyed rows

pub first-any :
    (p test : Invitation → Bool) (rows : List Invitation) (row : Invitation)
    → first test rows ≡ some row
    → any p rows ≡ false
    → p row ≡ false
first-any p test [] row h none_of = cc
first-any p test (x ∷ rows) row h none_of = ground (arith, first-any p test rows row)

first-here :
    (test : Invitation → Bool) (x : Invitation) (rows : List Invitation)
    → test x ≡ true
    → first test (x ∷ rows) ≡ some x
first-here test x rows h = rw h refl

first-later :
    (test : Invitation → Bool) (x : Invitation) (rows : List Invitation)
    → test x ≡ false
    → first test (x ∷ rows) ≡ first test rows
first-later test x rows h = rw h refl

pub apart_of_first :
    (test : Invitation → Bool) (x : Invitation) (rows : List Invitation) (row : Invitation)
    → first test rows ≡ some row
    → any (λ s. s.invitation_id == x.invitation_id) rows ≡ false
    → (x.invitation_id == row.invitation_id) ≡ false
apart_of_first test x rows row h k = ground (
  arith,
  first-any (λ s. s.invitation_id == x.invitation_id) test rows row h k,
  eq_iff x.invitation_id row.invitation_id,
  eq_iff row.invitation_id x.invitation_id,
)

free_parts : (a b c : Bool) → (a && not b || c) ≡ false → b ≡ false → (a ≡ false) × (c ≡ false)
free_parts a b c h k = ground arith

-- Where no other row has the hash, the row that the change gives it to is found by it.
found-update_rows :
    (test : Invitation → Bool) (hash : String) (change : Invitation → Invitation)
    (rows : List Invitation) (row : Invitation)
    → IsKeyed rows
    → first test rows ≡ some row
    → any (λ i. has_access hash i && not (i.invitation_id == row.invitation_id)) rows ≡ false
    → has_access hash (change row) ≡ true
    → first (has_access hash) (update_rows row.invitation_id change rows) ≡ some (change row)
found-update_rows test hash change [] row k h free has = cc
found-update_rows test hash change (x ∷ rows) row k h free has = elim (Bool-cases (test x)) [
  | inl here ↦
      let first_is : some x ≡ some row = rw here at h in
      let same : x ≡ row = cc in
      rw same (
        rw (eq_refl row.invitation_id) (
          first-here (has_access hash) (change row) (update_rows row.invitation_id change rows)
            has))
  | inr later ↦
      let found : first test rows ≡ some row = rw later at h in
      let apart : (x.invitation_id == row.invitation_id) ≡ false =
        apart_of_first test x rows row found k.0 in
      let free_here : (has_access hash x ≡ false)
          × (any (λ i. has_access hash i && not (i.invitation_id == row.invitation_id)) rows
              ≡ false) =
        free_parts (has_access hash x) (x.invitation_id == row.invitation_id)
          (any (λ i. has_access hash i && not (i.invitation_id == row.invitation_id)) rows) free
          apart in
      rw apart (
        first-later (has_access hash) x (update_rows row.invitation_id change rows) free_here.0
        ∙ found-update_rows test hash change rows row k.1 found free_here.1 has)
]

module _ (sha256 : String → String) where
  accepted_in_time :
      (token : String) (now : Instant) (db : Database) (row : Invitation)
      → find_access sha256 token db ≡ some row
      → row.status ≡ approved
      → now < row.expires_at
      → accept_invitation sha256 token now db
        ≡ (ok (to_accepted now row), update_invitation row.invitation_id (to_accepted now) db)
  unfolding accept_invitation
  accepted_in_time token now db row found granted timely =
      let early : leb row.expires_at now ≡ false = ground arith in
      rw (found, accept_invitation, granted, early) refl

  -- Where the keys of the invitations are distinct, the access token that an approval hands out is
  -- accepted at any time before the invitation expires, and what it accepts is the invitation that
  -- was approved.
  pub accept-approve :
      (token access issued : String) (now later : Instant) (db : Database) (granted : Invitation)
      → IsKeyed db.invitations
      → (approve_invitation sha256 token access now db).0 ≡ ok (granted, issued)
      → later < granted.expires_at
      → (accept_invitation sha256 issued later (approve_invitation sha256 token access now db).1).0
        ≡ ok (to_accepted later (record granted { access_token_hash = some (sha256 issued) }))
  accept-approve token access issued now later db granted k h timely =
      elim (approve_outcome sha256 token access now db) [
        | inl a ↦
            let hash = sha256 access in
            let change = to_approved now hash in
            let row = change a.row in
            let same : granted ≡ record a.row { status = approved; approved_at = some now } =
              ground (arith, a.result) in
            let token_same : issued ≡ access = ground (arith, a.result) in
            let found : find_access sha256 access (update_invitation a.row.invitation_id change db)
                ≡ some row =
              found-update_rows (λ i. i.approval_token_hash == sha256 token) hash change
                db.invitations a.row k a.found a.unused (eq_refl hash) in
            let done =
              accepted_in_time access later (update_invitation a.row.invitation_id change db) row
                found refl (rw same at timely) in
            rw (a.result, token_same, same) (ap (λ p. p.0) done)
        | inr (e, failed) ↦ cc
      ]
