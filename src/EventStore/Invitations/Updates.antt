-- ===== src/EventStore/Invitations/Updates.antt =====
-- An update by primary key seen through the lookups by token.
use twinstudio.Base.{
  String, ◌≡◌, refl, ap, Bool, inl, inr, some, List, [], ◌∷◌, first, Bool-cases, ◌==◌, eq_refl,
  if◌then◌else◌,
}
use twinstudio.EventStore.Tables.{Invitation}
use twinstudio.EventStore.Invitations.{update_rows}

-- the row after the update
abbrev pub updated : String → (Invitation → Invitation) → Invitation → Invitation
updated id change row = if row.invitation_id == id then change row else row

test-updated :
    (test : Invitation → Bool) (id : String) (change : Invitation → Invitation)
    → ((row : Invitation) → test (change row) ≡ test row)
    → (row : Invitation) → test (updated id change row) ≡ test row
test-updated test id change same row = elim (Bool-cases (row.invitation_id == id)) [
  | inl e ↦ rw e (same row)
  | inr e ↦ rw e refl
]

-- A lookup that the change does not affect finds the same place, updated.
pub first-update_rows :
    (test : Invitation → Bool) (id : String) (change : Invitation → Invitation)
    → ((row : Invitation) → test (change row) ≡ test row)
    → (rows : List Invitation) (row : Invitation) → first test rows ≡ some row
    → first test (update_rows id change rows) ≡ some (updated id change row)
first-update_rows test id change same [] row h = cc
first-update_rows test id change same (x ∷ rows) row h = elim (Bool-cases (test x)) [
  | inl here ↦
      let first_is : some x ≡ some row = rw here at h in
      let found : x ≡ row = cc in
      rw (test-updated test id change same x, here) (ap (λ r. some (updated id change r)) found)
  | inr later ↦
      rw (test-updated test id change same x, later)
        (first-update_rows test id change same rows row (rw later at h))
]

-- A row that the update does not reach is found as it was.
pub updated_self :
    (change : Invitation → Invitation) (row : Invitation)
    → updated row.invitation_id change row ≡ change row
updated_self change row = rw (eq_refl row.invitation_id) refl
