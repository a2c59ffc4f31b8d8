-- ===== src/EventStore/Invitations/Soundness.antt =====
-- What every invitation in the table can look like, whatever calls were made.
use twinstudio.Base.{
  String, ◌≡◌, ◌≢◌, refl, sym, ◌∙◌, Bool, false, inl, inr, none, some, List, [], ◌∷◌, ◌++◌, All,
  first, any, any-append, Bool-cases, Option-cases, arith, ◌==◌, eq_iff, eq_refl,
}
use mathlib.Core.Path.{subst}
use twinstudio.Base.Text.{lower}
use twinstudio.Base.Exec.{resume-pure}
use twinstudio.Domain.Roles.{Role}
use twinstudio.Domain.Objects.{Instant}
use twinstudio.EventStore.Tables.{
  Database, Invitation, InvitationStatus, pending_approval, approved, rejected, accepted,
}
use twinstudio.EventStore.Invitations.{
  has_access, update_rows, to_approved, to_rejected, to_accepted, clashes, insert_invitation,
  find_approval, create_invitation, approve_invitation, reject_invitation, accept_invitation,
}
use twinstudio.EventStore.Invitations.Updates.{updated}
use twinstudio.EventStore.Invitations.Acceptances.{accept_outcome}
use twinstudio.EventStore.Invitations.Approvals.{approve_outcome}
use twinstudio.EventStore.Invitations.Flow.{IsKeyed, apart_of_first}

-- The columns that go with a status: an access token exists from the approval on, and the times of
-- approval and acceptance are set by the calls that set the status.
abbrev pub IsSoundAs : InvitationStatus → Invitation → Type 0
IsSoundAs pending_approval row =
    (row.access_token_hash ≡ none) × (row.approved_at ≡ none) × (row.accepted_at ≡ none)
IsSoundAs approved row =
    (row.access_token_hash ≢ none) × (row.approved_at ≢ none) × (row.accepted_at ≡ none)
IsSoundAs accepted row =
    (row.access_token_hash ≢ none) × (row.approved_at ≢ none) × (row.accepted_at ≢ none)
IsSoundAs rejected row = Unit

abbrev pub IsSound : Invitation → Type 0
IsSound row = IsSoundAs row.status row

-- The table: primary keys are unique and every row is sound.
pub record IsConsistent (rows : List Invitation) : Type 0 where
  pub keyed : IsKeyed rows
  pub sound : All IsSound rows

first-IsSound :
    (test : Invitation → Bool) (rows : List Invitation) (row : Invitation)
    → first test rows ≡ some row
    → All IsSound rows
    → IsSound row
first-IsSound test [] row h s = cc
first-IsSound test (x ∷ rows) row h s = elim (Bool-cases (test x)) [
  | inl here ↦
      let first_is : some x ≡ some row = rw here at h in
      let same : x ≡ row = cc in rw (sym same) s.0
  | inr later ↦ first-IsSound test rows row (rw later at h) s.1
]

-- An update keeps the keys where it keeps `invitation_id`.
any-update_rows :
    (key id : String) (change : Invitation → Invitation) (rows : List Invitation)
    → ((r : Invitation) → (change r).invitation_id ≡ r.invitation_id)
    → any (λ s. s.invitation_id == key) (update_rows id change rows)
      ≡ any (λ s. s.invitation_id == key) rows
any-update_rows key id change [] same = refl
any-update_rows key id change (x ∷ rows) same =
    ground (arith, any-update_rows key id change rows same, same x)

updated_key :
    (id : String) (change : Invitation → Invitation) (x : Invitation)
    → ((r : Invitation) → (change r).invitation_id ≡ r.invitation_id)
    → (updated id change x).invitation_id ≡ x.invitation_id
updated_key id change x same = elim (Bool-cases (x.invitation_id == id)) [
  | inl here ↦ rw here (same x)
  | inr apart ↦ rw apart refl
]

update_none :
    (id : String) (change : Invitation → Invitation) (rows : List Invitation)
    → any (λ s. s.invitation_id == id) rows ≡ false
    → update_rows id change rows ≡ rows
update_none id change [] h = refl
update_none id change (x ∷ rows) h = ground (arith, update_none id change rows)

IsKeyed-update_rows :
    (id : String) (change : Invitation → Invitation) (rows : List Invitation)
    → ((r : Invitation) → (change r).invitation_id ≡ r.invitation_id)
    → IsKeyed rows
    → IsKeyed (update_rows id change rows)
IsKeyed-update_rows id change [] same k = tt
IsKeyed-update_rows id change (x ∷ rows) same k = (
  rw (updated_key id change x same) (any-update_rows x.invitation_id id change rows same ∙ k.0),
  IsKeyed-update_rows id change rows same k.1,
)

-- The updated row is the only one with its key, so only it has to be sound again.
IsSound-update_rows :
    (test : Invitation → Bool) (change : Invitation → Invitation) (rows : List Invitation)
    (row : Invitation)
    → IsKeyed rows
    → first test rows ≡ some row
    → IsSound (change row)
    → All IsSound rows
    → All IsSound (update_rows row.invitation_id change rows)
IsSound-update_rows test change [] row k h c s = tt
IsSound-update_rows test change (x ∷ rows) row k h c s = elim (Bool-cases (test x)) [
  | inl here ↦
      let first_is : some x ≡ some row = rw here at h in
      let same : x ≡ row = cc in
      let rest : update_rows row.invitation_id change rows ≡ rows =
        update_none row.invitation_id change rows (rw same at k.0) in
      rw (same, eq_refl row.invitation_id, rest) (c, s.1)
  | inr later ↦
      let found : first test rows ≡ some row = rw later at h in
      rw (apart_of_first test x rows row found k.0)
        (s.0, IsSound-update_rows test change rows row k.1 found c s.1)
]

IsKeyed-snoc :
    (rows : List Invitation) (i : Invitation)
    → any (λ s. s.invitation_id == i.invitation_id) rows ≡ false
    → IsKeyed rows
    → IsKeyed (rows ++ i ∷ [])
IsKeyed-snoc [] i free k = (refl, tt)
IsKeyed-snoc (x ∷ rows) i free k = (
  ground (
    arith,
    any-append (λ s. s.invitation_id == x.invitation_id) rows (i ∷ []),
    eq_iff i.invitation_id x.invitation_id,
    eq_iff x.invitation_id i.invitation_id,
  ),
  IsKeyed-snoc rows i (ground arith) k.1,
)

IsSound-snoc :
    (rows : List Invitation) (i : Invitation)
    → IsSound i
    → All IsSound rows
    → All IsSound (rows ++ i ∷ [])
IsSound-snoc [] i c s = (c, tt)
IsSound-snoc (x ∷ rows) i c s = (s.0, IsSound-snoc rows i c s.1)

any-clashes :
    (i : Invitation) (rows : List Invitation)
    → any (clashes i) rows ≡ false
    → any (λ s. s.invitation_id == i.invitation_id) rows ≡ false
any-clashes i [] h = refl
any-clashes i (x ∷ rows) h = ground (arith, any-clashes i rows)

-- A new row that breaks no constraint keeps the table consistent if it is sound; a refused one
-- leaves it alone.
insert_invitation-IsConsistent :
    (i : Invitation) (db : Database)
    → IsSound i
    → IsConsistent db.invitations
    → IsConsistent (insert_invitation i db).1.invitations
unfolding insert_invitation
insert_invitation-IsConsistent i db c t = elim (Bool-cases (any (clashes i) db.invitations)) [
  | inl taken ↦ rw taken t
  | inr free ↦ rw free (record {
    keyed = IsKeyed-snoc db.invitations i (any-clashes i db.invitations free) t.keyed;
    sound = IsSound-snoc db.invitations i c t.sound;
  })
]

update-IsConsistent :
    (test : Invitation → Bool) (change : Invitation → Invitation) (rows : List Invitation)
    (row : Invitation)
    → ((r : Invitation) → (change r).invitation_id ≡ r.invitation_id)
    → first test rows ≡ some row
    → IsSound (change row)
    → IsConsistent rows
    → IsConsistent (update_rows row.invitation_id change rows)
update-IsConsistent test change rows row same h c t = record {
  keyed = IsKeyed-update_rows row.invitation_id change rows same t.keyed;
  sound = IsSound-update_rows test change rows row t.keyed h c t.sound;
}

module _ (sha256 : String → String) where
  -- One call of the four methods, with any arguments, random texts and clock.
  pub data Step : Database → Database → Type 0 where
    create :
        (project email : String) (role : Role) (by approver message : String) (expires_at : Instant)
        (id token : String) (now : Instant) (db : Database)
        → Step db
            (create_invitation sha256 project email role by approver message expires_at id token now
              db).1
    approve :
        (token access : String) (now : Instant) (db : Database)
        → Step db (approve_invitation sha256 token access now db).1
    reject : (token : String) (db : Database) → Step db (reject_invitation sha256 token db).1
    accept :
        (token : String) (now : Instant) (db : Database)
        → Step db (accept_invitation sha256 token now db).1

  pub data Reach (start : Database) : Database → Type 0 where
    here : Reach start start
    next : {s t : Database} → Reach start s → Step s t → Reach start t

  create-IsConsistent :
      (project email : String) (role : Role) (by approver message : String) (expires_at : Instant)
      (id token : String) (now : Instant) (db : Database)
      → IsConsistent db.invitations
      → IsConsistent
          (create_invitation sha256 project email role by approver message expires_at id token now
            db).1.invitations
  unfolding create_invitation
  create-IsConsistent project email role by approver message expires_at id token now db c =
      let answer : String × String × String = (id, token, lower email) in
      rw (resume-pure _ answer _) (insert_invitation-IsConsistent _ db (refl, refl, refl) c)

  reject-IsConsistent :
      (token : String) (db : Database)
      → IsConsistent db.invitations
      → IsConsistent (reject_invitation sha256 token db).1.invitations
  unfolding reject_invitation
  reject-IsConsistent token db c = elim (Option-cases (find_approval sha256 token db)) [
    | inl missing ↦ rw (missing, reject_invitation) c
    | inr (row, found) ↦
        rw (found, reject_invitation)
          (update-IsConsistent (λ i. i.approval_token_hash == sha256 token) to_rejected
            db.invitations row (λ r. refl) found tt c)
  ]

  Step-IsConsistent :
      {s t : Database} → Step s t → IsConsistent s.invitations → IsConsistent t.invitations
  Step-IsConsistent (create project email role by approver message expires_at id token now db) c =
      create-IsConsistent project email role by approver message expires_at id token now db c
  Step-IsConsistent (approve token access now db) c =
      elim (approve_outcome sha256 token access now db) [
        | inl a ↦
            let test : Invitation → Bool = λ i. i.approval_token_hash == sha256 token in
            let pending : IsSoundAs pending_approval a.row =
              subst (λ s. IsSoundAs s a.row) a.was_pending
                (first-IsSound test db.invitations a.row a.found c.sound) in
            rw a.result (
              update-IsConsistent test (to_approved now (sha256 access)) db.invitations a.row
                (λ r. refl) a.found (λ e. cc, λ e. cc, pending.2) c)
        | inr (e, failed) ↦ rw failed c
      ]
  Step-IsConsistent (reject token db) c = reject-IsConsistent token db c
  Step-IsConsistent (accept token now db) c = elim (accept_outcome sha256 token now db) [
    | inl a ↦
        let test = has_access (sha256 token) in
        let granted : IsSoundAs approved a.row =
          subst (λ s. IsSoundAs s a.row) a.was_approved
            (first-IsSound test db.invitations a.row a.found c.sound) in
        rw a.result (
          update-IsConsistent test (to_accepted now) db.invitations a.row (λ r. refl) a.found
            (granted.0, granted.1, λ e. cc) c)
    | inr (e, failed) ↦ rw failed c
  ]

  -- Whatever calls are made on an empty table, in whatever order and whether they succeed or raise:
  -- primary keys stay unique, a pending invitation has no access token, and an accepted one has an
  -- access token and the times of an approval and an acceptance.
  pub Reach-IsConsistent :
      {s t : Database} → s.invitations ≡ [] → Reach s t → IsConsistent t.invitations
  Reach-IsConsistent empty here = rw empty (record { keyed = tt; sound = tt })
  Reach-IsConsistent empty (next r step) = Step-IsConsistent step (Reach-IsConsistent empty r)
