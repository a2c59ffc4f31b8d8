-- ===== src/Bus/Execute/Access.antt =====
-- Who a command is refused to: nothing is written for an actor whose role does not allow it.
use twinstudio.Base.{
  String, ◌≡◌, sym, ap, true, false, inl, inr, Option, some, [], ◌∷◌, Bool-cases, Option-cases,
  Result-cases, Result, ok, err, ◌>>=◌, ◌==◌,
}
use twinstudio.Base.Text.{lower}
use twinstudio.Base.Dict.{Dict, get}
use twinstudio.Base.Json.{Json}
use twinstudio.Domain.Roles.{Role}
use twinstudio.Domain.Envelopes.{EventEnvelope, CommandEnvelope}
use twinstudio.Domain.Snapshot.{ProjectSnapshot, Pydantic}
use twinstudio.Permissions.{has_permission, require_permission}
use twinstudio.EventStore.Tables.{Database}
use twinstudio.Bus.Cases.{Case, Prepared}
use twinstudio.Bus.Table.{cases}
use twinstudio.Bus.Execute.{Fresh, event_of, project, prepare, authorized, handle_existing, decide}

require_ok :
    (role : Option Role) (permission : String) (u : Unit {0})
    → require_permission role permission ≡ ok u
    → has_permission role permission ≡ true
unfolding require_permission
require_ok role permission u h = elim (Bool-cases (has_permission role permission)) [
  | inl allowed ↦ allowed
  | inr denied ↦ let k = rw denied at h in cc
]

module _ (P : Pydantic) (fresh : Fresh) (command : CommandEnvelope) where
  abbrev pub role_in : ProjectSnapshot → Option Role
  role_in s = get (lower command.actor) s.memberships

  -- How a command on an existing project came to its event: the snapshot, the case and the
  -- permission that the actor's role in that snapshot had.
  pub record Allowed (db : Database) (event : EventEnvelope) : Type 0 where
    pub snapshot : ProjectSnapshot
    pub projected : project P command.project_id db ≡ ok snapshot
    pub case : Case
    pub in_table : get command.command_type (cases P) ≡ some case
    pub decision : Prepared
    pub decided : case command snapshot ≡ ok decision
    pub allowed : has_permission (role_in snapshot) decision.permission ≡ true
    pub event_type : event.event_type ≡ decision.event_type

  prepare_ok :
      (s : ProjectSnapshot) (p : Prepared)
      → prepare P command s ≡ ok p
      → (case : Case) × (get command.command_type (cases P) ≡ some case) × (case command s ≡ ok p)
  unfolding prepare
  prepare_ok s p h = elim (Option-cases (get command.command_type (cases P))) [
    | inl missing ↦ let k = rw missing at h in cc
    | inr (case, found) ↦ (case, found, rw found at h)
  ]

  pub single_type :
      (event_type : String) (event : EventEnvelope) (r : Result (Dict Json))
      → (r >>= λ payload. ok (event_of fresh command event_type payload ∷ [])) ≡ ok (event ∷ [])
      → event.event_type ≡ event_type
  single_type event_type event (ok payload) h =
      let same : event_of fresh command event_type payload ≡ event = cc in
      sym (ap (λ (e : EventEnvelope). e.event_type) same)
  single_type event_type event (err e) h = cc

  authorized_ok :
      (role : Option Role) (p : Prepared) (event : EventEnvelope)
      → authorized P fresh command role p ≡ ok (event ∷ [])
      → (has_permission role p.permission ≡ true) × (event.event_type ≡ p.event_type)
  unfolding authorized
  authorized_ok role p event h = elim (Result-cases (require_permission role p.permission)) [
    | inl (u, granted) ↦
        (require_ok role p.permission u granted, single_type p.event_type event _ (rw granted at h))
    | inr (e, denied) ↦ let k = rw denied at h in cc
  ]

  pub decide-Allowed :
      (db : Database) (event : EventEnvelope)
      → (command.command_type == "project.create") ≡ false
      → decide P fresh command db ≡ ok (event ∷ [])
      → Allowed db event
  unfolding decide handle_existing
  decide-Allowed db event other h =
      let h1 = rw other at h in
      elim (Result-cases (project P command.project_id db)) [
        | inl (s, found) ↦
            let h2 = rw found at h1 in
            elim (Result-cases (prepare P command s)) [
              | inl (p, made) ↦
                  let (allowed, same) = authorized_ok (role_in s) p event (rw made at h2) in
                  let (case, in_table, decided) = prepare_ok s p made in
                  record {
                    snapshot = s;
                    projected = found;
                    case = case;
                    in_table = in_table;
                    decision = p;
                    decided = decided;
                    allowed = allowed;
                    event_type = same;
                  }
              | inr (e, failed) ↦ let k = rw failed at h2 in cc
            ]
        | inr (e, missing) ↦ let k = rw missing at h1 in cc
      ]
