-- ===== src/Bus/Execute/Effects.antt =====
-- A command either records exactly one event after the current version, or raises and changes
-- nothing.
use twinstudio.Base.{
  ℕ, ◌+◌, String, ◌≡◌, ◌≢◌, ◌⊎◌, refl, sym, inl, inr, Option, some, List, [], ◌∷◌, eqb, Bool-cases,
  Result-cases, Result, ok, err, Error, concurrency_error, ◌>>=◌, ◌==◌,
}
use mathlib.Core.Path.{subst}
use twinstudio.Base.Text.{lower}
use twinstudio.Base.Dict.{Dict, get}
use twinstudio.Base.Json.{Json}
use twinstudio.Domain.Roles.{Role}
use twinstudio.Domain.Envelopes.{EventEnvelope, CommandEnvelope}
use twinstudio.Domain.Snapshot.{ProjectSnapshot, Pydantic}
use twinstudio.EventStore.Tables.{Database}
use twinstudio.EventStore.Events.{current_version, append, normalized}
use twinstudio.EventStore.Events.Streams.{IsWellFormed}
use twinstudio.EventStore.Events.Races.{append-stale}
use twinstudio.EventStore.Events.Appends.{with_rows, append_outcome, with_rows-IsWellFormed}
use twinstudio.Permissions.{require_permission}
use twinstudio.Bus.Cases.{Prepared}
use twinstudio.Bus.Execute.{
  prepare, authorized, with_defaults, snapshot_dump, Fresh, event_of, project, create_project,
  handle_existing, decide, execute,
}

module _ (P : Pydantic) (fresh : Fresh) (command : CommandEnvelope) where
  -- The list holds one event, which the command's envelope went into.
  pub record IsSingle (events : List EventEnvelope) : Type 0 where
    pub event_type : String
    pub payload : Dict Json
    pub single : events ≡ event_of fresh command event_type payload ∷ []

  singles :
      (event_type : String) (r : Result (Dict Json)) (es : List EventEnvelope)
      → (r >>= λ payload. ok (event_of fresh command event_type payload ∷ [])) ≡ ok es
      → IsSingle es
  singles event_type (ok payload) es h = record {
    event_type = event_type;
    payload = payload;
    single = cc;
  }
  singles event_type (err e) es h = cc

  create_project-IsSingle :
      (db : Database) (es : List EventEnvelope)
      → create_project P fresh command db ≡ ok es
      → IsSingle es
  unfolding create_project
  create_project-IsSingle db es h =
      elim (Bool-cases (eqb (current_version command.project_id db) 0)) [
        | inl new ↦
            singles "ProjectCreated" (snapshot_dump P (with_defaults P command)) es (rw new at h)
        | inr taken ↦ let k = rw taken at h in cc
      ]

  after_case :
      (role : Option Role) (p : Prepared) (es : List EventEnvelope)
      → authorized P fresh command role p ≡ ok es
      → IsSingle es
  unfolding authorized
  after_case role p es h = elim (Result-cases (require_permission role p.permission)) [
    | inl (_, allowed) ↦ singles p.event_type _ es (rw allowed at h)
    | inr (e, denied) ↦ let k = rw denied at h in cc
  ]

  handle_existing-IsSingle :
      (s : ProjectSnapshot) (role : Option Role) (es : List EventEnvelope)
      → handle_existing P fresh command s role ≡ ok es
      → IsSingle es
  unfolding handle_existing
  handle_existing-IsSingle s role es h = elim (Result-cases (prepare P command s)) [
    | inl (p, found) ↦ after_case role p es (rw found at h)
    | inr (e, failed) ↦ let k = rw failed at h in cc
  ]

  decide-IsSingle :
      (db : Database) (es : List EventEnvelope) → decide P fresh command db ≡ ok es → IsSingle es
  unfolding decide
  decide-IsSingle db es h = elim (Bool-cases (command.command_type == "project.create")) [
    | inl create ↦ create_project-IsSingle db es (rw create at h)
    | inr other ↦
        let k = rw other at h in
        elim (Result-cases (project P command.project_id db)) [
          | inl (s, found) ↦
              handle_existing-IsSingle s (get (lower command.actor) s.memberships) es
                (rw found at k)
          | inr (e, missing) ↦ let l = rw missing at k in cc
        ]
  ]

  -- What a successful command did: the one event that it decided on, after the current version.
  pub record Recorded (db : Database) : Type 0 where
    pub event : EventEnvelope
    pub decided : decide P fresh command db ≡ ok (event ∷ [])
    pub actor : event.actor ≡ command.actor
    pub result :
        let stored =
          normalized command.project_id (current_version command.project_id db + 1) event in
        execute P fresh command db ≡ (ok (stored ∷ []), with_rows (stored ∷ []) db)

  executed :
      (db : Database) (es : List EventEnvelope)
      → decide P fresh command db ≡ ok es
      → IsSingle es
      → Recorded db ⊎ ((e : Error) × (execute P fresh command db ≡ (err e, db)))
  unfolding execute
  executed db es h s =
      let event = event_of fresh command s.event_type s.payload in
      let decided : decide P fresh command db ≡ ok (event ∷ []) = rw (← s.single) h in
      elim (append_outcome command.project_id command.expected_version event [] db) [
        | inl (current, done) ↦
            inl
              (record { event = event; decided = decided; actor = refl; result = rw decided done })
        | inr failed ↦ inr (concurrency_error, rw decided failed)
      ]

  -- A command either records exactly one event, after the current version of its project, with the
  -- command's actor, and returns it, or raises and leaves the database as it was.
  pub execute_outcome :
      (db : Database) → Recorded db ⊎ ((e : Error) × (execute P fresh command db ≡ (err e, db)))
  execute_outcome db = elim (Result-cases (decide P fresh command db)) [
    | inl (es, h) ↦ executed db es h (decide-IsSingle db es h)
    | inr (e, h) ↦ inr (e, unfold execute in rw h refl)
  ]

  -- Every command, however it ends, keeps a well formed database well formed: the versions of every
  -- stream stay consecutive.
  pub execute-IsWellFormed :
      (db : Database) → IsWellFormed db → IsWellFormed (execute P fresh command db).1
  execute-IsWellFormed db w = elim (execute_outcome db) [
    | inl r ↦ rw r.result (with_rows-IsWellFormed command.project_id (r.event ∷ []) db w)
    | inr (e, failed) ↦ rw failed w
  ]

  -- A command with another `expected_version` than the project's is refused and changes nothing.
  pub execute-stale :
      (v : ℕ) (db : Database)
      → command.expected_version ≡ some v
      → v ≢ current_version command.project_id db
      → (e : Error) × (execute P fresh command db ≡ (err e, db))
  execute-stale v db expected other = elim (execute_outcome db) [
    | inl r ↦ (
      concurrency_error,
      unfold execute in
          rw r.decided (
            subst (λ x. append command.project_id x (r.event ∷ []) db ≡ (err concurrency_error, db))
              (sym expected) (append-stale command.project_id v r.event [] db other)),
    )
    | inr failed ↦ failed
  ]
