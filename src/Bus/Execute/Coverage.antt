-- ===== src/Bus/Execute/Coverage.antt =====
-- Which recorded events the projection knows.
use twinstudio.Base.{
  String, ◌≡◌, refl, ap, ◌∙◌, Bool, false, not, ◌||◌, inl, inr, [], ◌∷◌, ◌+◌, Bool-cases, ok, eqb,
  ◌==◌, eq_iff,
}
use twinstudio.Domain.Envelopes.{EventEnvelope, CommandEnvelope}
use twinstudio.Domain.Snapshot.{Pydantic}
use twinstudio.EventStore.Tables.{Database}
use twinstudio.EventStore.Events.{current_version, normalized}
use twinstudio.Projector.Replay.{audit_only}
use twinstudio.Bus.Guards.{case-IsGuarded, has_handler, is_in, unprojected_commands}
use twinstudio.Bus.Execute.{Fresh, snapshot_dump, with_defaults, create_project, decide, execute}
use twinstudio.Bus.Execute.Effects.{execute_outcome}
use twinstudio.Bus.Execute.Access.{single_type, decide-Allowed}

-- The projection makes a snapshot of an event of this type, or has a handler for it, or lists it as an audit
-- record.
abbrev pub is_known : Pydantic → String → Bool
is_known P t = t == "ProjectCreated" || has_handler P t || is_in t audit_only

module _ (P : Pydantic) (fresh : Fresh) (command : CommandEnvelope) where
  create_project_type :
      (db : Database) (event : EventEnvelope)
      → create_project P fresh command db ≡ ok (event ∷ [])
      → event.event_type ≡ "ProjectCreated"
  unfolding create_project
  create_project_type db event h =
      elim (Bool-cases (eqb (current_version command.project_id db) 0)) [
        | inl new ↦
            single_type P fresh command "ProjectCreated" event
              (snapshot_dump P (with_defaults P command)) (rw new at h)
        | inr taken ↦ let k = rw taken at h in cc
      ]

  created_known :
      (db : Database) (event : EventEnvelope)
      → command.command_type ≡ "project.create"
      → decide P fresh command db ≡ ok (event ∷ [])
      → is_known P event.event_type ≡ not (is_in command.command_type unprojected_commands)
  unfolding decide
  created_known db event create h =
      let h1 : create_project P fresh command db ≡ ok (event ∷ []) =
        rw ((eq_iff command.command_type "project.create").1 create) at h in
      rw (create, create_project_type db event h1) refl

  handled_known :
      (db : Database) (event : EventEnvelope)
      → (command.command_type == "project.create") ≡ false
      → decide P fresh command db ≡ ok (event ∷ [])
      → is_known P event.event_type ≡ not (is_in command.command_type unprojected_commands)
  handled_known db event other h =
      let a = decide-Allowed P fresh command db event other h in
      let g = case-IsGuarded P command.command_type a.case a.in_table in
      let (_, event_type) = g.needs.of command a.snapshot a.decision a.decided in
      ap (is_known P) (a.event_type ∙ event_type) ∙ rw g.not_creation g.projected

  -- When a command succeeds, whichever it is, `project.create` included, the projection makes a snapshot of
  -- its event (that of `project.create`), or has a handler for it, or lists it as an audit record, except exactly
  -- for the four `eda.*.analysis.record` commands and `svg.analysis.record`, whose events it counts as unhandled.
  pub command_events_known :
      (db : Database) (stored : EventEnvelope)
      → (execute P fresh command db).0 ≡ ok (stored ∷ [])
      → is_known P stored.event_type ≡ not (is_in command.command_type unprojected_commands)
  command_events_known db stored h = elim (execute_outcome P fresh command db) [
    | inl r ↦
        let row =
          normalized command.project_id (current_version command.project_id db + 1) r.event in
        let same : stored ≡ row = cc (r.result) in
        let known : is_known P r.event.event_type
            ≡ not (is_in command.command_type unprojected_commands) =
          elim (Bool-cases (command.command_type == "project.create")) [
            | inl create ↦
                created_known db r.event ((eq_iff command.command_type "project.create").0 create)
                  r.decided
            | inr other ↦ handled_known db r.event other r.decided
          ] in
        rw same known
    | inr (e, failed) ↦ cc
  ]
