-- ===== src/Bus/Execute/Reads.antt =====
-- A query after a command sees the command's event applied to what a query before it saw.
use twinstudio.Base.{◌+◌, ◌≡◌, sym, ap, ◌∙◌, false, inl, inr, [], ◌∷◌, ◌++◌, ok, ◌==◌, eq_refl}
use twinstudio.Domain.Envelopes.{EventEnvelope, CommandEnvelope}
use twinstudio.Domain.Snapshot.{ProjectSnapshot, Pydantic}
use twinstudio.EventStore.Tables.{Database}
use twinstudio.EventStore.Events.{current_version, load, normalized}
use twinstudio.EventStore.Events.Streams.{IsWellFormed}
use twinstudio.EventStore.Events.Appends.{with_rows, with_rows-IsWellFormed, of_stream-with_rows}
use twinstudio.EventStore.Events.Loads.{load_all}
use twinstudio.Projector.Replay.{apply_event}
use twinstudio.Projector.Replay.Folds.{project_from_events-snoc}
use twinstudio.Bus.Guards.{case-IsGuarded}
use twinstudio.Bus.Execute.{Fresh, project, execute}
use twinstudio.Bus.Execute.Effects.{execute_outcome}
use twinstudio.Bus.Execute.Access.{decide-Allowed}

module _ (P : Pydantic) (fresh : Fresh) (command : CommandEnvelope) where
  -- the replay of a stream after one row was added to it
  load-with_rows :
      (event : EventEnvelope) (db : Database)
      → IsWellFormed db
      → let n = current_version command.project_id db in
        load command.project_id 0 (with_rows (normalized command.project_id (n + 1) event ∷ []) db)
        ≡ load command.project_id 0 db ++ normalized command.project_id (n + 1) event ∷ []
  load-with_rows event db w =
      let id = command.project_id in
      let n = current_version id db in
      let row = normalized id (n + 1) event in
      load_all id (with_rows (row ∷ []) db) (with_rows-IsWellFormed id (event ∷ []) db w)
      ∙ of_stream-with_rows id id n (event ∷ []) db
      ∙ rw (eq_refl id) (ap (λ rows. rows ++ row ∷ []) (sym (load_all id db w)))

  -- In a well formed database, of a command other than `project.create` on a project that can be
  -- read: if it succeeds and returns `stored`, what a query shows afterwards is that event applied
  -- to what it showed before.
  pub project-execute :
      (db : Database) (s : ProjectSnapshot) (stored : EventEnvelope)
      → IsWellFormed db
      → (command.command_type == "project.create") ≡ false
      → project P command.project_id db ≡ ok s
      → (execute P fresh command db).0 ≡ ok (stored ∷ [])
      → project P command.project_id (execute P fresh command db).1 ≡ apply_event P s stored
  project-execute db s stored w other found h = elim (execute_outcome P fresh command db) [
    | inl r ↦
        let id = command.project_id in
        let row = normalized id (current_version id db + 1) r.event in
        let a = decide-Allowed P fresh command db r.event other r.decided in
        let g = case-IsGuarded P command.command_type a.case a.in_table in
        let (_, event_type) = g.needs.of command a.snapshot a.decision a.decided in
        let no_creation : (row.event_type == "ProjectCreated") ≡ false =
          ap (λ t. t == "ProjectCreated") (a.event_type ∙ event_type) ∙ g.not_creation in
        let same : stored ≡ row = cc (r.result) in
        let replay : project P id (with_rows (row ∷ []) db) ≡ apply_event P s row =
          unfold project in
          rw (load-with_rows r.event db w)
            (project_from_events-snoc P (load id 0 db) row s no_creation found) in
        rw (r.result, same) replay
    | inr (e, failed) ↦ cc
  ]
