-- ===== src/Examples/Commands.antt =====
-- The theorems on commands and permissions, applied.
use twinstudio.Base.{
  ◌≡◌, ◌⊎◌, refl, inr, not, none, some, [], ◌∷◌, err, Error, key_error, arith, true,
}
use twinstudio.Base.Json.{str}
use twinstudio.Domain.Roles.{editor, admin, creator}
use twinstudio.Domain.Envelopes.{CommandEnvelope}
use twinstudio.Base.Text.{lower}
use twinstudio.Domain.Stages.{of_value}
use twinstudio.Permissions.{has_permission, require_permission}
use twinstudio.Permissions.Laws.{has_permission_mono}
use twinstudio.Projector.Replay.{apply_event, project_from_events}
use twinstudio.EventStore.Events.{normalized, load, append}
use twinstudio.EventStore.Events.Streams.{IsWellFormed}
use twinstudio.Bus.Cases.{passes, sets_stage}
use twinstudio.Bus.Table.{cases}
use twinstudio.Bus.Guards.{is_in, unprojected_commands}
use twinstudio.Bus.Execute.{project, execute, event_of, authority}
use twinstudio.Bus.Execute.Effects.{Recorded, execute_outcome, execute-IsWellFormed}
use twinstudio.Bus.Execute.Reads.{project-execute}
use twinstudio.Bus.Execute.Refusals.{reader_refused, editor_refused}
use twinstudio.Bus.Execute.Coverage.{is_known, command_events_known}
use twinstudio.Bus.Execute.Poison.{as_change, change_without_revision}
use twinstudio.Examples.{database, strict, fresh, later, command, staging, lamp}
use twinstudio.Examples.Streams.{database-IsWellFormed}

execute_outcome_example :
    Recorded strict fresh staging database
    ⊎ ((e : Error) × (execute strict fresh staging database ≡ (err e, database)))
execute_outcome_example = execute_outcome strict fresh staging database

execute-IsWellFormed_example : IsWellFormed (execute strict fresh staging database).1
execute-IsWellFormed_example =
    execute-IsWellFormed strict fresh staging database database-IsWellFormed

project-execute_example :
    project strict "lamp" (execute strict fresh staging database).1
    ≡ apply_event strict
        (record lamp { stream_version = 1 })
        (normalized "lamp" 2
          (event_of fresh staging "LifecycleStageChanged" (("stage", str "prototype") ∷ [])))
unfolding execute project project_from_events load cases sets_stage of_value require_permission
    append
project-execute_example =
    project-execute strict fresh staging database (record lamp { stream_version = 1 })
      (normalized "lamp" 2
        (event_of fresh staging "LifecycleStageChanged" (("stage", str "prototype") ∷ [])))
      database-IsWellFormed refl refl refl

abbrev by_reader : CommandEnvelope
by_reader = record staging { actor = "bob@example.org" }

reader_refused_example : (e : Error) × (execute strict fresh by_reader database ≡ (err e, database))
unfolding project project_from_events load lower
reader_refused_example =
    reader_refused strict fresh by_reader database (record lamp { stream_version = 1 }) refl refl
      (inr refl)

abbrev by_editor : CommandEnvelope
by_editor = record staging { actor = "eve@example.org" }

editor_refused_example : (e : Error) × (execute strict fresh by_editor database ≡ (err e, database))
unfolding project project_from_events load lower
editor_refused_example =
    editor_refused strict fresh by_editor database (record lamp { stream_version = 1 }) refl refl
      refl

has_permission_mono_example : has_permission (some admin) "change.apply" ≡ true
unfolding has_permission
has_permission_mono_example = has_permission_mono editor admin "change.apply" (omega arith) refl

abbrev analysing : CommandEnvelope
analysing = command "svg.analysis.record" "ann@example.org" none []

command_events_known_example :
    is_known strict "SvgAnalyzed" ≡ not (is_in "svg.analysis.record" unprojected_commands)
unfolding execute project project_from_events load cases passes require_permission append
command_events_known_example =
    command_events_known strict fresh analysing database
      (normalized "lamp" 2 (event_of fresh analysing "SvgAnalyzed" [])) refl

abbrev changing : CommandEnvelope
changing = command "change.apply" "ann@example.org" (some 1) (("plan_id", str "plan") ∷ [])

change_without_revision_example :
    let after = (execute strict fresh (as_change changing) database).1 in
    (project strict "lamp" after ≡ err (key_error "new_revision"))
    × (execute strict later staging after ≡ (err (key_error "new_revision"), after))
unfolding execute project project_from_events load cases passes require_permission append
change_without_revision_example =
    change_without_revision strict fresh changing database (record lamp { stream_version = 1 })
      (normalized "lamp" 2 (
        event_of fresh (as_change changing) "ChangeApplied" (
          ("plan_id", str "plan")
          ∷ ("authority", authority strict fresh (as_change changing) creator "plan")
          ∷ [])))
      staging later database-IsWellFormed refl refl refl refl refl
