-- ===== src/Examples/Projections.antt =====
-- The theorems on projections, applied.
use twinstudio.Base.{◌≡◌, refl}
use twinstudio.EventStore.Events.{current_version, load}
use twinstudio.Projector.Replay.{project_from_events}
use twinstudio.Projector.Replay.Versions.{project-version}
use twinstudio.Examples.{database, strict, lamp}
use twinstudio.Examples.Streams.{database-IsWellFormed}

project-version_example : 1 ≡ current_version "lamp" database
unfolding project_from_events load
project-version_example =
    project-version strict "lamp" database (record lamp { stream_version = 1 })
      database-IsWellFormed refl
