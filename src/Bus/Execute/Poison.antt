-- ===== src/Bus/Execute/Poison.antt =====
-- A `change.apply` without a new revision is recorded, and its project cannot be read any more.
use twinstudio.Base.{
  ◌+◌, ◌≡◌, refl, ap, ◌∙◌, false, inl, inr, Option, none, some, [], ◌∷◌, ok, err, Error, key_error,
  Result-cases, ◌==◌,
}
use twinstudio.Base.Text.{lower}
use twinstudio.Base.Dict.{Dict, get, put, get-put}
use twinstudio.Base.Json.{Json, item}
use twinstudio.Domain.Roles.{Role}
use twinstudio.Domain.Envelopes.{EventEnvelope, CommandEnvelope}
use twinstudio.Domain.Snapshot.{ProjectSnapshot, Pydantic}
use twinstudio.Permissions.{require_permission}
use twinstudio.EventStore.Tables.{Database}
use twinstudio.EventStore.Events.{current_version, normalized}
use twinstudio.EventStore.Events.Streams.{IsWellFormed}
use twinstudio.Projector.Changes.{change_applied}
use twinstudio.Projector.Replay.{apply_event, dispatch, handlers}
use twinstudio.Bus.Cases.{passes}
use twinstudio.Bus.Table.{cases}
use twinstudio.Bus.Execute.{
  Fresh, authority, event_of, project, prepare, authorized, with_authority, handle_existing, decide,
  execute,
}
use twinstudio.Bus.Execute.Effects.{execute_outcome}
use twinstudio.Bus.Execute.Reads.{project-execute}

-- the command, as one that applies a change
abbrev pub as_change : CommandEnvelope → CommandEnvelope
as_change command = record command { command_type = "change.apply" }

module _ (P : Pydantic) where
  -- A change without a new revision cannot be applied.
  apply_unrevised :
      (s : ProjectSnapshot) (e : EventEnvelope)
      → get e.event_type (handlers P) ≡ some (change_applied P)
      → get "new_revision" e.payload ≡ none
      → apply_event P s e ≡ err (key_error "new_revision")
  unfolding apply_event dispatch change_applied
  apply_unrevised s e handler missing = rw (handler, dispatch) (rw missing refl)

module _ (P : Pydantic) (fresh : Fresh) (command : CommandEnvelope) where
  change_handler : get "ChangeApplied" (handlers P) ≡ some (change_applied P)
  unfolding handlers
  change_handler = refl

  -- the event of a change: its type, and the payload with the receipt
  receipt_keeps :
      (role : Option Role) (payload out : Dict Json)
      → with_authority P fresh (as_change command) role payload ≡ ok out
      → get "new_revision" out ≡ get "new_revision" payload
  unfolding with_authority
  receipt_keeps none payload out h = cc
  receipt_keeps (some role) payload out h = elim (Result-cases (item "plan_id" command.payload)) [
    | inl (raw, found) ↦
        let receipt = authority P fresh (as_change command) role (P.to_text raw) in
        let k : ok (put "authority" receipt payload) ≡ ok out = rw found at h in
        let same : put "authority" receipt payload ≡ out = cc in
        rw (← same) (get-put "authority" "new_revision" receipt payload)
    | inr (e, missing) ↦ let k = rw missing at h in cc
  ]

  -- the event that a change is recorded as, after the permission was found
  recorded_change :
      (role : Option Role) (event : EventEnvelope)
      → authorized P fresh (as_change command) role (record {
        permission = "change.apply";
        event_type = "ChangeApplied";
        payload = command.payload;
      })
        ≡ ok (event ∷ [])
      → (event.event_type ≡ "ChangeApplied")
        × (get "new_revision" event.payload ≡ get "new_revision" command.payload)
  unfolding authorized
  recorded_change role event h = elim (Result-cases (require_permission role "change.apply")) [
    | inl (u, granted) ↦
        let h1 = rw granted at h in
        elim (Result-cases (with_authority P fresh (as_change command) role command.payload)) [
          | inl (out, made) ↦
              let k : ok (event_of fresh (as_change command) "ChangeApplied" out ∷ [])
                  ≡ ok (event ∷ []) =
                rw made at h1 in
              let same : event_of fresh (as_change command) "ChangeApplied" out ≡ event = cc in
              rw (← same) (refl, receipt_keeps role command.payload out made)
          | inr (e, missing) ↦ let k = rw missing at h1 in cc
        ]
    | inr (e, denied) ↦ let k = rw denied at h in cc
  ]

  change_event :
      (db : Database) (s : ProjectSnapshot) (event : EventEnvelope)
      → project P command.project_id db ≡ ok s
      → decide P fresh (as_change command) db ≡ ok (event ∷ [])
      → (event.event_type ≡ "ChangeApplied")
        × (get "new_revision" event.payload ≡ get "new_revision" command.payload)
  unfolding decide handle_existing prepare cases passes
  change_event db s event found h =
      let h1 : authorized P fresh (as_change command) (get (lower command.actor) s.memberships)
            (record {
              permission = "change.apply";
              event_type = "ChangeApplied";
              payload = command.payload;
            })
          ≡ ok (event ∷ []) =
        rw found at h in
      recorded_change (get (lower command.actor) s.memberships) event h1

  -- what the stored event of such a change says
  stored_change :
      (db : Database) (s : ProjectSnapshot) (stored : EventEnvelope)
      → project P command.project_id db ≡ ok s
      → get "new_revision" command.payload ≡ none
      → (execute P fresh (as_change command) db).0 ≡ ok (stored ∷ [])
      → (stored.event_type ≡ "ChangeApplied") × (get "new_revision" stored.payload ≡ none)
  stored_change db s stored found missing h =
      elim (execute_outcome P fresh (as_change command) db) [
        | inl r ↦
            let row =
              normalized command.project_id (current_version command.project_id db + 1) r.event in
            let same : stored ≡ row = cc (r.result) in
            let (type, payload) = change_event db s r.event found r.decided in
            rw same (type, payload ∙ missing)
        | inr (e, failed) ↦ cc
      ]

  unreadable :
      (db : Database) (s : ProjectSnapshot) (stored : EventEnvelope)
      → IsWellFormed db
      → project P command.project_id db ≡ ok s
      → get "new_revision" command.payload ≡ none
      → (execute P fresh (as_change command) db).0 ≡ ok (stored ∷ [])
      → project P command.project_id (execute P fresh (as_change command) db).1
        ≡ err (key_error "new_revision")
  unreadable db s stored w found missing h =
      let (type, gone) = stored_change db s stored found missing h in
      let handler : get stored.event_type (handlers P) ≡ some (change_applied P) =
        rw type change_handler in
      project-execute P fresh (as_change command) db s stored w refl found h
      ∙ apply_unrevised P s stored handler gone

  -- a command on a project that cannot be read
  unread :
      (next : Fresh) (later : CommandEnvelope) (db : Database) (e : Error)
      → (later.command_type == "project.create") ≡ false
      → project P later.project_id db ≡ err e
      → execute P next later db ≡ (err e, db)
  unfolding execute decide handle_existing
  unread next later db e other broken = rw other (rw broken refl)

  -- In a well formed database, if a `change.apply` on a project that can be read succeeds although
  -- its payload has no `new_revision`, then a query of the project right after it, and any command
  -- on the project but `project.create`, fails with the missing key, and such a command changes
  -- nothing.
  pub change_without_revision :
      (db : Database) (s : ProjectSnapshot) (stored : EventEnvelope) (later : CommandEnvelope)
      (next : Fresh)
      → IsWellFormed db
      → project P command.project_id db ≡ ok s
      → get "new_revision" command.payload ≡ none
      → (execute P fresh (as_change command) db).0 ≡ ok (stored ∷ [])
      → later.project_id ≡ command.project_id
      → (later.command_type == "project.create") ≡ false
      → let after = (execute P fresh (as_change command) db).1 in
        (project P command.project_id after ≡ err (key_error "new_revision"))
        × (execute P next later after ≡ (err (key_error "new_revision"), after))
  change_without_revision db s stored later next w found missing h same other =
      let after = (execute P fresh (as_change command) db).1 in
      let broken = unreadable db s stored w found missing h in
      (
        broken,
        unread next later after (key_error "new_revision") other
            (ap (λ id. project P id after) same ∙ broken),
      )
