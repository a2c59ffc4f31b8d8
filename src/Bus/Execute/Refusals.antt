-- ===== src/Bus/Execute/Refusals.antt =====
-- Readers and strangers write nothing, and editors take no approver's decision.
use twinstudio.Base.{
  String, ◌≡◌, ◌⊎◌, refl, sym, eq_iff, Bool-cases, Bool, true, false, ◌&&◌, inl, inr, none, some,
  arith, ok, err, Error, ◌==◌,
}
use mathlib.Core.Path.{subst}
use twinstudio.Domain.Roles.{reader, editor}
use twinstudio.Domain.Envelopes.{CommandEnvelope}
use twinstudio.Domain.Snapshot.{ProjectSnapshot, Pydantic}
use twinstudio.Permissions.{has_permission}
use twinstudio.EventStore.Tables.{Database}
use twinstudio.Bus.Cases.{Case}
use twinstudio.Bus.Guards.{IsGuarded, case-IsGuarded, approver_commands, is_in}
use twinstudio.Bus.Execute.{Fresh, project, execute}
use twinstudio.Bus.Execute.Effects.{execute_outcome}
use twinstudio.Bus.Execute.Access.{role_in, decide-Allowed}

and_false : (a b : Bool) → a ≡ true → (a && b) ≡ false → b ≡ false
and_false a b h k = ground arith

approver_not_creation :
    (t : String) → is_in t approver_commands ≡ true → (t == "project.create") ≡ false
approver_not_creation t h = elim (Bool-cases (t == "project.create")) [
  | inl same ↦
      let k : is_in "project.create" approver_commands ≡ true =
        subst (λ x. is_in x approver_commands ≡ true) ((eq_iff t "project.create").0 same) h in
      cc
  | inr other ↦ other
]

module _ (P : Pydantic) (fresh : Fresh) (command : CommandEnvelope) where
  -- A role that lacks every permission that the command can need is refused.
  refused :
      (db : Database) (s : ProjectSnapshot)
      → (command.command_type == "project.create") ≡ false
      → project P command.project_id db ≡ ok s
      → ((case : Case)
          → (g : IsGuarded P command.command_type case)
          → has_permission (role_in P fresh command s) g.permission ≡ false)
      → (e : Error) × (execute P fresh command db ≡ (err e, db))
  refused db s other found denied = elim (execute_outcome P fresh command db) [
    | inl r ↦
        let a = decide-Allowed P fresh command db r.event other r.decided in
        let same : a.snapshot ≡ s = cc (a.projected, found) in
        let g = case-IsGuarded P command.command_type a.case a.in_table in
        let (permission, _) = g.needs.of command a.snapshot a.decision a.decided in
        let no_permission : has_permission (role_in P fresh command s) g.permission ≡ false =
          denied a.case g in
        cc (a.allowed, permission, same, no_permission)
    | inr failed ↦ failed
  ]

  -- A command other than `project.create`, on a project that can be read, by someone who is no
  -- member of it or only a reader raises and changes nothing, whatever the command.
  pub reader_refused :
      (db : Database) (s : ProjectSnapshot)
      → (command.command_type == "project.create") ≡ false
      → project P command.project_id db ≡ ok s
      → (role_in P fresh command s ≡ none) ⊎ (role_in P fresh command s ≡ some reader)
      → (e : Error) × (execute P fresh command db ≡ (err e, db))
  reader_refused db s other found (inl stranger) = refused db s other found λ case g.
      subst (λ role. has_permission role g.permission ≡ false) (sym stranger)
        (unfold has_permission in refl)
  reader_refused db s other found (inr reading) =
      refused db s other found
        λ case g. subst (λ role. has_permission role g.permission ≡ false) (sym reading) g.no_reader

  -- On a project that can be read, an editor's command to grant an approval, to accept or reject a
  -- candidate, to set or move the lifecycle stage, or to grant or revoke a membership raises and
  -- changes nothing.
  pub editor_refused :
      (db : Database) (s : ProjectSnapshot)
      → is_in command.command_type approver_commands ≡ true
      → project P command.project_id db ≡ ok s
      → role_in P fresh command s ≡ some editor
      → (e : Error) × (execute P fresh command db ≡ (err e, db))
  editor_refused db s approver found editing =
      refused db s (approver_not_creation command.command_type approver) found λ case g.
        subst (λ role. has_permission role g.permission ≡ false) (sym editing)
          (and_false (is_in command.command_type approver_commands)
            (has_permission (some editor) g.permission) approver g.approver)
