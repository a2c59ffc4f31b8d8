-- ===== src/Projector/Replay/Versions.antt =====
-- The version of a projected snapshot is the version of its stream, which writers hand back to
-- `append` as the expected one.
use twinstudio.Base.{
  ℕ, suc, ◌+◌, String, ◌≡◌, refl, sym, ap, ◌∙◌, inl, inr, Option, none, some, List, [], ◌∷◌, arith,
  length, Result, ok, err, Bool-cases, Option-cases, Result-cases, ◌>>=◌, ◌==◌,
}
use twinstudio.Domain.Envelopes.{EventEnvelope}
use twinstudio.Domain.Snapshot.{ProjectSnapshot, Pydantic}
use twinstudio.EventStore.Tables.{Database}
use twinstudio.EventStore.Events.{of_stream, current_version, load}
use twinstudio.EventStore.Events.Streams.{IsNumbered, IsWellFormed, current_version-eq-length}
use twinstudio.EventStore.Events.Loads.{load_all}
use twinstudio.Projector.Replay.{
  apply_event, created, dispatch, applied, project_step, project_loop, project_from_events,
}
use twinstudio.Projector.Replay.Folds.{project_loop_ok}

abbrev version_of : Option ProjectSnapshot → ℕ
version_of none = 0
version_of (some s) = s.stream_version

module _ (P : Pydantic) where
  apply_event-version :
      (s t : ProjectSnapshot) (e : EventEnvelope)
      → apply_event P s e ≡ ok t
      → t.stream_version ≡ e.stream_version
  unfolding apply_event
  apply_event-version s t e h = elim (Result-cases (dispatch P e s)) [
    | inl (u, done) ↦
        let k : ok (record u { stream_version = e.stream_version; updated_at = e.occurred_at })
            ≡ ok t =
          rw done at h in
        let same : record u { stream_version = e.stream_version; updated_at = e.occurred_at } ≡ t =
          cc in
        sym (ap (λ (x : ProjectSnapshot). x.stream_version) same)
    | inr (x, failed) ↦ let k = rw failed at h in cc
  ]

  created-version :
      (t : ProjectSnapshot) (e : EventEnvelope)
      → created P e ≡ ok t
      → t.stream_version ≡ e.stream_version
  unfolding created
  created-version t e h = elim (Option-cases (P.validate_snapshot e.payload)) [
    | inl failed ↦ let k = rw failed at h in cc
    | inr (s, valid) ↦
        let k : ok (record s { stream_version = e.stream_version }) ≡ ok t = rw valid at h in
        let same : record s { stream_version = e.stream_version } ≡ t = cc in
        sym (ap (λ (x : ProjectSnapshot). x.stream_version) same)
  ]

  -- a snapshot that a branch of the step wraps up
  wrapped_version :
      (r : Result ProjectSnapshot) (v : ℕ) (u : Option ProjectSnapshot)
      → ((t : ProjectSnapshot) → r ≡ ok t → t.stream_version ≡ v)
      → (r >>= λ t. ok (some t)) ≡ ok u
      → version_of u ≡ v
  wrapped_version (ok t) v u of h = let same : some t ≡ u = cc in rw (← same) (of t refl)
  wrapped_version (err x) v u of h = cc

  -- the branch of the step for an event on a snapshot
  applied_version :
      (o u : Option ProjectSnapshot) (e : EventEnvelope)
      → applied P o e ≡ ok u
      → version_of u ≡ e.stream_version
  unfolding applied
  applied_version none u e h = cc
  applied_version (some s) u e h =
      wrapped_version (apply_event P s e) e.stream_version u (λ t k. apply_event-version s t e k) h

  step_version :
      (o u : Option ProjectSnapshot) (e : EventEnvelope)
      → project_step P o e ≡ ok u
      → version_of u ≡ e.stream_version
  unfolding project_step
  step_version o u e h = elim (Bool-cases (e.event_type == "ProjectCreated")) [
    | inl creation ↦
        wrapped_version (created P e) e.stream_version u (λ t k. created-version t e k)
          (rw creation at h)
    | inr other ↦ applied_version o u e (rw other at h)
  ]

  loop_version :
      (n : ℕ) (o u : Option ProjectSnapshot) (es : List EventEnvelope)
      → IsNumbered (suc n) es
      → version_of o ≡ n
      → project_loop P o es ≡ ok u
      → version_of u ≡ n + length es
  unfolding project_loop
  loop_version n o u [] num v h = let same : o ≡ u = cc in rw (← same) (omega (arith, v))
  loop_version n o u (e ∷ es) num v h = elim (Result-cases (project_step P o e)) [
    | inl (t, done) ↦
        omega (
          arith,
          loop_version (suc n) t u es num.1 (step_version o t e done ∙ num.0) (rw done at h),
        )
    | inr (x, failed) ↦ let k = rw failed at h in cc
  ]

  -- In a well formed database the snapshot that is projected from a stream carries the current
  -- version of the stream.
  pub project-version :
      (stream : String) (db : Database) (s : ProjectSnapshot)
      → IsWellFormed db
      → project_from_events P (load stream 0 db) ≡ ok s
      → s.stream_version ≡ current_version stream db
  project-version stream db s w h =
      let rows = of_stream stream db.events in
      let replay : project_from_events P rows ≡ ok s = rw (load_all stream db w) at h in
      loop_version 0 none (some s) rows (w.numbered stream) refl (project_loop_ok P rows s replay)
      ∙ omega (arith, current_version-eq-length stream db w)
