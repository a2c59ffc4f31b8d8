-- ===== src/Projector/Replay/Folds.antt =====
-- The projection is a left fold over the stream.
use twinstudio.Base.{
  ◌≡◌, refl, ap, false, inl, inr, Option, none, some, List, [], ◌∷◌, ◌++◌, ok, ◌>>=◌,
  project_not_found, or_raise, Result-cases, ◌==◌,
}
use twinstudio.Domain.Envelopes.{EventEnvelope}
use twinstudio.Domain.Snapshot.{ProjectSnapshot, Pydantic}
use twinstudio.Projector.Replay.{apply_event, project_step, project_loop, project_from_events}

module _ (P : Pydantic) where
  project_loop-append :
      (s : Option ProjectSnapshot) (xs ys : List EventEnvelope)
      → project_loop P s (xs ++ ys) ≡ (project_loop P s xs >>= λ t. project_loop P t ys)
  unfolding project_loop
  project_loop-append s [] ys = refl
  project_loop-append s (x ∷ xs) ys = elim (Result-cases (project_step P s x)) [
    | inl (t, h) ↦ rw h (project_loop-append t xs ys)
    | inr (e, h) ↦ rw h refl
  ]

  pub project_loop_ok :
      (es : List EventEnvelope) (s : ProjectSnapshot)
      → project_from_events P es ≡ ok s
      → project_loop P none es ≡ ok (some s)
  unfolding project_from_events
  project_loop_ok es s h = elim (Result-cases (project_loop P none es)) [
    | inl (some t, found) ↦ let k = rw found at h in rw found (ap (λ u. ok (some u)) (cc))
    | inl (none, found) ↦ let k = rw found at h in cc
    | inr (e, found) ↦ let k = rw found at h in cc
  ]

  -- one event after a snapshot, as the last step of the loop
  last_step :
      (s : ProjectSnapshot) (e : EventEnvelope)
      → (e.event_type == "ProjectCreated") ≡ false
      → ((project_loop P (some s) (e ∷ [])) >>= λ t.
          or_raise t (project_not_found "Project stream is empty"))
        ≡ apply_event P s e
  unfolding project_loop project_step
  last_step s e other = elim (Result-cases (apply_event P s e)) [
    | inl (t, h) ↦ rw (other, h) refl
    | inr (x, h) ↦ rw (other, h) refl
  ]

  -- Where a stream can be projected, projecting it with one more event, other than
  -- `ProjectCreated`, is applying the event to the projection of the stream.
  pub project_from_events-snoc :
      (es : List EventEnvelope) (e : EventEnvelope) (s : ProjectSnapshot)
      → (e.event_type == "ProjectCreated") ≡ false
      → project_from_events P es ≡ ok s
      → project_from_events P (es ++ e ∷ []) ≡ apply_event P s e
  unfolding project_from_events
  project_from_events-snoc es e s other h =
      rw (project_loop-append none es (e ∷ []), project_loop_ok es s h) (last_step s e other)
