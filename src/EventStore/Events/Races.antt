-- ===== src/EventStore/Events/Races.antt =====
-- Optimistic concurrency: of two writers that expect the same version, one is refused.
use twinstudio.Base.{
  ℕ, suc, ◌+◌, String, ◌≡◌, ◌≢◌, refl, inl, inr, Option, some, List, [], ◌∷◌, length, length-append,
  eq_refl, ◌∙◌, ap, arith, ok, err, concurrency_error, ◌++◌,
}
use twinstudio.Domain.Envelopes.{EventEnvelope}
use twinstudio.EventStore.Tables.{Database}
use twinstudio.EventStore.Events.{of_stream, current_version, append}
use twinstudio.EventStore.Events.Streams.{IsWellFormed, stamp, current_version-eq-length}
use twinstudio.EventStore.Events.Appends.{
  append_outcome, appended, with_rows, with_rows-IsWellFormed, of_stream-with_rows,
}

-- An `append` that expects another version than the current one is refused and changes nothing.
pub append-stale :
    (stream : String) (v : ℕ) (e : EventEnvelope) (es : List EventEnvelope) (db : Database)
    → v ≢ current_version stream db
    → append stream (some v) (e ∷ es) db ≡ (err concurrency_error, db)
append-stale stream v e es db h = elim (append_outcome stream (some v) e es db) [
  | inl (current, done) ↦ absurd (h (ground arith))
  | inr failed ↦ failed
]

length-stamp :
    (stream : String) (n : ℕ) (es : List EventEnvelope) → length (stamp stream n es) ≡ length es
length-stamp stream n [] = refl
length-stamp stream n (e ∷ es) = ap suc (length-stamp stream (n + 1) es)

-- A successful `append` moves the version of its stream on by the number of its events.
pub current_version-append :
    (stream : String) (expected : Option ℕ) (e : EventEnvelope) (es : List EventEnvelope)
    (db : Database)
    → IsWellFormed db
    → append stream expected (e ∷ es) db ≡ appended stream (e ∷ es) db
    → current_version stream (append stream expected (e ∷ es) db).1
      ≡ current_version stream db + suc (length es)
current_version-append stream expected e es db w done =
    let n = current_version stream db in
    let rows = stamp stream n (e ∷ es) in
    let xs = of_stream stream db.events in
    let kept : IsWellFormed (with_rows rows db) = with_rows-IsWellFormed stream (e ∷ es) db w in
    let split : of_stream stream (with_rows rows db).events ≡ xs ++ rows =
      of_stream-with_rows stream stream n (e ∷ es) db ∙ rw (eq_refl stream) refl in
    rw done (
      current_version-eq-length stream (with_rows rows db) kept
      ∙ ap length split
      ∙ omega (
        arith,
        length-append xs rows,
        length-stamp stream n (e ∷ es),
        current_version-eq-length stream db w,
      ))

-- In a well formed database two writers expect the same version of a stream. Once the append of one
-- has succeeded, that of the other raises `ConcurrencyError` and changes nothing: no two writers
-- both extend one version.
pub append_race :
    (stream : String) (v : ℕ) (e f : EventEnvelope) (es fs rows : List EventEnvelope)
    (db : Database)
    → IsWellFormed db
    → (append stream (some v) (e ∷ es) db).0 ≡ ok rows
    → let after = (append stream (some v) (e ∷ es) db).1 in
      append stream (some v) (f ∷ fs) after ≡ (err concurrency_error, after)
append_race stream v e f es fs rows db w h = elim (append_outcome stream (some v) e es db) [
  | inl (current, done) ↦
      append-stale stream v f fs (append stream (some v) (e ∷ es) db).1
        (λ same. absurd (ground (arith, current_version-append stream (some v) e es db w done)))
  | inr failed ↦ cc
]
