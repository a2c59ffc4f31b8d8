-- ===== src/EventStore/Events/Fresh.antt =====
-- When `append` succeeds: the expected version is the current one, and the identifiers are new.
use twinstudio.Base.{
  ℕ, suc, ◌+◌, ◌≤◌, String, ◌≡◌, refl, ◌∙◌, false, ◌||◌, Option, List, [], ◌∷◌, ◌++◌, map, length,
  length-append, any, arith, ok, eqb, ◌==◌, eq_refl,
}
use mathlib.Core.List.{map-append, append_assoc, append-nil}
use twinstudio.Domain.Envelopes.{EventEnvelope}
use twinstudio.EventStore.Tables.{Database}
use twinstudio.EventStore.Events.{
  of_stream, clashes, current_version, insert_all, append_rows, append, is_stale, normalized,
}
use twinstudio.EventStore.Events.Streams.{
  IsNumbered, IsWellFormed, IsNumbered-append, stamp, current_version-eq-length,
}
use twinstudio.EventStore.Events.Appends.{with_rows, appended, of_stream-with_rows}

abbrev pub ids : List EventEnvelope → List String
ids = map (λ e. e.event_id)

-- No identifier of the events is among `used`, nor twice among themselves.
abbrev pub IsFresh : List EventEnvelope → List String → Type 0
IsFresh [] used = Unit
IsFresh (e ∷ es) used =
    (any (λ id. id == e.event_id) used ≡ false) × IsFresh es (used ++ e.event_id ∷ [])

-- No row of a numbered stream has a version behind its end.
no_version :
    (n v : ℕ) (xs : List EventEnvelope)
    → IsNumbered n xs
    → n + length xs ≤ v
    → any (λ r. eqb r.stream_version v) xs ≡ false
no_version n v [] h le = refl
no_version n v (x ∷ xs) h le = ground (arith, no_version (suc n) v xs h.1 (omega arith), h.0)

-- A row clashes by its identifier, or by a version of the same stream.
any-clashes :
    (e : EventEnvelope) (rows : List EventEnvelope)
    → any (clashes e) rows ≡ (
        any (λ id. id == e.event_id) (ids rows)
        || any (λ r. eqb r.stream_version e.stream_version) (of_stream e.stream_id rows))
any-clashes e [] = refl
any-clashes e (r ∷ rows) = ground (arith, any-clashes e rows)

-- the loop's own invariant: the stream is numbered up to `n`
record IsAt (stream : String) (n : ℕ) (db : Database) : Type 0 where
  numbered : IsNumbered 1 (of_stream stream db.events)
  length_eq : n ≡ length (of_stream stream db.events)

IsAt-insert :
    (stream : String) (n : ℕ) (e : EventEnvelope) (db : Database)
    → IsAt stream n db
    → IsAt stream (n + 1) (with_rows (normalized stream (n + 1) e ∷ []) db)
IsAt-insert stream n e db a =
    let xs = of_stream stream db.events in
    let split : of_stream stream (with_rows (normalized stream (n + 1) e ∷ []) db).events
        ≡ xs ++ normalized stream (n + 1) e ∷ [] =
      of_stream-with_rows stream stream n (e ∷ []) db ∙ rw (eq_refl stream) refl in
    record {
      numbered = rw split (
          IsNumbered-append 1 xs (normalized stream (n + 1) e ∷ []) a.numbered
            (omega (arith, a.length_eq), tt));
      length_eq =
          rw split
            (omega (arith, length-append xs (normalized stream (n + 1) e ∷ []), a.length_eq));
    }

insert_all-fresh :
    (stream : String) (n : ℕ) (es : List EventEnvelope) (db : Database)
    → IsAt stream n db
    → IsFresh es (ids db.events)
    → insert_all stream n es db ≡ (ok (stamp stream n es), with_rows (stamp stream n es) db)
unfolding insert_all
insert_all-fresh stream n [] db a fresh = simp append-nil
insert_all-fresh stream n (e ∷ es) db a fresh =
    let row = normalized stream (n + 1) e in
    let unused : any (λ r. eqb r.stream_version (n + 1)) (of_stream stream db.events) ≡ false =
      no_version 1 (n + 1) (of_stream stream db.events) a.numbered (omega (arith, a.length_eq)) in
    let free : any (clashes row) db.events ≡ false =
      any-clashes row db.events ∙ rw (fresh.0, unused) refl in
    let rest : insert_all stream (n + 1) es (with_rows (row ∷ []) db) ≡ (
      ok (stamp stream (n + 1) es),
      with_rows (stamp stream (n + 1) es) (with_rows (row ∷ []) db),
    ) =
      insert_all-fresh stream (n + 1) es (with_rows (row ∷ []) db) (IsAt-insert stream n e db a)
        (rw map-append fresh.1) in
    rw (free, rest) (simp append_assoc)

-- In a well formed database an `append` at the current version, or at no expected version, of events
-- whose identifiers are new and distinct succeeds: it stores and returns them after the current version.
pub append-fresh :
    (stream : String) (expected : Option ℕ) (e : EventEnvelope) (es : List EventEnvelope)
    (db : Database)
    → IsWellFormed db
    → is_stale expected (current_version stream db) ≡ false
    → IsFresh (e ∷ es) (ids db.events)
    → append stream expected (e ∷ es) db ≡ appended stream (e ∷ es) db
unfolding append append_rows
append-fresh stream expected e es db w current fresh =
    let n = current_version stream db in
    let at : IsAt stream n db = record {
      numbered = w.numbered stream;
      length_eq = current_version-eq-length stream db w;
    } in
    rw (current, insert_all-fresh stream n (e ∷ es) db at fresh) refl
