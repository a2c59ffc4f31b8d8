-- ===== src/EventStore/Events/Appends.antt =====
-- What `append` does: it stores exactly the given events after the current version, or raises
-- `ConcurrencyError` and leaves the database alone.
use twinstudio.Base.{
  sym, ◌∙◌, ℕ, suc, ◌+◌, String, ◌≡◌, refl, ap, Bool, true, false, ◌⊎◌, inl, inr, Option, List, [],
  ◌∷◌, ◌++◌, length, any, arith, Bool-cases, Result, ok, err, integrity_error, concurrency_error,
  eq_iff, ◌==◌, if◌then◌else◌, select-append,
}
use mathlib.Core.List.{append-nil, append_assoc}
use twinstudio.Domain.Envelopes.{EventEnvelope}
use twinstudio.EventStore.Tables.{Database}
use twinstudio.EventStore.Events.{
  in_stream, of_stream, current_version, clashes, normalized, insert_all, is_stale, append_rows,
  append,
}
use twinstudio.EventStore.Events.Streams.{
  IsNumbered, IsWellFormed, stamp, IsNumbered-append, IsNumbered-stamp, current_version-eq-length,
  of_stream-stamp_self, of_stream-stamp_ne,
}

-- the database after `rows` were inserted
abbrev pub with_rows : List EventEnvelope → Database → Database
with_rows rows db = record db { events = db.events ++ rows }

-- What the insertion loop does, by how it ends.
data Inserts (stream : String) (n : ℕ) (es : List EventEnvelope) (db : Database) : Type 0 where
  stored :
      insert_all stream n es db ≡ (ok (stamp stream n es), with_rows (stamp stream n es) db)
      → Inserts stream n es db
  refused : (insert_all stream n es db).0 ≡ err integrity_error → Inserts stream n es db

inserts :
    (stream : String) (n : ℕ) (es : List EventEnvelope) (db : Database) → Inserts stream n es db
unfolding insert_all
inserts stream n [] db = stored (simp append-nil)
inserts stream n (e ∷ es) db =
    elim (Bool-cases (any (clashes (normalized stream (n + 1) e)) db.events)) [
      | inl clash ↦ refused (rw clash)
      | inr fresh ↦
          elim (inserts stream (n + 1) es (with_rows (normalized stream (n + 1) e ∷ []) db)) [
            | stored h ↦ stored (rw (fresh, h) (simp append_assoc))
            | refused h ↦ refused (rw fresh (rw h refl))
          ]
    ]

-- the result and the database of an `append` that stores the events
abbrev pub appended :
    String → List EventEnvelope → Database → Result (List EventEnvelope) × Database
appended stream new db =
    let rows = stamp stream (current_version stream db) new in (ok rows, with_rows rows db)

settled :
    (stream : String) (expected : Option ℕ) (e : EventEnvelope) (es : List EventEnvelope)
    (db : Database)
    → is_stale expected (current_version stream db) ≡ false
    → Inserts stream (current_version stream db) (e ∷ es) db
    → (append stream expected (e ∷ es) db ≡ appended stream (e ∷ es) db)
      ⊎ (append stream expected (e ∷ es) db ≡ (err concurrency_error, db))
unfolding append append_rows
settled stream expected e es db current (stored h) = inl (rw (current, h) refl)
settled stream expected e es db current (refused h) = inr (rw (current, h) refl)

-- An `append` of at least one event either finds the expected version, stores exactly the given
-- events after it and returns them as stored, or raises `ConcurrencyError` and changes nothing.
pub append_outcome :
    (stream : String) (expected : Option ℕ) (e : EventEnvelope) (es : List EventEnvelope)
    (db : Database)
    → ((is_stale expected (current_version stream db) ≡ false)
        × (append stream expected (e ∷ es) db ≡ appended stream (e ∷ es) db))
      ⊎ (append stream expected (e ∷ es) db ≡ (err concurrency_error, db))
append_outcome stream expected e es db =
    elim (Bool-cases (is_stale expected (current_version stream db))) [
      | inl stale ↦ inr (unfold append append_rows in rw stale refl)
      | inr current ↦
          elim (settled stream expected e es db current
            (inserts stream (current_version stream db) (e ∷ es) db)) [
              | inl h ↦ inl (current, h)
              | inr h ↦ inr h
            ]
    ]

-- Rows appended to one stream extend that stream and no other.
pub of_stream-with_rows :
    (stream other : String) (n : ℕ) (es : List EventEnvelope) (db : Database)
    → of_stream other (with_rows (stamp stream n es) db).events
      ≡ of_stream other db.events ++ (if stream == other then stamp stream n es else [])
of_stream-with_rows stream other n es db = elim (Bool-cases (stream == other)) [
  | inl same ↦ rw same (
      rw (sym ((eq_iff stream other).0 same)) (
        select-append (in_stream stream) db.events (stamp stream n es)
        ∙ ap (λ rows. of_stream stream db.events ++ rows) (of_stream-stamp_self stream n es)))
  | inr apart ↦ rw apart (
      select-append (in_stream other) db.events (stamp stream n es)
      ∙ ap (λ rows. of_stream other db.events ++ rows) (of_stream-stamp_ne stream other n es apart))
]

extend-IsNumbered :
    (same : Bool) (stream : String) (n : ℕ) (es xs : List EventEnvelope)
    → IsNumbered 1 xs
    → (same ≡ true → n ≡ length xs)
    → IsNumbered 1 (xs ++ (if same then stamp stream n es else []))
extend-IsNumbered true stream n es xs h at =
    let p : 1 + length xs ≡ suc n = omega (arith, at refl) in
    IsNumbered-append 1 xs (stamp stream n es) h (rw p (IsNumbered-stamp stream n es))
extend-IsNumbered false stream n es xs h at = rw append-nil h

pub with_rows-IsWellFormed :
    (stream : String) (es : List EventEnvelope) (db : Database)
    → IsWellFormed db
    → IsWellFormed (with_rows (stamp stream (current_version stream db) es) db)
with_rows-IsWellFormed stream es db w = record {
  numbered = λ other.
      let n = current_version stream db in
      rw (of_stream-with_rows stream other n es db) (
        extend-IsNumbered (stream == other) stream n es (of_stream other db.events)
          (w.numbered other)
          (λ same.
            rw (sym ((eq_iff stream other).0 same)) (current_version-eq-length stream db w)));
}

-- In a well formed database, whatever `append` is called with, and however it ends, the versions of
-- every stream stay 1, 2, 3, ...
pub append-IsWellFormed :
    (stream : String) (expected : Option ℕ) (new : List EventEnvelope) (db : Database)
    → IsWellFormed db
    → IsWellFormed (append stream expected new db).1
append-IsWellFormed stream expected [] db w = unfold append in w
append-IsWellFormed stream expected (e ∷ es) db w = elim (append_outcome stream expected e es db) [
  | inl (current, h) ↦ rw h (with_rows-IsWellFormed stream (e ∷ es) db w)
  | inr h ↦ rw h w
]
