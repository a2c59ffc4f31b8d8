-- ===== src/EventStore/Events.antt =====
-- The event streams of `EventStore` (src/twinstudio/event_store.py). A row of `events` is the envelope
-- that was inserted; the database checks the primary key and `uq_stream_version`.
pub mod Streams
pub mod Appends
pub mod Loads
pub mod Races
pub mod Fresh
use twinstudio.Base.{
  ℕ, ◌+◌, String, Bool, true, false, not, ◌&&◌, ◌||◌, Option, none, some, List, [], ◌∷◌, ◌++◌, any,
  select, Result, ok, err, Error, integrity_error, concurrency_error, ltb, leb, eqb, ◌==◌,
  if◌then◌else◌,
}
use twinstudio.Base.Exec.{Exec, pure, gets, begin, raise_if, ◌>>=◌, ◌>>◌}
use twinstudio.Domain.Envelopes.{EventEnvelope}
use twinstudio.EventStore.Tables.{Database}

abbrev pub in_stream : String → EventEnvelope → Bool
in_stream stream e = e.stream_id == stream

-- `WHERE stream_id = :stream_id`, in the order of insertion
abbrev pub of_stream : String → List EventEnvelope → List EventEnvelope
of_stream stream rows = select (in_stream stream) rows

abbrev larger : ℕ → ℕ → ℕ
larger a b = if ltb a b then b else a

-- `int(max(stream_version) or 0)`
unfoldable pub max_version : List EventEnvelope → ℕ
max_version [] = 0
max_version (e ∷ rows) = larger e.stream_version (max_version rows)

unfoldable pub current_version : String → Database → ℕ
unfolding max_version
current_version stream db = max_version (of_stream stream db.events)

-- a row that violates the primary key or `uq_stream_version` against `e`
abbrev pub clashes : EventEnvelope → EventEnvelope → Bool
clashes e row =
    (row.event_id == e.event_id)
    || ((row.stream_id == e.stream_id) && eqb row.stream_version e.stream_version)

unfoldable pub insert_event : EventEnvelope → Exec Database (Unit {0})
insert_event e db =
    if any (clashes e) db.events
    then (err integrity_error, db)
    else (ok tt, record db { events = db.events ++ e ∷ [] })

-- the envelope with its stream and version, as `append` normalises it
abbrev pub normalized : String → ℕ → EventEnvelope → EventEnvelope
normalized stream version e = record e { stream_id = stream; stream_version = version }

-- the loop of `append`, after `current` events
unfoldable pub insert_all : String → ℕ → List EventEnvelope → Exec Database (List EventEnvelope)
unfolding insert_event
insert_all stream current [] = pure []
insert_all stream current (e ∷ es) = do
  insert_event (normalized stream (current + 1) e)
  stored ← insert_all stream (current + 1) es
  pure (normalized stream (current + 1) e ∷ stored)

-- `expected_version is not None and expected_version != current_version`
abbrev pub is_stale : Option ℕ → ℕ → Bool
is_stale none current = false
is_stale (some expected) current = not (eqb expected current)

-- the transaction of `append`
unfoldable pub append_rows :
    String → Option ℕ → List EventEnvelope → Exec Database (List EventEnvelope)
unfolding current_version insert_all
append_rows stream expected new = do
  current ← gets (current_version stream)
  raise_if (is_stale expected current) concurrency_error
  insert_all stream current new

-- `except IntegrityError as exc: raise ConcurrencyError`
abbrev pub as_concurrency {ℓ} : {A : Type ℓ} → Result A × Database → Result A × Database
as_concurrency (err integrity_error, db) = (err concurrency_error, db)
as_concurrency (r, db) = (r, db)

unfoldable pub append : String → Option ℕ → List EventEnvelope → Exec Database (List EventEnvelope)
unfolding append_rows
append stream expected [] db = (ok [], db)
append stream expected (e ∷ es) db =
    as_concurrency (begin (append_rows stream expected (e ∷ es)) db)

-- `ORDER BY stream_version`, stable
insert_ordered : EventEnvelope → List EventEnvelope → List EventEnvelope
insert_ordered e [] = e ∷ []
insert_ordered e (x ∷ xs) =
    if leb e.stream_version x.stream_version then e ∷ x ∷ xs else x ∷ insert_ordered e xs

order_by_version : List EventEnvelope → List EventEnvelope
unfolding insert_ordered
order_by_version [] = []
order_by_version (x ∷ xs) = insert_ordered x (order_by_version xs)

-- `load(stream_id, after_version=after)`
unfoldable pub load : String → ℕ → Database → List EventEnvelope
unfolding order_by_version
load stream after db =
    order_by_version (select (λ e. ltb after e.stream_version) (of_stream stream db.events))

unfoldable pub delete_stream : String → Exec Database (Unit {0})
delete_stream stream db =
    (ok tt, record db { events = select (λ e. not (in_stream stream e)) db.events })
