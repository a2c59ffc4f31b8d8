-- ===== src/EventStore/Events/Streams.antt =====
-- The invariant of the events table: the rows of each stream carry the versions 1, 2, 3, ... in the
-- order in which they were inserted.
use twinstudio.Base.{
  ℕ, suc, ◌+◌, String, ◌≡◌, refl, false, List, [], ◌∷◌, ◌++◌, length, arith, eq_refl, ◌==◌,
}
use twinstudio.Domain.Envelopes.{EventEnvelope}
use twinstudio.EventStore.Tables.{Database}
use twinstudio.EventStore.Events.{of_stream, larger, max_version, current_version, normalized}

-- consecutive versions from `n`
abbrev pub IsNumbered : ℕ → List EventEnvelope → Type 0
IsNumbered n [] = Unit
IsNumbered n (e ∷ rows) = (e.stream_version ≡ n) × IsNumbered (suc n) rows

pub record IsWellFormed (db : Database) : Type 0 where
  pub numbered : (stream : String) → IsNumbered 1 (of_stream stream db.events)

-- the envelopes that `append` stores: those given, in the stream, with versions after `current`
abbrev pub stamp : String → ℕ → List EventEnvelope → List EventEnvelope
stamp stream current [] = []
stamp stream current (e ∷ es) = normalized stream (current + 1) e ∷ stamp stream (current + 1) es

pub IsNumbered-append :
    (n : ℕ) (xs ys : List EventEnvelope)
    → IsNumbered n xs
    → IsNumbered (n + length xs) ys
    → IsNumbered n (xs ++ ys)
IsNumbered-append n [] ys h k = let e : n + 0 ≡ n = omega arith in rw e at k
IsNumbered-append n (x ∷ xs) ys h k =
    let e : n + suc (length xs) ≡ suc n + length xs = omega arith in
    (h.0, IsNumbered-append (suc n) xs ys h.1 (rw e at k))

pub IsNumbered-stamp :
    (stream : String) (n : ℕ) (es : List EventEnvelope) → IsNumbered (suc n) (stamp stream n es)
IsNumbered-stamp stream n [] = tt
IsNumbered-stamp stream n (e ∷ es) =
    let p : n + 1 ≡ suc n = omega arith in rw p (refl, IsNumbered-stamp stream (suc n) es)

larger-max_version :
    (n : ℕ) (rows : List EventEnvelope)
    → IsNumbered (suc n) rows
    → larger n (max_version rows) ≡ n + length rows
unfolding max_version
larger-max_version n [] h = ground arith
larger-max_version n (e ∷ rows) h = ground (arith, larger-max_version (suc n) rows h.1)

-- In a well formed table the version of a stream is the number of its events.
pub current_version-eq-length :
    (stream : String) (db : Database)
    → IsWellFormed db
    → current_version stream db ≡ length (of_stream stream db.events)
unfolding current_version
current_version-eq-length stream db w =
    ground (arith, larger-max_version 0 (of_stream stream db.events) (w.numbered stream))

pub of_stream-stamp_self :
    (stream : String) (n : ℕ) (es : List EventEnvelope)
    → of_stream stream (stamp stream n es) ≡ stamp stream n es
of_stream-stamp_self stream n [] = refl
of_stream-stamp_self stream n (e ∷ es) =
    rw (eq_refl stream) (rw (of_stream-stamp_self stream (n + 1) es) refl)

pub of_stream-stamp_ne :
    (stream other : String) (n : ℕ) (es : List EventEnvelope)
    → (stream == other) ≡ false
    → of_stream other (stamp stream n es) ≡ []
of_stream-stamp_ne stream other n [] h = refl
of_stream-stamp_ne stream other n (e ∷ es) h = rw h (of_stream-stamp_ne stream other (n + 1) es h)
