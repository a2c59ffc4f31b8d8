-- ===== src/EventStore/Events/Loads.antt =====
-- `load` returns the events of a stream in the order of their versions, from the one asked for.
use twinstudio.Base.{
  ℕ, zero, suc, ◌+◌, ◌-◌, String, ◌≡◌, refl, sym, ◌∙◌, ap, inl, inr, Option, List, [], ◌∷◌, ◌++◌,
  length, select, drop, arith, Bool-cases, ok, ltb, ◌==◌, if◌then◌else◌,
}
use twinstudio.Domain.Envelopes.{EventEnvelope}
use twinstudio.EventStore.Tables.{Database}
use twinstudio.EventStore.Events.{
  of_stream, current_version, append, load, insert_ordered, order_by_version,
}
use twinstudio.EventStore.Events.Streams.{
  IsNumbered, IsWellFormed, stamp, current_version-eq-length,
}
use twinstudio.EventStore.Events.Appends.{
  with_rows, append_outcome, of_stream-with_rows, with_rows-IsWellFormed,
}

drop-nil : (k : ℕ) → [] ≡ drop {A = EventEnvelope} k []
drop-nil zero = refl
drop-nil (suc k) = refl

select_after :
    (after n : ℕ) (xs : List EventEnvelope)
    → IsNumbered (suc n) xs
    → select (λ e. ltb after e.stream_version) xs ≡ drop (after - n) xs
select_after after n [] h = drop-nil (after - n)
select_after after n (x ∷ xs) h = elim (Bool-cases (ltb after x.stream_version)) [
  | inl later ↦
      let here : after - n ≡ 0 = ground (arith, h.0) in
      let next : after - suc n ≡ 0 = omega arith in
      rw (later, here)
        (ap (λ rest. x ∷ rest) (select_after after (suc n) xs h.1 ∙ ap (λ k. drop k xs) next))
  | inr earlier ↦
      let here : after - n ≡ suc (after - suc n) = ground (arith, h.0) in
      rw (earlier, here) (select_after after (suc n) xs h.1)
]

IsNumbered-drop :
    (n k : ℕ) (xs : List EventEnvelope) → IsNumbered n xs → IsNumbered (n + k) (drop k xs)
IsNumbered-drop n zero xs h = let e : n + 0 ≡ n = omega arith in rw e h
IsNumbered-drop n (suc k) [] h = tt
IsNumbered-drop n (suc k) (x ∷ xs) h =
    let e : n + suc k ≡ suc n + k = omega arith in rw e (IsNumbered-drop (suc n) k xs h.1)

insert_ordered_first :
    (n : ℕ) (x : EventEnvelope) (xs : List EventEnvelope)
    → x.stream_version ≡ n
    → IsNumbered (suc n) xs
    → insert_ordered x xs ≡ x ∷ xs
unfolding insert_ordered
insert_ordered_first n x [] e h = refl
insert_ordered_first n x (y ∷ ys) e h = ground arith

order_by_version-IsNumbered :
    (n : ℕ) (xs : List EventEnvelope) → IsNumbered n xs → order_by_version xs ≡ xs
unfolding order_by_version
order_by_version-IsNumbered n [] h = refl
order_by_version-IsNumbered n (x ∷ xs) h =
    rw (order_by_version-IsNumbered (suc n) xs h.1) (insert_ordered_first n x xs h.0 h.1)

-- In a well formed table `load` skips the first `after` events of the stream and returns the rest
-- in order.
pub load_lem :
    (stream : String) (after : ℕ) (db : Database)
    → IsWellFormed db
    → load stream after db ≡ drop after (of_stream stream db.events)
unfolding load
load_lem stream after db w =
    let rows = of_stream stream db.events in
    let all : after - 0 ≡ after = omega arith in
    rw (select_after after 0 rows (w.numbered stream), all)
      (order_by_version-IsNumbered (1 + after) (drop after rows)
        (IsNumbered-drop 1 after rows (w.numbered stream)))

-- A replay from the start is the stream as it was inserted.
pub load_all :
    (stream : String) (db : Database)
    → IsWellFormed db
    → load stream 0 db ≡ of_stream stream db.events
load_all stream db w = load_lem stream 0 db w

-- In a well formed database, after a successful `append` the stream's replay is the earlier one
-- followed by the stored events, which have the versions after the earlier one, and every other
-- stream's replay is unchanged.
pub load-append :
    (stream other : String) (expected : Option ℕ) (e : EventEnvelope) (es rows : List EventEnvelope)
    (db : Database)
    → IsWellFormed db
    → (append stream expected (e ∷ es) db).0 ≡ ok rows
    → (rows ≡ stamp stream (length (load stream 0 db)) (e ∷ es))
      × (load other 0 (append stream expected (e ∷ es) db).1
          ≡ load other 0 db ++ (if stream == other then rows else []))
load-append stream other expected e es rows db w h = elim (append_outcome stream expected e es db) [
  | inl (current, done) ↦
      let n = current_version stream db in
      let same : rows ≡ stamp stream n (e ∷ es) = cc in
      let count : n ≡ length (load stream 0 db) =
        current_version-eq-length stream db w ∙ ap length (sym (load_all stream db w)) in
      let kept : IsWellFormed (with_rows (stamp stream n (e ∷ es)) db) =
        with_rows-IsWellFormed stream (e ∷ es) db w in
      (
        rw (← count) same,
        rw (done, same)
            (load_all other (with_rows (stamp stream n (e ∷ es)) db) kept
              ∙ of_stream-with_rows stream other n (e ∷ es) db
              ∙ ap (λ xs. xs ++ (if stream == other then stamp stream n (e ∷ es) else []))
                  (sym (load_all other db w))),
      )
  | inr failed ↦ cc
]
