-- ===== src/Examples/Streams.antt =====
-- The theorems on event streams, applied.
use twinstudio.Base.{
  ◌≡◌, ◌⊎◌, refl, false, none, some, [], ◌∷◌, ◌++◌, length, err, concurrency_error, if◌then◌else◌,
  ◌==◌, Bool-cases, inl, inr,
}
use twinstudio.EventStore.Events.{append, load, is_stale, current_version}
use twinstudio.EventStore.Events.Streams.{IsWellFormed, stamp}
use twinstudio.EventStore.Events.Appends.{append_outcome, appended}
use twinstudio.EventStore.Events.Races.{append_race}
use twinstudio.EventStore.Events.Fresh.{append-fresh}
use twinstudio.EventStore.Events.Loads.{load-append}
use twinstudio.Examples.{staged, planned, database}

pub database-IsWellFormed : IsWellFormed database
database-IsWellFormed = record {
  numbered = λ stream. elim (Bool-cases ("lamp" == stream)) [
    | inl same ↦ rw same (refl, tt)
    | inr apart ↦ rw apart tt
  ];
}

append_outcome_example :
    ((is_stale (some 1) (current_version "lamp" database) ≡ false)
      × (append "lamp" (some 1) (staged ∷ planned ∷ []) database
          ≡ appended "lamp" (staged ∷ planned ∷ []) database))
    ⊎ (append "lamp" (some 1) (staged ∷ planned ∷ []) database ≡ (err concurrency_error, database))
append_outcome_example = append_outcome "lamp" (some 1) staged (planned ∷ []) database

append_race_example :
    let after = (append "lamp" (some 1) (staged ∷ []) database).1 in
    append "lamp" (some 1) (planned ∷ []) after ≡ (err concurrency_error, after)
unfolding append
append_race_example =
    append_race "lamp" 1 staged planned [] [] (stamp "lamp" 1 (staged ∷ [])) database
      database-IsWellFormed refl

append-fresh_example :
    append "lamp" none (staged ∷ planned ∷ []) database
    ≡ appended "lamp" (staged ∷ planned ∷ []) database
append-fresh_example =
    append-fresh "lamp" none staged (planned ∷ []) database database-IsWellFormed refl
      (refl, (refl, tt))

load-append_example :
    (stamp "lamp" 1 (staged ∷ []) ≡ stamp "lamp" (length (load "lamp" 0 database)) (staged ∷ []))
    × (load "lamp" 0 (append "lamp" (some 1) (staged ∷ []) database).1
        ≡ load "lamp" 0 database ++ (if "lamp" == "lamp" then stamp "lamp" 1 (staged ∷ []) else []))
unfolding append
load-append_example =
    load-append "lamp" "lamp" (some 1) staged [] (stamp "lamp" 1 (staged ∷ [])) database
      database-IsWellFormed refl
