-- ===== src/History/Heads.antt =====
-- What the three calls that change `project.twinstudio.json` leave in it.
use twinstudio.Base.{
  ℕ, String, ◌≡◌, refl, ◌⊎◌, inl, inr, true, Option, none, some, [], Error, ◌∷◌, all, arith,
  Bool-cases, Result, ok, err, Result-cases, ◌==◌, eq_iff,
}
use mathlib.Core.Path.{subst}
use twinstudio.Base.Dict.{Dict, put, pop}
use twinstudio.Domain.Objects.{Instant}
use twinstudio.History.Descriptor.{
  ArtifactHead, TwinStudioProject, Library, Source, File, head_valid, project_valid, artifact_id,
  load_descriptor, fresh_project, head_of, is_complete, with_head, advanced, saved,
  update_descriptor, chosen_source, updated_descriptor, descriptor_without,
  update_source_descriptor, remove_descriptor_artifact,
}

-- What is relied on of pydantic: it reads only valid descriptors, and reads back one that it wrote.
pub record IsCodec (library : Library) : Type 0 where
  pub reads_valid :
      (text : library.content) (d : TwinStudioProject)
      → library.model_validate_json text ≡ ok d
      → project_valid d ≡ true
  pub reads_back :
      (d : TwinStudioProject)
      → project_valid d ≡ true
      → library.model_validate_json (library.model_dump_json d) ≡ ok d

all-put :
    (k : String) (head : ArtifactHead) (heads : Dict ArtifactHead)
    → head_valid head ≡ true
    → all (λ entry. head_valid entry.1) heads ≡ true
    → all (λ entry. head_valid entry.1) (put k head heads) ≡ true
all-put k head [] h hs = ground arith
all-put k head ((j, w) ∷ heads) h hs = ground (arith, all-put k head heads)

all-pop :
    (k : String) (heads : Dict ArtifactHead)
    → all (λ entry. head_valid entry.1) heads ≡ true
    → all (λ entry. head_valid entry.1) (pop k heads) ≡ true
all-pop k [] hs = refl
all-pop k ((j, w) ∷ heads) hs = ground (arith, all-pop k heads)

-- A descriptor of the project that is valid.
abbrev IsOf : String → TwinStudioProject → Type 0
IsOf project d = (project_valid d ≡ true) × (d.project_id ≡ project)

load_descriptor-IsOf :
    (library : Library) (now : Instant) (project : String) (file : File library)
    (d : TwinStudioProject)
    → IsCodec library
    → load_descriptor library now project file ≡ ok d
    → IsOf project d
unfolding load_descriptor
load_descriptor-IsOf library now project none d codec h =
    elim (Bool-cases (project_valid (fresh_project now project))) [
      | inr invalid ↦ let k = rw invalid at h in cc
      | inl valid ↦
          let k : ok (fresh_project now project) ≡ ok d = rw valid at h in
          let same : fresh_project now project ≡ d = cc in subst (IsOf project) same (valid, refl)
    ]
load_descriptor-IsOf library now project (some text) d codec h =
    elim (Result-cases (library.model_validate_json text)) [
      | inr (x, failed) ↦ let k = rw failed at h in cc
      | inl (c, parsed) ↦ elim (Bool-cases (c.project_id == project)) [
        | inr foreign ↦ let k = rw (parsed, foreign) at h in cc
        | inl own ↦
            let k : ok c ≡ ok d = rw (parsed, own) at h in
            let same : c ≡ d = cc in
            (
              rw (← same) (codec.reads_valid text c parsed),
              rw (← same) ((eq_iff c.project_id project).0 own),
            )
      ]
    ]

load_descriptor_back :
    (library : Library) (now : Instant) (project : String) (d : TwinStudioProject)
    → IsCodec library
    → IsOf project d
    → load_descriptor library now project (some (library.model_dump_json d)) ≡ ok d
unfolding load_descriptor
load_descriptor_back library now project d codec (valid, own) =
    rw (codec.reads_back d valid, (eq_iff d.project_id project).1 own) refl

with_head-valid :
    (library : Library) (project : String) (source : Option Source) (heads kept : Dict ArtifactHead)
    → all (λ entry. head_valid entry.1) heads ≡ true
    → with_head library project source heads ≡ ok kept
    → all (λ entry. head_valid entry.1) kept ≡ true
unfolding with_head
with_head-valid library project none heads kept hs h =
    let same : heads ≡ kept = cc in rw (← same) hs
with_head-valid library project (some source) heads kept hs h =
    elim (Bool-cases (is_complete source)) [
      | inr partial ↦
          let k : ok heads ≡ ok kept = rw partial at h in
          let same : heads ≡ kept = cc in rw (← same) hs
      | inl complete ↦ elim (Bool-cases (head_valid (head_of library project source))) [
        | inr invalid ↦ let k = rw (complete, invalid) at h in cc
        | inl valid ↦
            let head = head_of library project source in
            let k : ok (put head.artifact_id head heads) ≡ ok kept = rw (complete, valid) at h in
            let same : put head.artifact_id head heads ≡ kept = cc in
            rw (← same) (all-put head.artifact_id head heads valid hs)
      ]
    ]

project_valid-heads :
    (d : TwinStudioProject)
    → project_valid d ≡ true
    → all (λ entry. head_valid entry.1) d.artifacts ≡ true
unfolding project_valid
project_valid-heads d h = ground arith

advanced-IsOf :
    (project : String) (version : ℕ) (now : Instant) (heads : Dict ArtifactHead)
    (d : TwinStudioProject)
    → IsOf project d
    → all (λ entry. head_valid entry.1) heads ≡ true
    → IsOf project (advanced version now heads d)
unfolding project_valid
advanced-IsOf project version now heads d (valid, own) hs = (ground arith, own)

-- A call that writes its descriptor returns one of the project at the given version.
abbrev IsEdit : String → ℕ → Result TwinStudioProject → Type 0
IsEdit project version r =
    (d : TwinStudioProject) → r ≡ ok d → IsOf project d × (d.stream_version ≡ version)

updated_descriptor-IsEdit :
    (library : Library) (now : Instant) (project : String) (version : ℕ) (source : Option Source)
    (file : File library)
    → IsCodec library
    → IsEdit project version (updated_descriptor library now project version source file)
updated_descriptor-IsEdit library now project version source file codec d h =
    elim (Result-cases (load_descriptor library now project file)) [
      | inr (x, failed) ↦ let k = rw failed at h in cc
      | inl (c, loaded) ↦ elim (Result-cases (with_head library project source c.artifacts)) [
        | inr (x, failed) ↦ let k = rw (loaded, failed) at h in cc
        | inl (heads, kept) ↦
            let k : ok (advanced version now heads c) ≡ ok d = rw (loaded, kept) at h in
            let same : advanced version now heads c ≡ d = cc in
            let own = load_descriptor-IsOf library now project file c codec loaded in
            let valid =
              with_head-valid library project source c.artifacts heads (project_valid-heads c own.0)
                kept in
            subst (λ z. IsOf project z × (z.stream_version ≡ version)) same
              (advanced-IsOf project version now heads c own valid, refl)
      ]
    ]

descriptor_without-IsEdit :
    (library : Library) (now : Instant) (project : String) (version : ℕ) (path : String)
    (file : File library)
    → IsCodec library
    → IsEdit project version (descriptor_without library now project version path file)
descriptor_without-IsEdit library now project version path file codec d h =
    elim (Result-cases (load_descriptor library now project file)) [
      | inr (x, failed) ↦ let k = rw failed at h in cc
      | inl (c, loaded) ↦
          let heads = pop (artifact_id library project path) c.artifacts in
          let k : ok (advanced version now heads c) ≡ ok d = rw loaded at h in
          let same : advanced version now heads c ≡ d = cc in
          let own = load_descriptor-IsOf library now project file c codec loaded in
          let valid =
            all-pop (artifact_id library project path) c.artifacts (project_valid-heads c own.0) in
          subst (λ z. IsOf project z × (z.stream_version ≡ version)) same
            (advanced-IsOf project version now heads c own valid, refl)
    ]

-- A call returned a descriptor at the version, which a later load reads from the file, or it raised and left
-- the file as it was.
abbrev pub IsSettled :
    (library : Library)
    → Instant
    → String
    → ℕ
    → File library
    → Result TwinStudioProject × File library
    → Type 0
IsSettled library later project version file (result, file_after) =
    ((d : TwinStudioProject) × (result ≡ ok d)
      × (load_descriptor library later project file_after ≡ ok d)
      × (d.stream_version ≡ version))
    ⊎ ((x : Error) × (result ≡ err x) × (file_after ≡ file))

saved-IsSettled :
    (library : Library) (later : Instant) (project : String) (version : ℕ) (file : File library)
    (r : Result TwinStudioProject)
    → IsCodec library
    → IsEdit project version r
    → IsSettled library later project version file (saved library r file)
saved-IsSettled library later project version file (err x) codec h = inr (x, refl, refl)
saved-IsSettled library later project version file (ok d) codec h =
    let own = h d refl in
    inl (d, refl, load_descriptor_back library later project d codec own.0, own.1)

-- The three calls that change the file, with their arguments.
pub data Edit : Type 0 where
  source : Option Source → Edit
  unchanged_source : String → String → String → Edit
  removal : String → Edit

abbrev pub edited :
    (library : Library)
    → Instant
    → String
    → ℕ
    → Edit
    → File library
    → Result TwinStudioProject × File library
edited library now project version (source given) file =
    update_descriptor library now project version given file
edited library now project version (unchanged_source path hash object_ref) file =
    update_source_descriptor library now project version path hash object_ref file
edited library now project version (removal path) file =
    remove_descriptor_artifact library now project version path file

-- When pydantic reads only valid descriptors and reads back the valid ones that it wrote, each of
-- `update_descriptor`, `update_source_descriptor` and `remove_descriptor_artifact` either returns a descriptor
-- at the given stream version that a later `load_descriptor` of the project reads from the file, or raises and
-- leaves the file as it was.
pub edited-IsSettled :
    (library : Library) (now later : Instant) (project : String) (version : ℕ) (edit : Edit)
    (file : File library)
    → IsCodec library
    → IsSettled library later project version file (edited library now project version edit file)
unfolding update_descriptor update_source_descriptor remove_descriptor_artifact
edited-IsSettled library now later project version (source given) file codec =
    saved-IsSettled library later project version file
      (updated_descriptor library now project version given file) codec
      (updated_descriptor-IsEdit library now project version given file codec)
edited-IsSettled library now later project version (removal path) file codec =
    saved-IsSettled library later project version file
      (descriptor_without library now project version path file) codec
      (descriptor_without-IsEdit library now project version path file codec)
edited-IsSettled library now later project version (unchanged_source path hash object_ref) file
      codec =
    elim (Result-cases (load_descriptor library now project file)) [
      | inr (x, failed) ↦ rw (failed, update_source_descriptor) (inr (x, refl, refl))
      | inl (c, loaded) ↦
          let given = chosen_source library project path hash object_ref c in
          rw (loaded, update_source_descriptor)
            (saved-IsSettled library later project version file
              (updated_descriptor library now project version given file) codec
              (updated_descriptor-IsEdit library now project version given file codec))
    ]
