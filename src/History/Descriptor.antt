-- ===== src/History/Descriptor.antt =====
-- The file `project.twinstudio.json`: which artifacts a project has, and the revision each stands at. The
-- file is what it holds, or none. Pydantic's reading and writing of the descriptor are arguments.
use Prim.Native.String.{[], ◌∷◌, ◌++◌}
use twinstudio.Base.{
  ℕ, String, Bool, false, not, ◌&&◌, Option, none, some, all, List, Result, ok, err, ◌>>=◌, ◌>>◌,
  raise_if, value_error, validation_error, leb, ◌==◌, if◌then◌else◌,
}
use twinstudio.Base.Text.{lower, starts_with, skip}
use twinstudio.Base.Letters.{
  size, upto, all_among, is_alnum, strip, contains, digits, lower_letters,
}
use twinstudio.Base.Dict.{Dict, get, put, pop}
use twinstudio.Domain.Objects.{Instant}

pub record ArtifactHead : Type 0 where
  pub artifact_id : String
  pub path : String
  pub media_type : String
  pub head_sha256 : String
  pub revision_id : String
  pub object_ref : String

pub record TwinStudioProject : Type 0 where
  pub project_id : String
  pub stream_id : String
  pub stream_version : ℕ
  pub updated_at : Instant
  pub artifacts : Dict ArtifactHead

-- What the file uses of libraries: what the file can hold, the descriptor from it and back, the hexadecimal SHA-256 of a
-- text, `PurePosixPath(path).as_posix()` and its first part, and `Path(path).suffix`.
pub record Library : Type 1 where
  pub content : Type 0
  pub model_validate_json : content → Result TwinStudioProject
  pub model_dump_json : TwinStudioProject → content
  pub sha256 : String → String
  pub as_posix : String → String
  pub first_part : String → Option String
  pub suffix : String → String

-- between two lengths, inclusive
abbrev pub size_within : ℕ → ℕ → String → Bool
unfolding size
size_within least most s = leb least (size s) && leb (size s) most

-- 64 hexadecimal digits
unfoldable pub is_sha256 : String → Bool
unfolding size all_among
is_sha256 s = size_within 64 64 s && all_among "0123456789abcdef" s

-- the pattern of `artifact_id`, after its prefix
abbrev pub is_identity : String → Bool
unfolding all_among upto skip size
is_identity s =
    size_within 3 160 s
    && all_among (lower_letters ++ digits) (upto 1 s)
    && all_among (lower_letters ++ digits ++ "._:-") (skip 1 s)

unfoldable pub head_valid : ArtifactHead → Bool
unfolding is_sha256 starts_with skip all_among upto size
head_valid head =
    starts_with "artifact:" head.artifact_id
    && is_identity (skip 9 head.artifact_id)
    && is_sha256 head.head_sha256
    && starts_with "sha256:" head.object_ref
    && is_sha256 (skip 7 head.object_ref)

unfoldable pub project_valid : TwinStudioProject → Bool
unfolding head_valid size
project_valid project =
    size_within 1 160 project.project_id
    && size_within 1 255 project.stream_id
    && all (λ entry. head_valid entry.1) project.artifacts

-- one character of the slug of `artifact_id`
slug : String → String
unfolding is_alnum lower
slug [] = []
slug (c ∷ s) = (if is_alnum c then lower (c ∷ []) else "-") ++ slug s

unfoldable pub artifact_id : Library → String → String → String
unfolding slug strip upto
artifact_id library project path =
    let name = strip "-" (slug project) in
    "artifact:"
    ++ (if name == "" then "project" else name)
    ++ ":"
    ++ upto 20 (library.sha256 (library.as_posix path))

safe_name : String → String
unfolding is_alnum contains
safe_name [] = []
safe_name (c ∷ s) =
    (if is_alnum c then c ∷ [] else if contains (c ∷ []) "-_." then c ∷ [] else "-") ++ safe_name s

unfoldable pub revision_id : Library → String → String → String
unfolding safe_name upto
revision_id library path hash =
    let first : String = elim (library.first_part path) [ none ↦ "revision" | some part ↦ part ] in
    "rev:" ++ safe_name first ++ ":" ++ upto 12 hash

-- the file, which may be missing
abbrev pub File : Library → Type 0
File library = Option library.content

-- the descriptor of a project that has no file
abbrev pub fresh_project : Instant → String → TwinStudioProject
fresh_project now project = record {
  project_id = project;
  stream_id = project;
  stream_version = 0;
  updated_at = now;
  artifacts = List.[];
}

unfoldable pub load_descriptor :
    (library : Library) → Instant → String → File library → Result TwinStudioProject
unfolding project_valid
load_descriptor library now project (some text) = do
  descriptor ← library.model_validate_json text
  raise_if (not (descriptor.project_id == project))
      (value_error "project.twinstudio.json belongs to another project")
  ok descriptor
load_descriptor library now project none =
    if project_valid (fresh_project now project)
    then ok (fresh_project now project)
    else err validation_error

-- the four optional arguments of `update_descriptor`, when none of them is missing or empty
pub record Source : Type 0 where
  pub source_path : String
  pub source_sha256 : String
  pub revision : String
  pub source_ref : String

abbrev pub media_type_of : Library → String → String
unfolding lower
media_type_of library path =
    let suffix = lower (library.suffix path) in
    if suffix == ".kicad_sch"
    then "application/vnd.kicad.schematic"
    else if suffix == ".kicad_pcb"
    then "application/vnd.kicad.pcb"
    else "application/octet-stream"

abbrev pub head_of : Library → String → Source → ArtifactHead
unfolding artifact_id lower
head_of library project source = record {
  artifact_id = artifact_id library project source.source_path;
  path = library.as_posix source.source_path;
  media_type = media_type_of library source.source_path;
  head_sha256 = source.source_sha256;
  revision_id = source.revision;
  object_ref = source.source_ref;
}

abbrev pub is_complete : Source → Bool
is_complete source =
    not (source.source_path == "")
    && not (source.source_sha256 == "")
    && not (source.revision == "")
    && not (source.source_ref == "")

-- the artifacts with a new head; the constructor of the head checks its patterns
unfoldable pub with_head :
    Library → String → Option Source → Dict ArtifactHead → Result (Dict ArtifactHead)
unfolding head_valid artifact_id lower
with_head library project none artifacts = ok artifacts
with_head library project (some source) artifacts =
    let head = head_of library project source in
    let kept = ok (put head.artifact_id head artifacts) in
    if is_complete source
    then (if head_valid head then kept else err validation_error)
    else ok artifacts

abbrev pub advanced : ℕ → Instant → Dict ArtifactHead → TwinStudioProject → TwinStudioProject
advanced version now artifacts descriptor = record descriptor {
  stream_version = version;
  updated_at = now;
  artifacts = artifacts;
}

-- the result of a call that writes the descriptor it returns, and the file after it
abbrev pub saved :
    (library : Library)
    → Result TwinStudioProject
    → File library
    → Result TwinStudioProject × File library
saved library (ok descriptor) file = (ok descriptor, some (library.model_dump_json descriptor))
saved library (err e) file = (err e, file)

abbrev pub updated_descriptor :
    (library : Library)
    → Instant
    → String
    → ℕ
    → Option Source
    → File library
    → Result TwinStudioProject
updated_descriptor library now project version source file = do
  descriptor ← load_descriptor library now project file
  artifacts ← with_head library project source descriptor.artifacts
  ok (advanced version now artifacts descriptor)

unfoldable pub update_descriptor :
    (library : Library)
    → Instant
    → String
    → ℕ
    → Option Source
    → File library
    → Result TwinStudioProject × File library
unfolding load_descriptor with_head
update_descriptor library now project version source file =
    saved library (updated_descriptor library now project version source file) file

-- whether the artifact's head has this hash
abbrev pub is_unchanged : String → Option ArtifactHead → Bool
is_unchanged hash none = false
is_unchanged hash (some head) = head.head_sha256 == hash

abbrev pub base_source : String → String → String → Source
unfolding upto
base_source path hash object_ref = record {
  source_path = path;
  source_sha256 = hash;
  revision = "base:" ++ upto 12 hash;
  source_ref = object_ref;
}

-- what `update_source_descriptor` passes on: nothing of a source whose head has this hash
abbrev pub chosen_source :
    Library → String → String → String → String → TwinStudioProject → Option Source
chosen_source library project path hash object_ref descriptor =
    if is_unchanged hash (get (artifact_id library project path) descriptor.artifacts)
    then none
    else some (base_source path hash object_ref)

unfoldable pub update_source_descriptor :
    (library : Library)
    → Instant
    → String
    → ℕ
    → String
    → String
    → String
    → File library
    → Result TwinStudioProject × File library
unfolding load_descriptor update_descriptor artifact_id upto
update_source_descriptor library now project version path hash object_ref file =
    elim (load_descriptor library now project file) [
      | err e ↦ (err e, file)
      | ok descriptor ↦
          update_descriptor library now project version
            (chosen_source library project path hash object_ref descriptor) file
    ]

abbrev pub descriptor_without :
    (library : Library) → Instant → String → ℕ → String → File library → Result TwinStudioProject
descriptor_without library now project version path file = do
  descriptor ← load_descriptor library now project file
  ok (advanced version now (pop (artifact_id library project path) descriptor.artifacts) descriptor)

unfoldable pub remove_descriptor_artifact :
    (library : Library)
    → Instant
    → String
    → ℕ
    → String
    → File library
    → Result TwinStudioProject × File library
unfolding load_descriptor artifact_id
remove_descriptor_artifact library now project version path file =
    saved library (descriptor_without library now project version path file) file
