-- ===== src/Examples/Descriptors.antt =====
-- The theorems on the project descriptor, applied.
use twinstudio.Base.{
  String, ◌≡◌, refl, inl, inr, true, Option, some, [], ◌∷◌, Result, ok, err, validation_error,
  Bool-cases, if◌then◌else◌,
}
use mathlib.Core.Path.{subst}
use twinstudio.History.Descriptor.{
  ArtifactHead, TwinStudioProject, Library, Source, project_valid, update_source_descriptor,
}
use twinstudio.History.Heads.{IsCodec, IsSettled, source, edited, edited-IsSettled}
use twinstudio.History.Sources.{IsSourced, update_source_descriptor-IsSourced}

abbrev hash : String
hash = "0123456789abcdef0123456789abcdef0123456789abcdef0123456789abcdef"

abbrev other_hash : String
other_hash = "ffffffffffffffffffffffffffffffffffffffffffffffffffffffffffffffff"

abbrev reading : TwinStudioProject → Result TwinStudioProject
reading d = if project_valid d then ok d else err validation_error

-- a file that holds the descriptor itself
abbrev library : Library
library = record {
  content = TwinStudioProject;
  model_validate_json = reading;
  model_dump_json = λ d. d;
  sha256 = λ s. hash;
  as_posix = λ s. s;
  first_part = λ s. some s;
  suffix = λ s. ".kicad_sch";
}

library-IsCodec : IsCodec library
library-IsCodec = record {
  reads_valid = λ text d h. elim (Bool-cases (project_valid text)) [
    | inr invalid ↦ let k = rw invalid at h in cc
    | inl valid ↦
        let k : ok text ≡ ok d = rw valid at h in
        let same : text ≡ d = cc in subst (λ z. project_valid z ≡ true) same valid
  ];
  reads_back = λ d h. rw h refl;
}

abbrev head : ArtifactHead
head = record {
  artifact_id = "artifact:lamp:0123456789abcdef0123";
  path = "lamp.kicad_sch";
  media_type = "application/vnd.kicad.schematic";
  head_sha256 = hash;
  revision_id = "rev:candidate:0123456789ab";
  object_ref = "sha256:0123456789abcdef0123456789abcdef0123456789abcdef0123456789abcdef";
}

abbrev descriptor : TwinStudioProject
descriptor = record {
  project_id = "lamp";
  stream_id = "lamp";
  stream_version = 4;
  updated_at = 1000;
  artifacts = (head.artifact_id, head) ∷ [];
}

abbrev schematic : Source
schematic = record {
  source_path = "lamp.kicad_sch";
  source_sha256 = other_hash;
  revision = "rev:candidate:ffffffffffff";
  source_ref = "sha256:ffffffffffffffffffffffffffffffffffffffffffffffffffffffffffffffff";
}

edited-IsSettled_example :
    IsSettled library 3000 "lamp" 5
      (some descriptor)
      (edited library 2000 "lamp" 5 (source (some schematic)) (some descriptor))
edited-IsSettled_example =
    edited-IsSettled library 2000 3000 "lamp" 5 (source (some schematic)) (some descriptor)
      library-IsCodec

abbrev returned : Result TwinStudioProject → TwinStudioProject
returned (ok d) = d
returned (err e) = descriptor

abbrev resourced : Result TwinStudioProject × Option TwinStudioProject
resourced =
    update_source_descriptor library 2000 "lamp" 5 "lamp.kicad_sch" other_hash schematic.source_ref
      (some descriptor)

update_source_descriptor-IsSourced_example :
    IsSourced library "lamp" "lamp.kicad_sch" other_hash schematic.source_ref descriptor.artifacts
      (returned resourced.0).artifacts
unfolding update_source_descriptor
update_source_descriptor-IsSourced_example =
    update_source_descriptor-IsSourced library 2000 "lamp" 5 "lamp.kicad_sch" other_hash
      schematic.source_ref (some descriptor) resourced.1 descriptor (returned resourced.0) refl refl
      refl
