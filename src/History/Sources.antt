-- ===== src/History/Sources.antt =====
-- What `update_source_descriptor` does to the heads of the artifacts.
use twinstudio.Base.{
  ℕ, String, ◌≡◌, ◌≢◌, refl, ap, ◌⊎◌, inl, inr, true, false, some, Bool-cases, ok, err,
  Result-cases,
}
use mathlib.Core.Path.{subst}
use twinstudio.Base.Dict.{Dict, get, put, get-put_self, get-put_ne}
use twinstudio.Domain.Objects.{Instant}
use twinstudio.History.Descriptor.{
  ArtifactHead, TwinStudioProject, Library, File, head_valid, artifact_id, load_descriptor, head_of,
  is_complete, with_head, advanced, updated_descriptor, update_descriptor, is_unchanged,
  base_source, chosen_source, update_source_descriptor,
}

-- Between two descriptors, the head of the artifact becomes the given one and every other head stays.
abbrev pub IsReplaced : String → ArtifactHead → Dict ArtifactHead → Dict ArtifactHead → Type 0
IsReplaced identity head before after =
    (get identity after ≡ some head) × ((j : String) → identity ≢ j → get j after ≡ get j before)

-- Either the head had the hash and all heads stay, or it did not and becomes a base revision of the hash.
abbrev pub IsSourced :
    Library → String → String → String → String → Dict ArtifactHead → Dict ArtifactHead → Type 0
IsSourced library project path hash object_ref before after =
    let identity = artifact_id library project path in
    ((is_unchanged hash (get identity before) ≡ true) × (after ≡ before))
    ⊎ ((is_unchanged hash (get identity before) ≡ false)
        × IsReplaced identity (head_of library project (base_source path hash object_ref)) before
            after)

with_head-IsSourced :
    (library : Library) (project path hash object_ref : String) (c : TwinStudioProject)
    (heads : Dict ArtifactHead)
    → is_complete (base_source path hash object_ref) ≡ true
    → with_head library project (chosen_source library project path hash object_ref c) c.artifacts
      ≡ ok heads
    → IsSourced library project path hash object_ref c.artifacts heads
unfolding with_head
with_head-IsSourced library project path hash object_ref c heads complete h =
    let identity = artifact_id library project path in
    elim (Bool-cases (is_unchanged hash (get identity c.artifacts))) [
      | inl same ↦
          let k : ok c.artifacts ≡ ok heads = rw same at h in
          let kept : heads ≡ c.artifacts = cc in inl (same, kept)
      | inr changed ↦
          let head = head_of library project (base_source path hash object_ref) in
          elim (Bool-cases (head_valid head)) [
            | inr invalid ↦ let k = rw (changed, complete, invalid) at h in cc
            | inl valid ↦
                let k : ok (put identity head c.artifacts) ≡ ok heads =
                  rw (changed, complete, valid) at h in
                let new : put identity head c.artifacts ≡ heads = cc in
                inr (
                  changed,
                  subst (IsReplaced identity head c.artifacts) new (
                    get-put_self identity head c.artifacts,
                    λ j differ. get-put_ne identity j head c.artifacts differ,
                  ),
                )
          ]
    ]

-- When `load_descriptor` returns a descriptor, `update_source_descriptor` of a source with a path, a hash and
-- an object reference that are not empty, if it returns one, leaves every head alone when the head of
-- the source has this hash already; otherwise it makes the head of the source the base revision of the hash,
-- and leaves the others alone.
pub update_source_descriptor-IsSourced :
    (library : Library) (now : Instant) (project : String) (version : ℕ)
    (path hash object_ref : String) (file file_after : File library) (c d : TwinStudioProject)
    → is_complete (base_source path hash object_ref) ≡ true
    → load_descriptor library now project file ≡ ok c
    → update_source_descriptor library now project version path hash object_ref file
      ≡ (ok d, file_after)
    → IsSourced library project path hash object_ref c.artifacts d.artifacts
unfolding update_source_descriptor update_descriptor
update_source_descriptor-IsSourced library now project version path hash object_ref file file_after
      c d complete loaded h =
    let given = chosen_source library project path hash object_ref c in
    elim (Result-cases (with_head library project given c.artifacts)) [
      | inr (x, failed) ↦
          let none_saved : updated_descriptor library now project version given file ≡ err x =
            rw (loaded, failed) refl in
          let k = ap (λ p. p.0) (rw (loaded, update_source_descriptor, none_saved) at h) in cc
      | inl (heads, kept) ↦
          let e = advanced version now heads c in
          let one_saved : updated_descriptor library now project version given file ≡ ok e =
            rw (loaded, kept) refl in
          let k : ok e ≡ ok d =
            ap (λ p. p.0) (rw (loaded, update_source_descriptor, one_saved) at h) in
          let same : e ≡ d = cc in
          subst (λ z. IsSourced library project path hash object_ref c.artifacts z.artifacts) same
            (with_head-IsSourced library project path hash object_ref c heads complete kept)
    ]
