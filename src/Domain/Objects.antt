-- ===== src/Domain/Objects.antt =====
-- The product objects of src/twinstudio/domain.py. Enums that no modelled code reads are their
-- values, and nested models that no modelled code reads are their dumps.
use twinstudio.Base.{String, Bool, Option, List, ℕ}
use twinstudio.Base.Dict.{Dict}
use twinstudio.Base.Json.{Json, Float, ℤ}

-- Aware UTC datetimes, in microseconds.
abbrev pub Instant : Type 0
Instant = ℕ

pub data Scalar : Type 0 where
  text : String → Scalar
  integer : ℤ → Scalar
  decimal : Float → Scalar
  flag : Bool → Scalar

pub data ParameterStatus : Type 0 where
  proposed approved measured derived deprecated : ParameterStatus

pub record ParameterValue : Type 0 where
  pub value : Scalar
  pub unit : Option String
  pub status : ParameterStatus
  pub source_uri : Option String
  pub confidence : Float
  pub notes : String

pub record FeatureSpec : Type 0 where
  pub uri : String
  pub name : String
  pub feature_type : String
  pub parameters : Dict ParameterValue
  pub semantic_faces : List String
  pub enabled : Bool
  pub generated_by : String
  pub notes : String

pub record ObjectNode : Type 0 where
  pub uri : String
  pub parent_uri : Option String
  pub name : String
  pub kind : String
  pub description : String
  pub quantity : Float
  pub revision : String
  pub parameters : Dict ParameterValue
  pub features : List FeatureSpec
  pub manufacturing : Json
  pub inclusion : Json
  pub artifact_uris : List String
  pub tags : List String
  pub metadata : Dict Json

pub record ArtifactRecord : Type 0 where
  pub uri : String
  pub name : String
  pub kind : String
  pub path : String
  pub media_type : String
  pub object_uri : Option String
  pub revision : String
  pub sha256 : Option String
  pub size_bytes : Option ℤ
  pub generated : Bool
  pub source : Bool
  pub downloadable : Bool
  pub created_at : Instant
  pub metadata : Dict Json

pub data AnnotationStatus : Type 0 where
  «open» resolved rejected : AnnotationStatus

pub record Annotation : Type 0 where
  pub uri : String
  pub selection : Json
  pub text : String
  pub status : AnnotationStatus
  pub created_by : String
  pub created_at : Instant
