-- ===== src/Uri.antt =====
-- src/twinstudio/uri.py: addresses of product objects. `quote`, `unquote` and `urlparse` of Python's library
-- are arguments; texts of errors are cut before the values that are interpolated.
pub mod Scope
use Prim.Native.String.{◌++◌}
use twinstudio.Base.{
  String, Bool, true, false, not, ◌&&◌, ◌||◌, none, some, List, [], ◌∷◌, any, length, take, select,
  map, Result, ok, err, ◌>>=◌, ◌>>◌, raise_if, or_raise, value_error, ◌==◌, if◌then◌else◌,
}
use mathlib.Core.List
use twinstudio.Base.Text.{lower}
use twinstudio.Base.Letters.{contains, split, rsplit_at}

-- `urlparse(value)`: the parts that are read
pub record ParsedUrl : Type 0 where
  pub scheme : String
  pub netloc : String
  pub path : String

-- `quote(text, safe=...)`, `unquote(text)` and `urlparse(text)`
pub record UrlLibrary : Type 0 where
  pub quote : String → String → String
  pub unquote : String → String
  pub urlparse : String → Result ParsedUrl

pub record PoaUri : Type 0 where
  pub tenant : String
  pub project : String
  pub revision : String
  pub segments : List String

-- one of the checks of `__post_init__`
abbrev pub is_bad_name : String → Bool
unfolding contains
is_bad_name value =
    value == ""
    || contains "/" value
    || contains "@" value
    || contains "?" value
    || contains "#" value

abbrev pub is_bad_segment : String → Bool
unfolding contains
is_bad_segment segment = segment == "" || contains "/" segment

-- `PoaUri(...)`, with its `__post_init__`
unfoldable pub poa_uri : String → String → String → List String → Result PoaUri
unfolding contains
poa_uri tenant project revision segments = do
  raise_if (is_bad_name tenant) (value_error "Invalid tenant")
  raise_if (is_bad_name project) (value_error "Invalid project")
  raise_if (is_bad_name revision) (value_error "Invalid revision")
  raise_if (any is_bad_segment segments) (value_error "POA segments must be non-empty path atoms")
  ok record { tenant = tenant; project = project; revision = revision; segments = segments }

-- `"/".join(...)`
abbrev pub join_path : List String → String
join_path [] = ""
join_path (s ∷ []) = s
join_path (s ∷ t ∷ rest) = s ++ "/" ++ join_path (t ∷ rest)

abbrev pub canonical_base : UrlLibrary → PoaUri → String
canonical_base urls uri =
    "poa://"
    ++ urls.quote "" uri.tenant
    ++ "/"
    ++ urls.quote "" uri.project
    ++ "@"
    ++ urls.quote "" uri.revision

abbrev pub canonical : UrlLibrary → PoaUri → String
canonical urls uri = elim uri.segments [
  | [] ↦ canonical_base urls uri
  | s ∷ rest ↦ canonical_base urls uri ++ "/" ++ join_path (map (urls.quote "._:-") (s ∷ rest))
]

abbrev pub child : PoaUri → List String → Result PoaUri
child uri segments = poa_uri uri.tenant uri.project uri.revision (List.◌++◌ uri.segments segments)

abbrev pub with_revision : String → PoaUri → Result PoaUri
with_revision revision uri = poa_uri uri.tenant uri.project revision uri.segments

-- `==` on tuples of texts
abbrev pub same_texts : List String → List String → Bool
same_texts [] [] = true
same_texts (s ∷ ss) (t ∷ ts) = s == t && same_texts ss ts
same_texts _ _ = false

abbrev pub is_ancestor_of : Bool → PoaUri → PoaUri → Bool
is_ancestor_of ignore_revision self other =
    self.tenant == other.tenant
    && self.project == other.project
    && (ignore_revision || self.revision == other.revision)
    && same_texts (take (length self.segments) other.segments) self.segments

-- `[unquote(atom) for atom in path.split("/") if atom]`
abbrev pub atoms_of : UrlLibrary → String → List String
unfolding split
atoms_of urls path = map urls.unquote (select (λ atom. not (atom == "")) (split "/" path))

-- `project, revision = atoms[0].rsplit("@", 1)`
abbrev pub head_atom : List String → Result (String × String)
unfolding rsplit_at
head_atom [] = err (value_error "POA URI path must begin with project@revision")
head_atom (atom ∷ atoms) =
    or_raise (rsplit_at "@" atom) (value_error "POA URI path must begin with project@revision")

abbrev pub rest_of : List String → List String
rest_of [] = []
rest_of (atom ∷ atoms) = atoms

unfoldable pub parse_poa_uri : UrlLibrary → String → Result PoaUri
unfolding poa_uri lower split rsplit_at
parse_poa_uri urls value = do
  parsed ← urls.urlparse value
  raise_if (not (lower parsed.scheme == "poa")) (value_error "POA URI must use the poa:// scheme")
  raise_if (parsed.netloc == "") (value_error "POA URI requires a tenant authority")
  (project, revision) ← head_atom (atoms_of urls parsed.path)
  poa_uri (urls.unquote parsed.netloc) project revision (rest_of (atoms_of urls parsed.path))

abbrev pub build_poa_uri : UrlLibrary → String → String → String → List String → Result String
build_poa_uri urls tenant project revision segments = do
  uri ← poa_uri tenant project revision segments
  ok (canonical urls uri)

-- the scopes, up to the first that contains the target
abbrev pub any_contains : UrlLibrary → Bool → PoaUri → List String → Result Bool
any_contains urls ignore_revision target [] = ok false
any_contains urls ignore_revision target (scope ∷ scopes) = do
  ref ← parse_poa_uri urls scope
  let rest = any_contains urls ignore_revision target scopes in
      if is_ancestor_of ignore_revision ref target then ok true else rest

unfoldable pub is_within_scope : UrlLibrary → String → List String → Bool → Result Bool
unfolding parse_poa_uri
is_within_scope urls target_uri scope_uris ignore_revision = do
  target ← parse_poa_uri urls target_uri
  any_contains urls ignore_revision target scope_uris
