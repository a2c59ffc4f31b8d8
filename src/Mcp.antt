-- ===== src/Mcp.antt =====
-- src/twinstudio/mcp_protocol.py: the checks of a request of the Model Context Protocol. The Base64 decoder and
-- `str` on JSON values are arguments; messages are cut before the values that are interpolated.
pub mod Era
use twinstudio.Base.{
  ℕ, String, Bool, true, false, not, ◌&&◌, ◌||◌, Option, none, some, List, [], ◌∷◌, any, ◌==◌,
  if◌then◌else◌,
}
use twinstudio.Base.Text.{starts_with, ends_with, skip, without_last_two}
use twinstudio.Base.Dict.{Dict, get, put, set_default}
use twinstudio.Base.Json.{
  Json, ℤ, pos, negsuc, null, int, str, arr, obj, nil, cons, fields, of_fields, truthy,
}

abbrev pub modern_protocol_version : String
modern_protocol_version = "2026-07-28"

abbrev pub supported_modern_versions : List String
supported_modern_versions = modern_protocol_version ∷ []

abbrev pub protocol_version_meta : String
protocol_version_meta = "io.modelcontextprotocol/protocolVersion"

abbrev pub client_capabilities_meta : String
client_capabilities_meta = "io.modelcontextprotocol/clientCapabilities"

abbrev pub server_info_meta : String
server_info_meta = "io.modelcontextprotocol/serverInfo"

abbrev pub server_info : Dict Json
server_info = ("name", str "twinstudio") ∷ ("version", str "0.5.0") ∷ []

pub record McpHttpError : Type 0 where
  pub status_code : ℕ
  pub code : ℤ
  pub message : String
  pub detail : Option Json

-- A call that returns or raises an `McpHttpError`.
pub data Checked {ℓ} (A : Type ℓ) : Type ℓ where
  pass : A → Checked A
  refuse : McpHttpError → Checked A

module _ {ℓ κ} {A : Type ℓ} {B : Type κ} where
  infixl 5 ◌>>=◌
  abbrev pub ◌>>=◌ : Checked A → (A → Checked B) → Checked B
  refuse e >>= next = refuse e
  pass a >>= next = next a

infixl 5 ◌>>◌
abbrev pub ◌>>◌ {ℓ} : {B : Type ℓ} → Checked (Unit {0}) → Checked B → Checked B
check >> rest = check >>= λ _. rest

abbrev pub error : ℕ → String → McpHttpError
error n message = record { status_code = 400; code = negsuc n; message = message; detail = none }

-- `if not test: raise e`
abbrev pub demand : Bool → McpHttpError → Checked (Unit {0})
demand true e = pass tt
demand false e = refuse e

abbrev pub invalid_request : McpHttpError
invalid_request = error 32599 "Invalid Request: expected a JSON-RPC 2.0 request"

abbrev pub invalid_params : String → McpHttpError
invalid_params message = error 32601 message

abbrev pub header_mismatch : String → McpHttpError
header_mismatch message = error 32019 message

abbrev with_detail : Option Json → Dict Json → Dict Json
with_detail none d = d
with_detail (some x) d = put "data" x d

-- `McpHttpError.as_response`
unfoldable pub as_response : McpHttpError → Json → Dict Json
as_response e request_id =
    let full = with_detail e.detail (("code", int e.code) ∷ ("message", str e.message) ∷ []) in
    ("jsonrpc", str "2.0") ∷ ("id", request_id) ∷ ("error", obj (of_fields full)) ∷ []

-- `value or {}`, and `{}` for what is no mapping
abbrev pub mapping : Option Json → Dict Json
mapping (some (obj fs)) = fields fs
mapping _ = []

abbrev pub request_params : Dict Json → Dict Json
request_params payload = mapping (get "params" payload)

abbrev pub request_meta : Dict Json → Dict Json
request_meta payload = mapping (get "_meta" (request_params payload))

-- a value that is there and not `None`
abbrev pub present : Option Json → Option Json
present (some null) = none
present o = o

abbrev pub is_text : String → Option Json → Bool
is_text text (some (str s)) = s == text
is_text text _ = false

-- `headers.get(a) or headers.get(b)`
abbrev either : Option String → Option String → Option String
either (some a) b = if a == "" then b else some a
either none b = b

abbrev pub header : String → String → Dict String → Option String
header a b headers = either (get a headers) (get b headers)

abbrev pub version_header : Dict String → Option String
version_header headers = header "MCP-Protocol-Version" "mcp-protocol-version" headers

abbrev pub is_modern : Option String → Bool
is_modern none = false
is_modern (some version) = version == modern_protocol_version

-- `value is not None`
abbrev pub is_given : Option String → Bool
is_given none = false
is_given (some _) = true

abbrev pub or_refuse {ℓ} : {A : Type ℓ} → Option A → McpHttpError → Checked A
or_refuse none e = refuse e
or_refuse (some a) e = pass a

-- a header that is there and not empty
abbrev pub or_empty : Option String → McpHttpError → Checked String
or_empty none e = refuse e
or_empty (some s) e = if s == "" then refuse e else pass s

abbrev pub as_mapping : Option Json → McpHttpError → Checked (Dict Json)
as_mapping (some (obj fs)) e = pass (fields fs)
as_mapping _ e = refuse e

abbrev pub as_text : Option Json → McpHttpError → Checked String
as_text (some (str s)) e = pass s
as_text _ e = refuse e

-- the methods whose target is mirrored in a header, with the parameter that names it
abbrev pub name_parameter : String → Option String
name_parameter method =
    if method == "tools/call"
    then some "name"
    else if method == "resources/read"
    then some "uri"
    else if method == "prompts/get"
    then some "name"
    else none

module _ (text_of : Json → String) where
  abbrev pub version_text : Option Json → Option String
  version_text none = none
  version_text (some value) = some (text_of value)

  abbrev pub body_protocol_version : Dict Json → Option String
  body_protocol_version payload =
      version_text (present (get protocol_version_meta (request_meta payload)))

  abbrev pub has_version : Dict Json → Bool
  has_version payload = is_given (body_protocol_version payload)

  unfoldable pub classify_mcp_era : Dict Json → Dict String → String
  classify_mcp_era payload headers =
      let method = get "method" payload in
      let modern_header = is_modern (version_header headers) in
      if is_text "initialize" method && not (has_version payload) && not modern_header
      then "legacy"
      else if is_text "server/discover" method || has_version payload || modern_header
      then "modern"
      else "legacy"

  -- the versions of the header and of the body
  unfoldable pub check_version : Dict Json → Dict String → Checked (Unit {0})
  check_version meta headers = do
    version ←
        or_empty (version_header headers)
          (header_mismatch "Header mismatch: MCP-Protocol-Version header is required")
    value ←
        or_refuse (present (get protocol_version_meta meta))
          (invalid_params "Invalid params: missing _meta.")
    demand (version == text_of value)
        (header_mismatch "Header mismatch: MCP-Protocol-Version does not match request metadata")
    demand (any (λ v. v == text_of value) supported_modern_versions) (record {
      status_code = 400;
      code = negsuc 32021;
      message = "Unsupported protocol version";
      detail = some (
          obj (
            of_fields (
              ("supported", arr (cons (str modern_protocol_version) nil))
              ∷ ("requested", str (text_of value))
              ∷ [])));
    })

module _ (decode : String → Option String) where
  unfoldable pub decode_mcp_header_value : String → Checked String
  unfolding starts_with ends_with skip without_last_two
  decode_mcp_header_value value =
      if starts_with "=?base64?" value && ends_with "?=" value
      then or_refuse (decode (without_last_two (skip 9 value)))
          (header_mismatch "Header mismatch: malformed Base64 MCP header value")
      else pass value

  -- the name that a request's target has in its body, against the header
  unfoldable pub check_name : Dict Json → Dict String → Option String → Checked (Unit {0})
  unfolding decode_mcp_header_value
  check_name params headers none = pass tt
  check_name params headers (some parameter) = do
    name ← as_text (get parameter params) (invalid_params "Invalid params:")
    demand (not (name == "")) (invalid_params "Invalid params:")
    raw ←
        or_refuse (header "Mcp-Name" "mcp-name" headers)
          (header_mismatch "Header mismatch: Mcp-Name header is required")
    decoded ← decode_mcp_header_value raw
    demand (decoded == name)
        (header_mismatch "Header mismatch: Mcp-Name does not match request body")

abbrev pub params_needed : McpHttpError
params_needed = invalid_params "Invalid params: modern MCP requests require an object params field"

abbrev pub meta_needed : McpHttpError
meta_needed = invalid_params "Invalid params: modern MCP requests require params._meta"

module _ (decode : String → Option String) where
  -- the checks of the capabilities, the method and the name
  unfoldable pub checks_after : Dict Json → Dict Json → Dict String → String → Checked (Unit {0})
  unfolding check_name
  checks_after params meta headers method = do
    capabilities ←
        as_mapping (get client_capabilities_meta meta)
          (invalid_params "Invalid params: missing _meta.")
    header_method ←
        or_empty (header "Mcp-Method" "mcp-method" headers)
          (header_mismatch "Header mismatch: Mcp-Method header is required")
    demand (header_method == method)
        (header_mismatch "Header mismatch: Mcp-Method does not match JSON-RPC method")
    check_name decode params headers (name_parameter method)

module _ (text_of : Json → String) (decode : String → Option String) where
  unfoldable pub validate_modern_http_request : Dict Json → Dict String → Checked (Unit {0})
  unfolding checks_after check_version
  validate_modern_http_request payload headers = do
    demand (is_text "2.0" (get "jsonrpc" payload)) invalid_request
    method ← as_text (get "method" payload) invalid_request
    params ← as_mapping (get "params" payload) params_needed
    meta ← as_mapping (get "_meta" params) meta_needed
    check_version text_of meta headers
    checks_after decode params meta headers method
