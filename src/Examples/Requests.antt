-- ===== src/Examples/Requests.antt =====
-- The theorems on requests, applied.
use twinstudio.Base.{String, ◌≡◌, refl, Option, some, [], ◌∷◌}
use twinstudio.Base.Dict.{Dict}
use twinstudio.Base.Json.{Json, str, obj, end, of_fields}
use twinstudio.Mcp.{
  protocol_version_meta, client_capabilities_meta, classify_mcp_era, validate_modern_http_request,
}
use twinstudio.Mcp.Era.{validated_modern}

abbrev as_text : Json → String
as_text (str s) = s
as_text _ = ""

abbrev keep : String → Option String
keep s = some s

abbrev meta : Dict Json
meta = (protocol_version_meta, str "2026-07-28") ∷ (client_capabilities_meta, obj end) ∷ []

abbrev payload : Dict Json
payload =
    ("jsonrpc", str "2.0")
    ∷ ("method", str "tools/call")
    ∷ ("params", obj (of_fields (("name", str "tree") ∷ ("_meta", obj (of_fields meta)) ∷ [])))
    ∷ []

abbrev headers : Dict String
headers =
    ("MCP-Protocol-Version", "2026-07-28")
    ∷ ("Mcp-Method", "tools/call")
    ∷ ("Mcp-Name", "tree")
    ∷ []

validated_modern_example : classify_mcp_era as_text payload headers ≡ "modern"
unfolding validate_modern_http_request
validated_modern_example = validated_modern as_text keep payload headers refl
