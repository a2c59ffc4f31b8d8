-- ===== src/Mcp/Era.antt =====
-- What a request that passes the checks looks like, and how it is classified.
use twinstudio.Base.{
  String, ◌≡◌, ◌⊎◌, refl, ap, ◌∙◌, true, inl, inr, Option, some, Option-cases, arith,
}
use twinstudio.Base.Dict.{Dict, get}
use twinstudio.Base.Json.{Json}
use twinstudio.Mcp.{
  McpHttpError, Checked, pass, refuse, ◌>>=◌, ◌>>◌, demand, mapping, request_meta, present, is_text,
  as_mapping, as_text, or_empty, version_header, protocol_version_meta, has_version, check_version,
  classify_mcp_era, validate_modern_http_request, invalid_request, header_mismatch, is_given,
  version_text, params_needed, meta_needed, checks_after,
}

Checked-cases {ℓ} :
    {A : Type ℓ} (c : Checked A) → ((a : A) × (c ≡ pass a)) ⊎ ((e : McpHttpError) × (c ≡ refuse e))
Checked-cases (pass a) = inl (a, refl)
Checked-cases (refuse e) = inr (e, refl)

mapping_of :
    (o : Option Json) (e : McpHttpError) (d : Dict Json) → as_mapping o e ≡ pass d → mapping o ≡ d
mapping_of o e d h = ground arith

module _ (text_of : Json → String) where
  check_version_has :
      (meta : Dict Json) (headers : Dict String) (u : Unit {0})
      → check_version text_of meta headers ≡ pass u
      → (value : Json) × (present (get protocol_version_meta meta) ≡ some value)
  unfolding check_version
  check_version_has meta headers u h =
      elim (Option-cases (present (get protocol_version_meta meta))) [
        | inr (value, found) ↦ (value, found)
        | inl missing ↦
            elim (Checked-cases (
              or_empty (version_header headers)
                (header_mismatch "Header mismatch: MCP-Protocol-Version header is required"))) [
                  | inl (version, given) ↦ let k = rw (given, missing) at h in cc
                  | inr (e, absent) ↦ let k = rw absent at h in cc
                ]
      ]

  -- metadata with a version is a version in the body, whatever the payload is besides
  version_in_body :
      (payload params meta : Dict Json) (value : Json)
      → mapping (get "params" payload) ≡ params
      → mapping (get "_meta" params) ≡ meta
      → present (get protocol_version_meta meta) ≡ some value
      → has_version text_of payload ≡ true
  version_in_body payload params meta value p m v =
      let same : request_meta payload ≡ meta = ap (λ d. mapping (get "_meta" d)) p ∙ m in
      let found : present (get protocol_version_meta (request_meta payload)) ≡ some value =
        ap (λ d. present (get protocol_version_meta d)) same ∙ v in
      ap (λ o. is_given (version_text text_of o)) found

  modern_by_body :
      (payload : Dict Json) (headers : Dict String)
      → has_version text_of payload ≡ true
      → classify_mcp_era text_of payload headers ≡ "modern"
  unfolding classify_mcp_era
  modern_by_body payload headers h = ground (arith, h)

  module _ (decode : String → Option String) where
    -- the checks after the method
    with_params :
        (payload : Dict Json) (headers : Dict String) (method : String)
        → (as_mapping (get "params" payload) params_needed >>= λ params.
            as_mapping (get "_meta" params) meta_needed >>= λ meta.
            check_version text_of meta headers >> checks_after decode params meta headers method)
          ≡ pass tt
        → classify_mcp_era text_of payload headers ≡ "modern"
    with_params payload headers method h =
        elim (Checked-cases (as_mapping (get "params" payload) params_needed)) [
          | inr (e, failed) ↦ let k = rw failed at h in cc
          | inl (params, p) ↦
              let h1 = rw p at h in
              elim (Checked-cases (as_mapping (get "_meta" params) meta_needed)) [
                | inr (e, failed) ↦ let k = rw failed at h1 in cc
                | inl (meta, m) ↦
                    let h2 = rw m at h1 in
                    elim (Checked-cases (check_version text_of meta headers)) [
                      | inr (e, failed) ↦ let k = rw failed at h2 in cc
                      | inl (u, versioned) ↦
                          let (value, found) = check_version_has meta headers u versioned in
                          modern_by_body payload headers (
                            version_in_body payload params meta value
                              (mapping_of (get "params" payload) params_needed params p)
                              (mapping_of (get "_meta" params) meta_needed meta m) found)
                    ]
              ]
        ]

    -- A request that passes the checks of a modern request is classified as modern.
    pub validated_modern :
        (payload : Dict Json) (headers : Dict String)
        → validate_modern_http_request text_of decode payload headers ≡ pass tt
        → classify_mcp_era text_of payload headers ≡ "modern"
    unfolding validate_modern_http_request
    validated_modern payload headers h =
        elim (Checked-cases (demand (is_text "2.0" (get "jsonrpc" payload)) invalid_request)) [
          | inr (e, failed) ↦ let k = rw failed at h in cc
          | inl (_, rpc) ↦
              let h1 = rw rpc at h in
              elim (Checked-cases (as_text (get "method" payload) invalid_request)) [
                | inr (e, failed) ↦ let k = rw failed at h1 in cc
                | inl (method, named) ↦ with_params payload headers method (rw named at h1)
              ]
        ]
