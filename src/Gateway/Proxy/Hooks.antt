-- ===== src/Gateway/Proxy/Hooks.antt =====
-- The identifiers of a request on its way through the proxy of sdk/go/gateway/proxy.go.
use stellarmesh_sdk.Base.{
  ◌≡◌, refl, sym, subst, ◌∙◌, some-inj, Option, false, [], ◌∷◌, none, some, if◌then◌else◌,
}
use stellarmesh_sdk.Text.{Text, ascii, ◌==◌}
use stellarmesh_sdk.Text.Laws.{eq→==}
use stellarmesh_sdk.Gateway.Header.{Header, canonical_header_key, values, values-put, set, del}
use stellarmesh_sdk.Gateway.Types.{Request}
use stellarmesh_sdk.Gateway.Cors.{ParsedUrl}
use stellarmesh_sdk.Gateway.Proxy.{Httputil, Outgoing, set_known, rewrite, modify_response}

values-set_known :
    (o : Option Text) (v name field : Text) (out : Outgoing)
    → o ≡ some v
    → values (set_known o name out).header field ≡ (
        if canonical_header_key name == canonical_header_key field
        then v ∷ []
        else values out.header field)
unfolding set_known set
values-set_known none v name field out e = cc
values-set_known (some w) v name field out e =
    subst
      (λ w. values (set out.header name w) field ≡ (
        if canonical_header_key name == canonical_header_key field
        then v ∷ []
        else values out.header field))
      (sym (some-inj e)) (values-put out.header name field (v ∷ []))

-- Where the request has a request ID and a client address and the header of the request ID is not
-- X-Forwarded-For, the outgoing request has exactly the request ID under its header and exactly
-- the address under X-Forwarded-For, whatever the client sent and httputil added, and no value of
-- the request ID's header is left of the backend's response.
pub rewrite-values :
    (h : Httputil) (target : ParsedUrl) (name : Text) (r : Request) (out : Outgoing)
    (request_id ip : Text) (back : Header)
    → r.context.request_id ≡ some request_id
    → r.context.client_ip ≡ some ip
    → (canonical_header_key name == canonical_header_key (ascii "X-Forwarded-For")) ≡ false
    → (values (rewrite h target name r out).header name ≡ request_id ∷ [])
      × (values (rewrite h target name r out).header (ascii "X-Forwarded-For") ≡ ip ∷ [])
      × (values (modify_response name back) name ≡ [])
unfolding rewrite modify_response del
rewrite-values h target name r out request_id ip back is_id is_ip apart =
    let forwarded = h.set_x_forwarded r (record (h.set_url target out) { host = target.host }) in
    let far = ascii "X-Forwarded-For" in
    let out' = set_known r.context.client_ip far forwarded in
    (
      values-set_known r.context.request_id request_id name name out' is_id
          ∙ rw (eq→== (canonical_header_key name) (canonical_header_key name) refl) refl,
      values-set_known r.context.request_id request_id name far out' is_id
          ∙ rw apart (
              values-set_known r.context.client_ip ip far far forwarded is_ip
              ∙ rw (eq→== (canonical_header_key far) (canonical_header_key far) refl) refl),
      values-put back name name []
          ∙ rw (eq→== (canonical_header_key name) (canonical_header_key name) refl) refl,
    )
