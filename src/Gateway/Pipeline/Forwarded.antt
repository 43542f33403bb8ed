-- ===== src/Gateway/Pipeline/Forwarded.antt =====
-- The headers of the request that the upstream is given.
use stellarmesh_sdk.Base.{◌≡◌, refl, ◌∙◌, ap, Option, none, some, arith}
use stellarmesh_sdk.Text.{Text}
use stellarmesh_sdk.Gateway.Header.{Header, set, del}
use stellarmesh_sdk.Gateway.Types.{Identity, Request, Route}
use stellarmesh_sdk.Gateway.AccessLog.{Exchange}
use stellarmesh_sdk.Gateway.Flow.{next}
use stellarmesh_sdk.Gateway.Authenticate.{strip_and_inject_identity}
use stellarmesh_sdk.Gateway.Authenticate.Headers.{identity_values, strip_and_inject_identity-at}
use stellarmesh_sdk.Gateway.Pipeline.{Gateway, Handler, admit}
use stellarmesh_sdk.Gateway.Pipeline.Admission.{identified, routed, located, known, bounded}
use stellarmesh_sdk.Gateway.Pipeline.Admitted.{Admitted, admit-Admitted}

bounded-header : (route : Route) (r : Request) → (bounded route r).header ≡ r.header
bounded-header route r = ground arith

known-header : (i : Option Identity) (r : Request) → (known i r).header ≡ r.header
known-header none r = refl
known-header (some i) r = refl

module _ {g : Gateway} {r out : Request} {h : Handler} where
  Admitted-header :
      (a : Admitted g r h out)
      → out.header ≡ strip_and_inject_identity (identified g a.id r).header a.identity
  Admitted-header a =
      ap (λ (q : Request). q.header) a.forwarded
      ∙ (bounded-header a.route _
          ∙ ap (λ hd. strip_and_inject_identity hd a.identity)
              (known-header a.identity (located a.ip (routed a.route (identified g a.id r)))))

  Admitted-identity :
      (a : Admitted g r h out) (field : Text)
      → out.header field
        ≡ identity_values
            (set (del r.header g.request_id.header) g.request_id.header a.id)
            field
            a.identity
  Admitted-identity a field =
      ap (λ (hd : Header). hd field) (Admitted-header a)
      ∙ strip_and_inject_identity-at _ field a.identity

-- A request that the pipeline lets pass reaches the upstream with the two identity fields as the
-- gateway set them for the identity that it established, empty for nobody, whatever the client
-- sent; the field of the request ID as the gateway assigned it, unless it is one of those two; and
-- every other field as the client sent it.
pub admit-identity_values :
    (g : Gateway) (x y : Exchange) (h : Handler)
    → admit g x ≡ next h y
    → (a : Admitted g x.request h y.request) × ((field : Text)
        → y.request.header field
          ≡ identity_values
              (set (del x.request.header g.request_id.header) g.request_id.header a.id)
              field
              a.identity)
admit-identity_values g x y h e =
    let a = admit-Admitted g x y h e in (a, λ field. Admitted-identity a field)
