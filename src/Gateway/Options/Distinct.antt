-- ===== src/Gateway/Options/Distinct.antt =====
-- No component is configured twice.
use stellarmesh_sdk.Base.{
  subst, ℕ, suc, ◌≡◌, refl, sym, ◌∙◌, ap, true, false, List, [], ◌∷◌, Option, none, some, Result,
  ok, err, refuse, >>=-eq-ok,
}
use stellarmesh_sdk.Text.{Text, has_text}
use stellarmesh_sdk.Text.Laws.{In, In→has_text}
use stellarmesh_sdk.Gateway.ClientIp.{Netip, with_trusted_proxies}
use stellarmesh_sdk.Gateway.Options.{
  GatewayConfig, NewError, Setting, given, with_routes, with_upstreams, with_request_id, with_cors,
  without_access_log, with_slog_access_logger, with_health, with_observer, with_authenticator,
  with_proxies, with_route_resolver, with_upstream_resolver, with_transport, with_authorizer,
  with_before_proxy_policy, with_client_ip_resolver, with_client_ip_limiter, with_user_limiter,
  with_upstream_limiter, with_error_responder, with_access_logger, component_name, authenticated_by,
  one_extractor, behind_proxies, configure, apply_setting, apply_settings,
}

-- No two names are the same.
abbrev pub AllDifferent : List Text → Type 0
AllDifferent [] = Unit
AllDifferent (t ∷ ts) = ¬ In t ts × AllDifferent ts

-- The names of the components that the options configure, the last one first.
abbrev pub names_after : List (Option Setting) → List Text → List Text
names_after [] names = names
names_after (none ∷ ss) names = names_after ss names
names_after (some s ∷ ss) names = names_after ss (component_name s ∷ names)

kept :
    (x d : GatewayConfig)
    → ◌≡◌ {A = Result NewError GatewayConfig} (ok x) (ok d)
    → d.configured_components ≡ x.configured_components
kept x d e = ap (λ y. y.configured_components) (sym (ok-inj x d e))
  where
    ok-inj : (x d : GatewayConfig) → ◌≡◌ {A = Result NewError GatewayConfig} (ok x) (ok d) → x ≡ d
    ok-inj x d e = cc

given-names {ℓ} :
    {A : Type ℓ} (a : Option A) (put : A → GatewayConfig) (c d : GatewayConfig)
    → ((a : A) → (put a).configured_components ≡ c.configured_components)
    → given a put ≡ ok d
    → d.configured_components ≡ c.configured_components
given-names none put c d same e = cc
given-names (some a) put c d same e = kept (put a) d e ∙ same a

module _ (n : Netip) where
  behind-names :
      (ps : Option (List n.Prefix)) (c d : GatewayConfig)
      → behind_proxies n c ps ≡ ok d
      → d.configured_components ≡ c.configured_components
  unfolding behind_proxies
  behind-names none c d e = cc
  behind-names (some ps) c d e = kept _ d e

  configure-names :
      (s : Setting) (c d : GatewayConfig)
      → configure n s c ≡ ok d
      → d.configured_components ≡ c.configured_components
  unfolding configure authenticated_by one_extractor behind_proxies
  configure-names (with_routes rs) c d e = kept _ d e
  configure-names (with_upstreams us) c d e = kept _ d e
  configure-names (with_request_id r) c d e = kept _ d e
  configure-names (with_cors cors) c d e = kept _ d e
  configure-names without_access_log c d e = kept _ d e
  configure-names (with_slog_access_logger l) c d e = kept _ d e
  configure-names (with_observer true) c d e = kept _ d e
  configure-names (with_health h) c d e = kept _ d e
  configure-names (with_route_resolver a) c d e = given-names a _ c d (λ _. refl) e
  configure-names (with_upstream_resolver a) c d e = given-names a _ c d (λ _. refl) e
  configure-names (with_transport a) c d e = given-names a _ c d (λ _. refl) e
  configure-names (with_authorizer a) c d e = given-names a _ c d (λ _. refl) e
  configure-names (with_before_proxy_policy a) c d e = given-names a _ c d (λ _. refl) e
  configure-names (with_client_ip_resolver a) c d e = given-names a _ c d (λ _. refl) e
  configure-names (with_client_ip_limiter a) c d e = given-names a _ c d (λ _. refl) e
  configure-names (with_user_limiter a) c d e = given-names a _ c d (λ _. refl) e
  configure-names (with_upstream_limiter a) c d e = given-names a _ c d (λ _. refl) e
  configure-names (with_error_responder a) c d e = given-names a _ c d (λ _. refl) e
  configure-names (with_access_logger a) c d e = given-names a _ c d (λ _. refl) e
  configure-names (with_observer false) c d e = cc
  configure-names (with_authenticator none es) c d e = cc
  configure-names (with_authenticator (some a) es) c d e =
      let (extractor, _, e') = >>=-eq-ok (one_extractor es) _ e in kept _ d e'
  configure-names (with_proxies cidrs) c d e = behind-names (with_trusted_proxies n cidrs) c d e

  apply_setting-AllDifferent :
      (s : Setting) (c d : GatewayConfig)
      → apply_setting n s c ≡ ok d
      → AllDifferent c.configured_components
      → AllDifferent d.configured_components
        × (d.configured_components ≡ component_name s ∷ c.configured_components)
  unfolding apply_setting
  apply_setting-AllDifferent s c d e h =
      let (_, new, e') = >>=-eq-ok _ _ e in
      let names = configure-names s _ d e' in
      (subst AllDifferent (sym names) (fresh _ _ _ new, h), names)
    where
      fresh :
          (names : List Text) (name : Text) (x : NewError)
          → refuse (has_text names name) x ≡ ok tt
          → ¬ In name names
      fresh names name x e held =
          allowed (subst (λ b. refuse b x ≡ ok tt) (In→has_text names name held) e)
        where
          allowed : ¬ (◌≡◌ {A = Result NewError (Unit {0})} (err x) (ok tt))
          allowed e = cc

-- Options that are applied without an error to a configuration whose component names differ leave
-- them pairwise different, and the configuration holds the names of all the options.
pub apply_settings-AllDifferent :
    (n : Netip) (index : ℕ) (ss : List (Option Setting)) (c d : GatewayConfig)
    → apply_settings n index ss c ≡ ok d
    → AllDifferent c.configured_components
    → AllDifferent d.configured_components
      × (d.configured_components ≡ names_after ss c.configured_components)
unfolding apply_settings
apply_settings-AllDifferent n index [] c d e h =
    let same : c ≡ d = cc in
    (
      subst (λ x. AllDifferent x.configured_components) same h,
      ap (λ x. x.configured_components) (sym same),
    )
apply_settings-AllDifferent n index (none ∷ ss) c d e h = cc
apply_settings-AllDifferent n index (some s ∷ ss) c d e h =
    let (c', one, rest) = >>=-eq-ok (apply_setting n s c) _ e in
    let (different, names) = apply_setting-AllDifferent n s c c' one h in
    let (all, names') = apply_settings-AllDifferent n (suc index) ss c' d rest different in
    (all, names' ∙ ap (names_after ss) names)
