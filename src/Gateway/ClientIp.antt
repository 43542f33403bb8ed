-- ===== src/Gateway/ClientIp.antt =====
-- sdk/go/gateway/client_ip.go: the client's address behind trusted proxies. The addresses and
-- prefixes of net/netip, and `net.SplitHostPort`, are parameters.
pub mod Reads
pub mod Origin
use stellarmesh_sdk.Base.{
  Bool, false, ◌||◌, List, [], ◌∷◌, Option, none, some, reverse, if◌then◌else◌, Result, ok, err,
}
use mathlib.Core.Option
use stellarmesh_sdk.Text.{Text, ascii, trim_space, split}
use stellarmesh_sdk.Gateway.Header.{get}
use stellarmesh_sdk.Gateway.Types.{Request}
use stellarmesh_sdk.Gateway.Route.{is_empty}

pub record Netip : Type 1 where
  pub Addr : Type 0
  pub Prefix : Type 0
  pub parse_addr : Text → Option Addr
  pub unmap : Addr → Addr
  pub to_text : Addr → Text
  pub parse_prefix : Text → Option Prefix
  pub masked : Prefix → Prefix
  pub contains : Prefix → Addr → Bool
  -- The host of `net.SplitHostPort`, and whether `net.ParseIP` reads an address.
  pub split_host : Text → Option Text
  pub is_ip : Text → Bool

pub data ClientIpError : Type 0 where
  invalid_remote invalid_real_ip invalid_forwarded : ClientIpError

module _ (n : Netip) where
  open n use {
    Addr, Prefix, parse_addr, unmap, to_text, parse_prefix, masked, contains, split_host, is_ip,
  }

  -- The loop of `WithTrustedProxies`; `none` is the error that it returns.
  compile_prefixes : List Text → Option (List Prefix)
  compile_prefixes [] = some []
  compile_prefixes (c ∷ cs) = elim (parse_prefix (trim_space c)) [
    | none ↦ none
    | some p ↦ Option.map (λ ps. masked p ∷ ps) (compile_prefixes cs)
  ]

  -- `WithTrustedProxies`.
  unfoldable pub with_trusted_proxies : List Text → Option (List Prefix)
  unfolding compile_prefixes
  with_trusted_proxies [] = none
  with_trusted_proxies (c ∷ cs) = compile_prefixes (c ∷ cs)

  -- `trusted`.
  unfoldable pub trusted : List Prefix → Addr → Bool
  trusted [] a = false
  trusted (p ∷ ps) a = contains p a || trusted ps a

  host_or : Option Text → Text → Text
  host_or none whole = whole
  host_or (some host) whole = host

  -- `parseRemoteAddr`.
  unfoldable pub parse_remote_addr : Text → Option Addr
  unfolding host_or
  parse_remote_addr remote =
      Option.map unmap (parse_addr (host_or (split_host (trim_space remote)) (trim_space remote)))

  unfoldable pub parse_chain : List Text → Option (List Addr)
  parse_chain [] = some []
  parse_chain (part ∷ parts) = elim (parse_addr (trim_space part)) [
    | none ↦ none
    | some a ↦ Option.map (λ chain. unmap a ∷ chain) (parse_chain parts)
  ]

  -- The loop from the nearest hop, on the reversed chain; the farthest hop if all are trusted.
  unfoldable pub nearest_untrusted : List Prefix → List Addr → Option Addr
  nearest_untrusted ps [] = none
  nearest_untrusted ps (a ∷ []) = some a
  nearest_untrusted ps (a ∷ b ∷ chain) =
      let rest = nearest_untrusted ps (b ∷ chain) in if trusted ps a then rest else some a

  text_or : Option Addr → ClientIpError → Result ClientIpError Text
  text_or none e = err e
  text_or (some a) e = ok (to_text a)

  from_real_ip : Addr → Text → Result ClientIpError Text
  unfolding text_or
  from_real_ip remote [] = ok (to_text remote)
  from_real_ip remote (c ∷ s) = text_or (Option.map unmap (parse_addr (c ∷ s))) invalid_real_ip

  from_chain : List Prefix → Option (List Addr) → Result ClientIpError Text
  unfolding text_or
  from_chain ps none = err invalid_forwarded
  from_chain ps (some chain) = text_or (nearest_untrusted ps (reverse chain)) invalid_forwarded

  -- The headers of a trusted peer.
  forwarded_for : List Prefix → Addr → Request → Result ClientIpError Text
  unfolding from_real_ip from_chain
  forwarded_for ps remote r =
      let forwarded = trim_space (get r.header (ascii "X-Forwarded-For")) in
      if is_empty forwarded
      then from_real_ip remote (trim_space (get r.header (ascii "X-Real-IP")))
      else from_chain ps (parse_chain (split forwarded b','))

  -- `trustedProxyResolver.Resolve`.
  unfoldable pub resolve_client_ip : List Prefix → Request → Result ClientIpError Text
  unfolding forwarded_for
  resolve_client_ip ps r = elim (parse_remote_addr r.remote_addr) [
    | none ↦ err invalid_remote
    | some remote ↦ if trusted ps remote then forwarded_for ps remote r else ok (to_text remote)
  ]

  -- `resolveRemoteAddr`, the resolver without a configuration.
  unfoldable pub resolve_remote_addr : Request → Result ClientIpError Text
  resolve_remote_addr r = elim (split_host (trim_space r.remote_addr)) [
    | some host ↦ ok host
    | none ↦
        if is_ip (trim_space r.remote_addr)
        then ok (trim_space r.remote_addr)
        else err invalid_remote
  ]
