-- ===== src/Gateway/ClientIp/Origin.antt =====
-- Where the client's address comes from.
use stellarmesh_sdk.Base.{
  err-ne-ok, subst, ◌≡◌, refl, ap, ◌⊎◌, inl, inr, true, false, List, [], ◌∷◌, ◌++◌, Option, none,
  some, reverse, if◌then◌else◌, Result, ok, All, Some, here, there, arith, Bool-cases, Option-cases,
}
use stellarmesh_sdk.Text.{Text, ascii, trim_space, split}
use stellarmesh_sdk.Gateway.Header.{get}
use stellarmesh_sdk.Gateway.Types.{Request}
use stellarmesh_sdk.Gateway.Route.{is_empty}
use stellarmesh_sdk.Gateway.ClientIp.{
  Netip, ClientIpError, invalid_real_ip, invalid_forwarded, trusted, parse_remote_addr, parse_chain,
  nearest_untrusted, text_or, from_real_ip, from_chain, forwarded_for, resolve_client_ip,
}
use stellarmesh_sdk.Gateway.ClientIp.Reads.{
  ReadAll, ReadsPeer, parse_chain-ReadAll, parse_remote_addr-ReadsPeer,
}

-- The trimmed values of the two headers.
abbrev pub forwarded_header : Request → Text
forwarded_header r = trim_space (get r.header (ascii "X-Forwarded-For"))

abbrev pub real_ip_header : Request → Text
real_ip_header r = trim_space (get r.header (ascii "X-Real-IP"))

trusted-IsTrusted :
    (n : Netip) (ps : List n.Prefix) (a : n.Addr)
    → trusted n ps a ≡ true
    → Some (λ p. n.contains p a ≡ true) ps
unfolding trusted
trusted-IsTrusted n [] a h = cc
trusted-IsTrusted n (p ∷ ps) a h = elim (Bool-cases (n.contains p a)) [
  | inl inside ↦ here inside
  | inr outside ↦ there (trusted-IsTrusted n ps a (ground arith))
]

trusted-IsUntrusted :
    (n : Netip) (ps : List n.Prefix) (a : n.Addr)
    → trusted n ps a ≡ false
    → All (λ p. n.contains p a ≡ false) ps
unfolding trusted
trusted-IsUntrusted n [] a h = tt
trusted-IsUntrusted n (p ∷ ps) a h = (ground arith, trusted-IsUntrusted n ps a (ground arith))

module _ (n : Netip) (ps : List n.Prefix) where
  -- A trusted prefix has the address, or none has.
  abbrev pub IsTrusted : n.Addr → Type 0
  IsTrusted a = Some (λ p. n.contains p a ≡ true) ps

  abbrev pub IsUntrusted : n.Addr → Type 0
  IsUntrusted a = All (λ p. n.contains p a ≡ false) ps

  -- The hop of the address is the first from the near end that is not trusted, or, of a chain of
  -- trusted hops, the farthest.
  pub record NearestHop (hops : List n.Addr) (a : n.Addr) : Type 0 where
    pub near : List n.Addr
    pub far : List n.Addr
    pub position : hops ≡ near ++ a ∷ far
    pub near_trusted : All IsTrusted near
    pub stops : IsUntrusted a ⊎ (IsTrusted a × (far ≡ []))

  IsTrusted-cases : (a : n.Addr) → IsTrusted a ⊎ IsUntrusted a
  IsTrusted-cases a = elim (Bool-cases (trusted n ps a)) [
    | inl passed ↦ inl (trusted-IsTrusted n ps a passed)
    | inr stopped ↦ inr (trusted-IsUntrusted n ps a stopped)
  ]

  nearest_untrusted-NearestHop :
      (hops : List n.Addr) (a : n.Addr) → nearest_untrusted n ps hops ≡ some a → NearestHop hops a
  unfolding nearest_untrusted
  nearest_untrusted-NearestHop [] a e = cc
  nearest_untrusted-NearestHop (b ∷ []) a e = record {
    near = [];
    far = [];
    position = cc;
    near_trusted = tt;
    stops = elim (IsTrusted-cases a) [
      | inl passed ↦ inr (passed, refl)
      | inr stopped ↦ inl stopped
    ];
  }
  nearest_untrusted-NearestHop (b ∷ c ∷ hops) a e = elim (Bool-cases (trusted n ps b)) [
    | inl passed ↦
        let hop = nearest_untrusted-NearestHop (c ∷ hops) a (rw (passed, if◌then◌else◌) at e) in
        record {
          near = b ∷ hop.near;
          far = hop.far;
          position = ap (λ hs. b ∷ hs) hop.position;
          near_trusted = (trusted-IsTrusted n ps b passed, hop.near_trusted);
          stops = hop.stops;
        }
    | inr stopped ↦
        let same : some b ≡ some a = rw (stopped, if◌then◌else◌) at e in
        let same' : b ≡ a = cc in
        record {
          near = [];
          far = c ∷ hops;
          position = cc;
          near_trusted = tt;
          stops = inl (subst IsUntrusted same' (trusted-IsUntrusted n ps b stopped));
        }
  ]

  -- The cases in which an address is the client's.
  pub data Origin (r : Request) (ip : Text) : Type 0 where
    -- The peer is no proxy of the project, whatever its headers say.
    peer :
        (remote : n.Addr)
        → ReadsPeer n (trim_space r.remote_addr) remote
        → IsUntrusted remote
        → ip ≡ n.to_text remote
        → Origin r ip
    -- A proxy that names nobody is the client itself.
    proxy :
        (remote : n.Addr)
        → ReadsPeer n (trim_space r.remote_addr) remote
        → IsTrusted remote
        → forwarded_header r ≡ []
        → real_ip_header r ≡ []
        → ip ≡ n.to_text remote
        → Origin r ip
    real_ip :
        (remote a : n.Addr)
        → ReadsPeer n (trim_space r.remote_addr) remote
        → IsTrusted remote
        → forwarded_header r ≡ []
        → n.parse_addr (real_ip_header r) ≡ some a
        → ip ≡ n.to_text (n.unmap a)
        → Origin r ip
    -- The whole chain can be read, and the address is that of its nearest hop that is not trusted,
    -- or of the farthest where all are trusted.
    hop :
        (remote a : n.Addr) (chain : List n.Addr)
        → ReadsPeer n (trim_space r.remote_addr) remote
        → IsTrusted remote
        → ReadAll n (split (forwarded_header r) b',') chain
        → NearestHop (reverse chain) a
        → ip ≡ n.to_text a
        → Origin r ip

  text_or-eq-ok :
      (o : Option n.Addr) (e : ClientIpError) (ip : Text)
      → text_or n o e ≡ ok ip
      → (a : n.Addr) × (o ≡ some a) × (ip ≡ n.to_text a)
  unfolding text_or
  text_or-eq-ok none e ip h = cc
  text_or-eq-ok (some a) e ip h = (a, refl, cc)

  from_real_ip-Origin :
      (r : Request) (remote : n.Addr) (value ip : Text)
      → ReadsPeer n (trim_space r.remote_addr) remote
      → IsTrusted remote
      → forwarded_header r ≡ []
      → real_ip_header r ≡ value
      → from_real_ip n remote value ≡ ok ip
      → Origin r ip
  unfolding from_real_ip text_or
  from_real_ip-Origin r remote [] ip parsed passed blank same h =
      proxy remote parsed passed blank same cc
  from_real_ip-Origin r remote (c ∷ s) ip parsed passed blank same h =
      elim (Option-cases (n.parse_addr (c ∷ s))) [
        | inl missing ↦ absurd (err-ne-ok (rw missing at h))
        | inr (a, found) ↦
            real_ip remote a parsed passed blank (rw same found) (read_text a (rw found at h))
      ]
    where
      read_text :
          (a : n.Addr)
          → text_or n (some (n.unmap a)) invalid_real_ip ≡ ok ip
          → ip ≡ n.to_text (n.unmap a)
      read_text a h = cc

  from_chain-Origin :
      (r : Request) (remote : n.Addr) (o : Option (List n.Addr)) (ip : Text)
      → ReadsPeer n (trim_space r.remote_addr) remote
      → IsTrusted remote
      → parse_chain n (split (forwarded_header r) b',') ≡ o
      → from_chain n ps o ≡ ok ip
      → Origin r ip
  unfolding from_chain
  from_chain-Origin r remote none ip parsed passed read h = cc
  from_chain-Origin r remote (some chain) ip parsed passed read h =
      let (a, found, text) =
        text_or-eq-ok (nearest_untrusted n ps (reverse chain)) invalid_forwarded ip h in
      hop remote a chain parsed passed (parse_chain-ReadAll n _ chain read)
        (nearest_untrusted-NearestHop (reverse chain) a found) text

  is_empty-eq : (s : Text) → is_empty s ≡ true → s ≡ []
  is_empty-eq [] h = refl
  is_empty-eq (c ∷ s) h = cc

  forwarded_for-Origin :
      (r : Request) (remote : n.Addr) (ip : Text)
      → ReadsPeer n (trim_space r.remote_addr) remote
      → IsTrusted remote
      → forwarded_for n ps remote r ≡ ok ip
      → Origin r ip
  unfolding forwarded_for
  forwarded_for-Origin r remote ip parsed passed h =
      elim (Bool-cases (is_empty (forwarded_header r))) [
        | inl blank ↦
            from_real_ip-Origin r remote (real_ip_header r) ip parsed passed (is_empty-eq _ blank)
              refl (rw (blank, if◌then◌else◌) at h)
        | inr given ↦
            from_chain-Origin r remote _ ip parsed passed refl (rw (given, if◌then◌else◌) at h)
      ]

-- An address that the trusted-proxy resolver answers with is the peer's, where no trusted prefix
-- has the peer, and then no header counts. Where one has, and X-Forwarded-For is given, it is that
-- of the first hop from the near end that no trusted prefix has, every nearer hop being in one, or
-- of the farthest hop if every hop is in one; without X-Forwarded-For it is the one of X-Real-IP,
-- or else the peer's own. Every address is read from its text by net/netip and unmapped.
pub resolve_client_ip-Origin :
    (n : Netip) (ps : List n.Prefix) (r : Request) (ip : Text)
    → resolve_client_ip n ps r ≡ ok ip
    → Origin n ps r ip
unfolding resolve_client_ip
resolve_client_ip-Origin n ps r ip h = elim (Option-cases (parse_remote_addr n r.remote_addr)) [
  | inl unread ↦ absurd (err-ne-ok (rw (unread, resolve_client_ip) at h))
  | inr (remote, found) ↦
      let parsed = parse_remote_addr-ReadsPeer n r.remote_addr remote found in
      elim (Bool-cases (trusted n ps remote)) [
        | inl passed ↦
            forwarded_for-Origin n ps r remote ip parsed (trusted-IsTrusted n ps remote passed)
              (rw (found, passed, if◌then◌else◌, resolve_client_ip) at h)
        | inr stopped ↦
            peer remote parsed (trusted-IsUntrusted n ps remote stopped)
              (sent_by remote (rw (found, stopped, if◌then◌else◌, resolve_client_ip) at h))
      ]
]
  where
    sent_by :
        (remote : n.Addr)
        → ◌≡◌ {A = Result ClientIpError Text} (ok (n.to_text remote)) (ok ip)
        → ip ≡ n.to_text remote
    sent_by remote h = cc
