-- ===== src/Gateway/ClientIp/Reads.antt =====
-- The addresses that sdk/go/gateway/client_ip.go reads of a peer and of a list of hops.
use stellarmesh_sdk.Base.{
  sym, some-inj, subst, ◌≡◌, refl, ◌⊎◌, inl, inr, List, [], ◌∷◌, Option, none, some, Option-cases,
}
use mathlib.Core.Option
use stellarmesh_sdk.Text.{Text, trim_space}
use stellarmesh_sdk.Gateway.ClientIp.{Netip, parse_remote_addr, host_or, parse_chain}

none-ne-some {ℓ} : {A : Type ℓ} {a : A} → ¬ (◌≡◌ {A = Option A} none (some a))
none-ne-some h = cc

module _ (n : Netip) where
  -- The address that a text stands for, and those of a list of texts.
  abbrev pub Reads : Text → n.Addr → Type 0
  Reads s a = (b : n.Addr) × (n.parse_addr s ≡ some b) × (a ≡ n.unmap b)

  abbrev pub ReadAll : List Text → List n.Addr → Type 0
  ReadAll [] [] = Unit
  ReadAll (s ∷ ss) (a ∷ chain) = Reads (trim_space s) a × ReadAll ss chain
  ReadAll _ _ = ⊥

  -- The address of a peer, with a port or without.
  abbrev pub ReadsPeer : Text → n.Addr → Type 0
  ReadsPeer s a =
      (host : Text) × ((n.split_host s ≡ some host) ⊎ ((n.split_host s ≡ none) × (host ≡ s)))
      × Reads host a

  pub parse_chain-ReadAll :
      (ss : List Text) (chain : List n.Addr) → parse_chain n ss ≡ some chain → ReadAll ss chain
  unfolding parse_chain
  parse_chain-ReadAll [] [] h = tt
  parse_chain-ReadAll [] (a ∷ chain) h = cc
  parse_chain-ReadAll (s ∷ ss) chain h = elim (Option-cases (n.parse_addr (trim_space s))) [
    | inl unread ↦ absurd (none-ne-some (rw (unread, parse_chain) at h))
    | inr (b, read) ↦ elim (Option-cases (parse_chain n ss)) [
      | inl broken ↦ absurd (none-ne-some (rw (read, parse_chain, broken) at h))
      | inr (others, rest) ↦
          subst (ReadAll (s ∷ ss)) (some-inj (rw (read, parse_chain, rest) at h))
            ((b, read, refl), parse_chain-ReadAll ss others rest)
    ]
  ]

  read_host :
      (host : Text) (a : n.Addr) → Option.map n.unmap (n.parse_addr host) ≡ some a → Reads host a
  read_host host a h = elim (Option-cases (n.parse_addr host)) [
    | inl unread ↦ absurd (none-ne-some (rw unread at h))
    | inr (b, read) ↦ (b, read, sym (some-inj (rw read at h)))
  ]

  pub parse_remote_addr-ReadsPeer :
      (remote : Text) (a : n.Addr)
      → parse_remote_addr n remote ≡ some a
      → ReadsPeer (trim_space remote) a
  unfolding parse_remote_addr host_or
  parse_remote_addr-ReadsPeer remote a h = elim (Option-cases (n.split_host (trim_space remote))) [
    | inl bare ↦
        (trim_space remote, inr (bare, refl), read_host (trim_space remote) a (rw bare at h))
    | inr (host, split_at) ↦ (host, inl split_at, read_host host a (rw split_at at h))
  ]
