-- ===== src/Dnsforward/ClientId/Lower.antt =====
-- internal/dnsforward/clientid.go: ClientIDs of requests are in lower case.
use mathlib.Core.Option.{some-injective}
use gdns_server.Base.{
  ◌≡◌, ◌≢◌, refl, sym, ap, subst, ◌∙◌, ◌⊎◌, inl, inr, Bool, true, Option, none, some, [], ◌∷◌,
  Bool-cases, Option-cases, arith, length, take, ◌-◌,
}
use gdns_server.Base.Dict.{Text, text_dec}
use gdns_server.Dnsforward.{Parsers}
use gdns_server.Dnsforward.ClientId.{
  Proto, https, tls, quic, udp, tcp, dnscrypt, by_proto, MaybeId, DnsContext, TlsConf, HttpRequest,
  checked, client_id_from_client_server_name, client_id_from_dns_context_https, client_server_name,
  from_server_name, from_url, client_id_from_dns_context, is_empty_text,
}

module _ (u : Parsers) where
  -- No ClientID, an error, or a valid label in lower case.
  abbrev IsLower : MaybeId → Type 0
  IsLower r =
      (r ≡ none)
      ⊎ (r ≡ some [])
      ⊎ ((x : Text) × (u.is_hostname_label x ≡ true) × (r ≡ some (u.to_lower x)))

  checked-IsLower : (x : Text) → IsLower (checked u x)
  unfolding checked
  checked-IsLower x = elim (Bool-cases (u.is_hostname_label x)) [
    | inl e ↦ inr (inr (x, e, rw (checked, e) refl))
    | inr e ↦ inl (rw (checked, e) refl)
  ]

  url-IsLower : (r : Option HttpRequest) → IsLower (client_id_from_dns_context_https u r)
  unfolding client_id_from_dns_context_https
  url-IsLower none = inl refl
  url-IsLower (some r) = elim (Bool-cases (u.has_client_id_param r.pattern)) [
    | inl e ↦ rw (client_id_from_dns_context_https, e) (checked-IsLower r.path_value)
    | inr e ↦ inr (inl (rw (client_id_from_dns_context_https, e) refl))
  ]

  name-IsLower :
      (host cli : Text) (strict : Bool)
      → IsLower (client_id_from_client_server_name u host cli strict)
  unfolding client_id_from_client_server_name
  name-IsLower host cli strict = elim (text_dec host cli) [
    | yes p ↦ inr (inl (grind arith))
    | no n ↦ elim (Bool-cases (u.is_immediate_subdomain cli host)) [
      | inl e ↦
          let x = take (length cli - length host - 1) cli in
          let q : client_id_from_client_server_name u host cli strict ≡ checked u x = grind arith in
          subst IsLower (sym q) (checked-IsLower x)
      | inr e ↦ elim (Bool-cases strict) [
        | inl f ↦ inl (grind arith)
        | inr f ↦ inr (inl (grind arith))
      ]
    ]
  ]

  server_name-IsLower :
      (conf : TlsConf) (pctx : DnsContext) → IsLower (from_server_name u conf pctx)
  unfolding from_server_name
  server_name-IsLower conf pctx = elim (Bool-cases (is_empty_text conf.server_name)) [
    | inl e ↦ inr (inl (rw (from_server_name, e) refl))
    | inr e ↦ elim (Option-cases (client_server_name u pctx)) [
      | inl f ↦ inl (rw (from_server_name, e, f) refl)
      | inr (cli, f) ↦
          rw (from_server_name, e, f) (name-IsLower conf.server_name cli conf.strict_sni_check)
    ]
  ]

  from_url-IsLower : (a b : MaybeId) → IsLower a → IsLower b → IsLower (from_url a b)
  unfolding from_url
  from_url-IsLower none b h k = inl refl
  from_url-IsLower (some []) b h k = k
  from_url-IsLower (some (c ∷ id)) b h k = h

  by_proto-IsLower : (p : Proto) (a b : MaybeId) → IsLower a → IsLower b → IsLower (by_proto p a b)
  unfolding by_proto
  by_proto-IsLower https a b h k = from_url-IsLower a b h k
  by_proto-IsLower tls a b h k = k
  by_proto-IsLower quic a b h k = k
  by_proto-IsLower udp a b h k = inr (inl refl)
  by_proto-IsLower tcp a b h k = inr (inl refl)
  by_proto-IsLower dnscrypt a b h k = inr (inl refl)

  context-IsLower :
      (conf : TlsConf) (pctx : DnsContext) → IsLower (client_id_from_dns_context u conf pctx)
  unfolding client_id_from_dns_context
  context-IsLower conf pctx =
      by_proto-IsLower pctx.proto _ _ (url-IsLower pctx.http_request)
        (server_name-IsLower conf pctx)

  -- With a conversion to lower case that changes nothing the second time, a string with a letter in
  -- upper case, such as an entry of the access lists may be, is not the ClientID of any request.
  pub client_id-lower :
      (conf : TlsConf) (pctx : DnsContext) (s : Text)
      → ((x : Text) → u.to_lower (u.to_lower x) ≡ u.to_lower x)
      → s ≢ []
      → u.to_lower s ≢ s
      → client_id_from_dns_context u conf pctx ≢ some s
  client_id-lower conf pctx s i n h e = elim (context-IsLower conf pctx) [
    | inl q ↦ absurd (cc)
    | inr k ↦ elim k [
      | inl q ↦ n (some-injective _ _ (sym e ∙ q))
      | inr (x, l, q) ↦
          let r : s ≡ u.to_lower x = some-injective _ _ (sym e ∙ q) in
          h (ap u.to_lower r ∙ i x ∙ sym r)
    ]
  ]
