-- ===== src/Dnsforward/Middleware/Decisions.antt =====
-- internal/dnsforward/middleware.go: which requests are served, and how others are turned away.
use gdns_server.Base.{◌≡◌, ◌≢◌, refl, ◌⊎◌, inl, inr, ◌↔◌, Bool, true, false, some, List, arith}
use gdns_server.Base.Dict.{Text}
use gdns_server.Net.{Addr.invalid}
use gdns_server.Dnsforward.{Parsers, Engine}
use gdns_server.Dnsforward.Access.{AccessManager, made, new_access_ctx, is_blocked_client}
use gdns_server.Dnsforward.Access.Settings.{IsBlockedBy, is_blocked_client-IsBlockedBy}
use gdns_server.Dnsforward.ClientId.{
  Proto, Proto.udp, Proto.tcp, Proto.tls, Proto.https, Proto.quic, Proto.dnscrypt, DnsContext,
  TlsConf, client_id_from_dns_context,
}
use gdns_server.Dnsforward.Middleware.{
  dropped, refused, served, serve_blocked_response, question_is_blocked, wrap,
}

-- The protocols over UDP whose sender is not known to be who it says.
abbrev is_spoofable : Proto → Bool
is_spoofable udp = true
is_spoofable dnscrypt = true
is_spoofable _ = false

module _ {H : Type 0} (u : Parsers) (engine : Engine H) where
  blocked_response :
      (p : Proto)
      → (serve_blocked_response p ≡ dropped × (is_spoofable p ≡ true))
        ⊎ (serve_blocked_response p ≡ refused × (is_spoofable p ≡ false))
  unfolding serve_blocked_response
  blocked_response udp = inl (refl, refl)
  blocked_response tcp = inr (refl, refl)
  blocked_response tls = inr (refl, refl)
  blocked_response https = inr (refl, refl)
  blocked_response quic = inr (refl, refl)
  blocked_response dnscrypt = inl (refl, refl)

  -- A request is served with a ClientID exactly when that is its ClientID, the access lists do not
  -- block the client, and they do not block the question. A request that is turned away gets no
  -- answer over plain UDP and DNSCrypt, and REFUSED over the other protocols.
  wrap-served :
      (conf : TlsConf) (a : AccessManager H) (pctx : DnsContext)
      → ((id : Text)
          → (wrap u engine conf a pctx ≡ served id) ↔ (
              (client_id_from_dns_context u conf pctx ≡ some id)
              × ((is_blocked_client a pctx.addr id).0 ≡ false)
              × (question_is_blocked u engine a pctx.question ≡ false)))
        × (wrap u engine conf a pctx ≡ dropped → is_spoofable pctx.proto ≡ true)
        × (wrap u engine conf a pctx ≡ refused → is_spoofable pctx.proto ≡ false)
  unfolding wrap
  wrap-served conf a pctx =
      let b = blocked_response pctx.proto in
      (
        λ id. (λ h. (grind (arith, b), grind (arith, b), grind (arith, b)), λ h. grind (arith, h)),
        λ h. grind (arith, b),
        λ h. grind (arith, b),
      )

  -- With access settings that are accepted, a request from a valid address that is served is of a
  -- client that the strings of the settings do not block.
  pub wrap-IsBlockedBy :
      (conf : TlsConf) (allowed blocked hosts : List Text) (a : AccessManager H) (pctx : DnsContext)
      (id : Text)
      → new_access_ctx u engine allowed blocked hosts ≡ made a
      → pctx.addr ≢ invalid
      → wrap u engine conf a pctx ≡ served id
      → ¬ IsBlockedBy u allowed blocked pctx.addr id
  wrap-IsBlockedBy conf allowed blocked hosts a pctx id h v w l =
      let (f, g) =
        is_blocked_client-IsBlockedBy u engine allowed blocked hosts a pctx.addr id h v in
      grind (arith, g l, (((wrap-served conf a pctx).0 id).0 w).1)
