-- ===== src/Dnsforward/Middleware.antt =====
-- internal/dnsforward/middleware.go: the middleware that turns away requests before they are served,
-- and `NormalizeDomain` of internal/aghnet/addr.go.
pub mod Decisions
use gdns_server.Base.{
  ℕ, Bool, true, false, not, ◌||◌, Option, none, some, List, [], ◌∷◌, if◌then◌else◌, ite, ◌==◌,
}
use gdns_server.Base.Dict.{Text, text_dec}
use gdns_server.Dnsforward.{Parsers, Engine}
use gdns_server.Dnsforward.Access.{AccessManager, is_blocked_client, is_blocked_host}
use gdns_server.Dnsforward.ClientId.{
  Proto, Proto.udp, Proto.dnscrypt, DnsContext, TlsConf, client_id_from_dns_context,
}

-- `strings.TrimSuffix(host, ".")`
trim_dot : Text → Text
trim_dot [] = []
trim_dot (c ∷ []) = if c == b'.' then [] else c ∷ []
trim_dot (c ∷ d ∷ cs) = c ∷ trim_dot (d ∷ cs)

pub normalize_domain : Parsers → Text → Text
unfolding trim_dot
normalize_domain u host = ite (text_dec host (b'.' ∷ [])) host (u.to_lower (trim_dot host))

-- What becomes of a request: SERVFAIL, no answer at all, REFUSED, or the next handler, with the
-- ClientID in its context where there is one.
pub data Decision : Type 0 where
  servfail : Decision
  dropped : Decision
  refused : Decision
  served : Text → Decision

pub serve_blocked_response : Proto → Decision
serve_blocked_response udp = dropped
serve_blocked_response dnscrypt = dropped
serve_blocked_response _ = refused

module _ {H : Type 0} (u : Parsers) (engine : Engine H) where
  -- A request with no question or with more than one is not checked.
  unfoldable pub question_is_blocked : AccessManager H → List (Text × ℕ) → Bool
  question_is_blocked a [] = false
  question_is_blocked a ((name, qtype) ∷ []) =
      is_blocked_host u engine a (normalize_domain u name) qtype
  question_is_blocked a (q ∷ r ∷ qs) = false

  -- `Wrap`
  unfoldable pub wrap : TlsConf → AccessManager H → DnsContext → Decision
  wrap conf a pctx = elim (client_id_from_dns_context u conf pctx) [
    | none ↦ servfail
    | some client_id ↦
        if (is_blocked_client a pctx.addr client_id).0
        then serve_blocked_response pctx.proto
        else if question_is_blocked a pctx.question
        then serve_blocked_response pctx.proto
        else served client_id
  ]
