-- ===== src/Dnsforward/ClientId.antt =====
-- internal/dnsforward/clientid.go, and `clientIDFromDNSContext` of internal/dnsforward/middleware.go:
-- the ClientID of a request, from the path of its URL or from the server name of its connection.
pub mod Lower
use gdns_server.Base.{
  ℕ, ◌-◌, Bool, true, false, not, Option, none, some, List, [], ◌∷◌, if◌then◌else◌, ite, length,
  take,
}
use gdns_server.Base.Dict.{Text, text_dec}
use gdns_server.Net.{Addr}
use gdns_server.Dnsforward.{Parsers}

pub data Proto : Type 0 where
  udp tcp tls https quic dnscrypt : Proto

-- What is read of a `*http.Request`: its pattern, the value of the parameter in its path, the server
-- name of its TLS connection, if it has one, and its host.
pub record HttpRequest : Type 0 where
  pub pattern : Text
  pub path_value : Text
  pub tls_server_name : Option Text
  pub host : Text

-- What is read of a `*proxy.DNSContext`. `conn_server_name` is the server name of the connection,
-- and `none` where the connection is not one of TLS.
pub record DnsContext : Type 0 where
  pub proto : Proto
  pub addr : Addr
  pub http_request : Option HttpRequest
  pub conn_server_name : Option Text
  pub quic_server_name : Text
  pub question : List (Text × ℕ)

-- The part of `TLSConf` that is read.
pub record TlsConf : Type 0 where
  pub server_name : Text
  pub strict_sni_check : Bool

abbrev pub is_empty_text : Text → Bool
is_empty_text [] = true
is_empty_text (c ∷ cs) = false

-- A ClientID, which may be empty, or an error, which is `none`.
abbrev pub MaybeId : Type 0
MaybeId = Option Text

-- `client.ValidateClientID`, and the conversion to lower case after it.
unfoldable pub checked : Parsers → Text → MaybeId
checked u id = if u.is_hostname_label id then some (u.to_lower id) else none

pub client_id_from_client_server_name : Parsers → Text → Text → Bool → MaybeId
client_id_from_client_server_name u host_srv_name cli_srv_name strict =
    ite (text_dec host_srv_name cli_srv_name) (some []) (
      if not (u.is_immediate_subdomain cli_srv_name host_srv_name)
      then if strict then none else some []
      else checked u (take (length cli_srv_name - length host_srv_name - 1) cli_srv_name))

unfoldable pub client_id_from_dns_context_https : Parsers → Option HttpRequest → MaybeId
client_id_from_dns_context_https u none = none
client_id_from_dns_context_https u (some r) =
    if not (u.has_client_id_param r.pattern) then some [] else checked u r.path_value

-- A nil request does not come here: the check of the URL fails on it.
client_server_name_from_http : Parsers → Option HttpRequest → Option Text
client_server_name_from_http u none = none
client_server_name_from_http u (some r) = elim r.tls_server_name [
  | some name ↦ some name
  | none ↦ if is_empty_text r.host then some [] else u.split_host r.host
]

pub client_server_name : Parsers → DnsContext → Option Text
client_server_name u pctx = elim pctx.proto [
  | https ↦ client_server_name_from_http u pctx.http_request
  | quic ↦ some pctx.quic_server_name
  | tls ↦ pctx.conn_server_name
  | _ ↦ some []
]

-- The check of the server name, which follows the check of the URL.
pub from_server_name : Parsers → TlsConf → DnsContext → MaybeId
from_server_name u conf pctx =
    if is_empty_text conf.server_name then some [] else elim (client_server_name u pctx) [
      | none ↦ none
      | some cli ↦ client_id_from_client_server_name u conf.server_name cli conf.strict_sni_check
    ]

unfoldable pub from_url : MaybeId → MaybeId → MaybeId
from_url none rest = none
from_url (some []) rest = rest
from_url (some (c ∷ id)) rest = some (c ∷ id)

-- The URL is read for HTTPS alone, and the server name for the protocols over TLS.
unfoldable pub by_proto : Proto → MaybeId → MaybeId → MaybeId
by_proto https url name = from_url url name
by_proto tls url name = name
by_proto quic url name = name
by_proto udp url name = some []
by_proto tcp url name = some []
by_proto dnscrypt url name = some []

unfoldable pub client_id_from_dns_context : Parsers → TlsConf → DnsContext → MaybeId
client_id_from_dns_context u conf pctx =
    by_proto pctx.proto (client_id_from_dns_context_https u pctx.http_request)
      (from_server_name u conf pctx)
