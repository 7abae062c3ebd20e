-- ===== src/Tests/Access.antt =====
-- Runs of internal/dnsforward/access.go and middleware.go: a list that blocks an address and a
-- ClientID.
use mathlib.Core.Path.{ap₂}
use gdns_server.Base.{
  ℕ, ◌+◌, ◌≡◌, ◌≢◌, refl, sym, ap, ◌↔◌, ◌⊎◌, inl, inr, Bool, true, false, Option, none, some, List,
  [], ◌∷◌, map, get_or, if◌then◌else◌, ltb, leb, ◌&&◌, ◌==◌, arith,
}
use gdns_server.Base.Dict.{Text, text_dec}
use gdns_server.Base.Sets.{has}
use gdns_server.Net.{Addr, v4, invalid, Prefix}
use gdns_server.Dnsforward.{Parsers, Engine}
use gdns_server.Dnsforward.Access.{
  AccessManager, NewAccess, made, new_access_ctx, is_blocked_client,
}
use gdns_server.Dnsforward.Access.Settings.{IsBlockedBy, is_blocked_client-IsBlockedBy}
use gdns_server.Dnsforward.Access.Update.{AccessList, SetError, Server, handle_access_set}
use gdns_server.Dnsforward.Access.Update.Proper.{IsProper, handle_access_set-IsProper}
use gdns_server.Dnsforward.ClientId.{
  Proto, Proto.udp, Proto.https, DnsContext, HttpRequest, TlsConf, client_id_from_dns_context,
}
use gdns_server.Dnsforward.ClientId.Lower.{client_id-lower}
use gdns_server.Dnsforward.Middleware.{Decision, served, wrap}
use gdns_server.Dnsforward.Middleware.Decisions.{wrap-IsBlockedBy}

-- An address is a string of one byte below 10, and a prefix has 47 before it.
abbrev addr_of : Text → Option Addr
addr_of [] = none
addr_of (c ∷ []) = if ltb c 10 then some (v4 c) else none
addr_of (c ∷ d ∷ cs) = none

abbrev prefix_of : Text → Option Prefix
prefix_of [] = none
prefix_of (c ∷ []) = none
prefix_of (c ∷ d ∷ cs) = if c == 47 then some (record { addr = v4 d; bits = 24 }) else none

abbrev is_label : Text → Bool
is_label [] = false
is_label (c ∷ cs) = true

abbrev lower : ℕ → ℕ
lower c = if leb 65 c && leb c 90 then c + 32 else c

abbrev to_lower : Text → Text
to_lower t = map lower t

abbrev parsers : Parsers
parsers = record {
  parse_addr = addr_of;
  parse_prefix = prefix_of;
  is_hostname_label = is_label;
  to_lower = to_lower;
  is_immediate_subdomain = λ d top. false;
  split_host = some;
  has_client_id_param = λ p. true;
}

abbrev engine : Engine (List Text)
engine = record { new_engine = some; match_request = λ e host qt. has text_dec host e }

abbrev tv : Text
tv = b't' ∷ b'v' ∷ []

abbrev upper_tv : Text
upper_tv = b'T' ∷ b'V' ∷ []

abbrev blocked : List Text
blocked = (5 ∷ []) ∷ tv ∷ []

abbrev manager : AccessManager (List Text)
manager = record {
  allowed = record { ips = []; nets = []; client_ids = [] };
  blocked = record { ips = v4 5 ∷ []; nets = []; client_ids = tv ∷ [] };
  blocked_hosts_eng = [];
}

abbrev from_phone : DnsContext
from_phone = record {
  proto = https;
  addr = v4 6;
  http_request =
      some (record { pattern = []; path_value = b'P' ∷ []; tls_server_name = none; host = [] });
  conn_server_name = none;
  quic_server_name = [];
  question = (b'x' ∷ b'.' ∷ [], 1) ∷ [];
}

abbrev no_tls : TlsConf
no_tls = record { server_name = []; strict_sni_check = false }

made_manager : new_access_ctx parsers engine [] blocked [] ≡ made manager
unfolding new_access_ctx gdns_server.Dnsforward.Access.process_access_clients
    gdns_server.Dnsforward.Access.process_client gdns_server.Base.Sets.add
made_manager = refl

is_blocked_client-IsBlockedBy_example :
    ((is_blocked_client manager (v4 5) []).0 ≡ true) ↔ IsBlockedBy parsers [] blocked (v4 5) []
unfolding new_access_ctx gdns_server.Dnsforward.Access.process_access_clients
    gdns_server.Dnsforward.Access.process_client gdns_server.Base.Sets.add
is_blocked_client-IsBlockedBy_example =
    is_blocked_client-IsBlockedBy parsers engine [] blocked [] manager (v4 5) [] made_manager
      (λ e. cc)

served_phone : wrap parsers engine no_tls manager from_phone ≡ served (b'p' ∷ [])
unfolding gdns_server.Dnsforward.Access.is_blocked_host wrap client_id_from_dns_context
    gdns_server.Dnsforward.ClientId.by_proto gdns_server.Dnsforward.ClientId.from_url
    gdns_server.Dnsforward.ClientId.client_id_from_dns_context_https
    gdns_server.Dnsforward.ClientId.checked is_blocked_client
    gdns_server.Dnsforward.Access.allowlist_mode gdns_server.Net.addr_dec
    gdns_server.Dnsforward.Access.is_blocked_ip has
    gdns_server.Dnsforward.Access.is_blocked_client_id
    gdns_server.Dnsforward.Middleware.question_is_blocked
served_phone = refl

wrap-IsBlockedBy_example : ¬ IsBlockedBy parsers [] blocked (v4 6) (b'p' ∷ [])
wrap-IsBlockedBy_example =
    wrap-IsBlockedBy parsers engine no_tls [] blocked [] manager from_phone (b'p' ∷ []) made_manager
      (λ e. cc) served_phone

lower_twice : (x : Text) → to_lower (to_lower x) ≡ to_lower x
lower_twice [] = refl
lower_twice (c ∷ cs) = ap₂ ◌∷◌ (ground arith) (lower_twice cs)

client_id-lower_example : client_id_from_dns_context parsers no_tls from_phone ≢ some upper_tv
client_id-lower_example =
    client_id-lower parsers no_tls from_phone upper_tv lower_twice (λ e. cc)
      (λ e. absurd (omega (arith, ap (λ l. get_or l 0 0) e)))

abbrev settings : AccessList
settings = record { allowed_clients = []; disallowed_clients = blocked; blocked_hosts = [] }

abbrev server : Server (List Text)
server = record { conf = settings; access = manager }

handle_access_set-IsProper_example :
    ((e : SetError) × (handle_access_set parsers engine server (some settings) ≡ (server, some e)))
    ⊎ ((list : AccessList) × (a : AccessManager (List Text)) × (some settings ≡ some list)
        × IsProper list
        × (new_access_ctx parsers engine list.allowed_clients list.disallowed_clients
              list.blocked_hosts
            ≡ made a)
        × (handle_access_set parsers engine server (some settings)
            ≡ (record { conf = list; access = a }, none)))
handle_access_set-IsProper_example =
    handle_access_set-IsProper parsers engine server (some settings)
