-- ===== src/Dnsforward.antt =====
-- internal/dnsforward/: what a DNS request passes before it is answered: the ClientID of its
-- connection and the access lists. The parsers of other libraries, the engine of host rules and the
-- values that are read of a request are parameters.
pub mod Access
pub mod ClientId
pub mod Middleware
use gdns_server.Base.{ℕ, Bool, Option, List}
use gdns_server.Base.Dict.{Text}
use gdns_server.Net.{Addr, Prefix}

-- `netip.ParseAddr`, `netip.ParsePrefix`, `netutil.ValidateHostnameLabel`, `strings.ToLower`,
-- `netutil.IsImmediateSubdomain`, `netutil.SplitHost`, and the test for the parameter in a pattern.
pub record Parsers : Type 0 where
  pub parse_addr : Text → Option Addr
  pub parse_prefix : Text → Option Prefix
  pub is_hostname_label : Text → Bool
  pub to_lower : Text → Text
  pub is_immediate_subdomain : Text → Text → Bool
  pub split_host : Text → Option Text
  pub has_client_id_param : Text → Bool

-- The engine of `urlfilter`, from the lines of its rules, and its `MatchRequest`.
pub record Engine (H : Type 0) : Type 0 where
  pub new_engine : List Text → Option H
  pub match_request : H → Text → ℕ → Bool
