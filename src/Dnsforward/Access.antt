-- ===== src/Dnsforward/Access.antt =====
-- internal/dnsforward/access.go: the lists of clients and hosts that are allowed or blocked, and
-- `IsBlockedClient` of internal/dnsforward/dnsforward.go.
pub mod Lists
pub mod Strings
pub mod Settings
pub mod Update
use gdns_server.Base.{
  ℕ, ◌+◌, Bool, true, false, not, ◌&&◌, ◌||◌, Option, none, some, List, [], ◌∷◌, ◌++◌,
  if◌then◌else◌, ite, length, ◌==◌, map,
}
use gdns_server.Base.Dict.{Text, text_dec}
use gdns_server.Base.Sets.{has, add, is_empty_list}
use gdns_server.Net.{Addr, Addr.invalid, Prefix, addr_dec, contains, without_zone}
use gdns_server.Dnsforward.{Parsers, Engine}

-- The addresses, the prefixes and the ClientIDs of one list of clients.
pub record ClientSet : Type 0 where
  pub ips : List Addr
  pub nets : List Prefix
  pub client_ids : List Text

abbrev pub no_clients : ClientSet
no_clients = record { ips = []; nets = []; client_ids = [] }

pub record AccessManager (H : Type 0) : Type 0 where
  pub allowed : ClientSet
  pub blocked : ClientSet
  pub blocked_hosts_eng : H

-- One round of `processAccessClients`; `none` is its error.
unfoldable pub process_client : Parsers → Text → ClientSet → Option ClientSet
process_client u s set = elim (u.parse_addr s) [
  | some ip ↦ some (record set { ips = add addr_dec ip set.ips })
  | none ↦ elim (u.parse_prefix s) [
    | some ipnet ↦ some (record set { nets = set.nets ++ ipnet ∷ [] })
    | none ↦
        if not (u.is_hostname_label s)
        then none
        else some (record set { client_ids = add text_dec s set.client_ids })
  ]
]

-- The result, or the index of the bad string, counted from `i`.
pub data Processed : Type 0 where
  processed : ClientSet → Processed
  bad_at : ℕ → Processed

unfoldable pub process_access_clients : Parsers → ℕ → List Text → ClientSet → Processed
process_access_clients u i [] set = processed set
process_access_clients u i (s ∷ strs) set = elim (process_client u s set) [
  | none ↦ bad_at i
  | some set' ↦ process_access_clients u (i + 1) strs set'
]

pub data AccessError : Type 0 where
  adding_allowed : ℕ → AccessError
  adding_blocked : ℕ → AccessError
  adding_blocked_hosts : AccessError

pub data NewAccess (H : Type 0) : Type 0 where
  made : AccessManager H → NewAccess H
  refused : AccessError → NewAccess H

-- `allowlistMode`
unfoldable pub allowlist_mode : {H : Type 0} → AccessManager H → Bool
allowlist_mode a =
    not (is_empty_list a.allowed.ips)
    || not (is_empty_list a.allowed.client_ids)
    || not (is_empty_list a.allowed.nets)

unfoldable pub is_blocked_client_id : {H : Type 0} → AccessManager H → Text → Bool
unfolding allowlist_mode
is_blocked_client_id a [] = allowlist_mode a
is_blocked_client_id a (c ∷ id) =
    if allowlist_mode a
    then not (has text_dec (c ∷ id) a.allowed.client_ids)
    else has text_dec (c ∷ id) a.blocked.client_ids

-- The rule that matched: an address or a prefix, or none, which is the empty string.
pub data IpRule : Type 0 where
  no_rule : IpRule
  ip_rule : Addr → IpRule
  net_rule : Prefix → IpRule

pub first_net : Addr → List Prefix → IpRule
first_net ip [] = no_rule
first_net ip (ipnet ∷ nets) =
    let rest = first_net ip nets in
    if contains ipnet (without_zone ip) then net_rule ipnet else rest

-- The address or the first prefix of a list that covers the address.
pub covering : ClientSet → Addr → IpRule
unfolding first_net
covering set ip = if has addr_dec ip set.ips then ip_rule ip else first_net ip set.nets

-- `blocked` is the answer for an address that is covered.
abbrev decided : Bool → IpRule → Bool × IpRule
decided blocked no_rule = (not blocked, no_rule)
decided blocked (ip_rule ip) = (blocked, ip_rule ip)
decided blocked (net_rule n) = (blocked, net_rule n)

unfoldable pub is_blocked_ip : {H : Type 0} → AccessManager H → Addr → Bool × IpRule
unfolding covering
is_blocked_ip a ip =
    if allowlist_mode a
    then decided false (covering a.allowed ip)
    else decided true (covering a.blocked ip)

-- `IsBlockedClient`; the rule of a ClientID is the ClientID, where no address matched.
unfoldable pub is_blocked_client : {H : Type 0} → AccessManager H → Addr → Text → Bool × IpRule
is_blocked_client a ip client_id =
    let (blocked_by_ip, rule) = ite (addr_dec ip invalid) (false, no_rule) (is_blocked_ip a ip) in
    let blocked_by_client_id = is_blocked_client_id a client_id in
    if allowlist_mode a && (blocked_by_ip && blocked_by_client_id)
    then (true, rule)
    else (not (allowlist_mode a) && (blocked_by_ip || blocked_by_client_id), rule)

module _ {H : Type 0} (u : Parsers) (engine : Engine H) where
  -- `newAccessCtx`
  unfoldable pub new_access_ctx : List Text → List Text → List Text → NewAccess H
  new_access_ctx allowed blocked blocked_hosts =
      elim (process_access_clients u 0 allowed no_clients) [
        | bad_at i ↦ refused (adding_allowed i)
        | processed a ↦ elim (process_access_clients u 0 blocked no_clients) [
          | bad_at i ↦ refused (adding_blocked i)
          | processed b ↦ elim (engine.new_engine (map u.to_lower blocked_hosts)) [
            | none ↦ refused adding_blocked_hosts
            | some e ↦ made (record { allowed = a; blocked = b; blocked_hosts_eng = e })
          ]
        ]
      ]

  unfoldable pub is_blocked_host : AccessManager H → Text → ℕ → Bool
  is_blocked_host a host qt = engine.match_request a.blocked_hosts_eng host qt
