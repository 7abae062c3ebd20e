-- ===== src/Client/Storage.antt =====
-- internal/client/storage.go: the storage of clients. The mutex makes each operation one step. A
-- stored client is a value: callers do not write through the pointers they pass or get.
pub mod Soundness
pub mod Search
pub mod Updates
use mathlib.Core.Option
use gdns_server.Base.{
  ℕ, ◌≡◌, Bool, true, false, not, ◌&&◌, List, [], ◌∷◌, Option, none, some, if◌then◌else◌, ite, map,
  ◌||◌,
}
use gdns_server.Base.Dict.{Text, text_dec}
use gdns_server.Net.{Addr, Prefix, invalid, addr_dec}
use gdns_server.Client.Persistent.{
  Persistent, Parsers, ClientError, not_found, prefix_dec, validate, with_sorted_tags,
}
use gdns_server.Client.Index.{
  Index, Ref, Lookup, find_by_client_id, find_by_name, find_by_mac, find_by_ip, find_by_cidr, find,
  find_by_ip_without_zone, clashes, clashes_uid,
}
use gdns_server.Client.Index
use gdns_server.Client.Runtime.{RuntimeIndex}
use gdns_server.Client.Upstreams.{UpstreamManager, Build, update_custom, custom_upstream_config}
use gdns_server.Client.Upstreams

-- What `Find` looks for: an empty ClientID, an invalid address, and `none` are parameters not set.
pub record FindParams : Type 0 where
  pub client_id : Text
  pub remote_ip : Addr
  pub subnet : Option Prefix
  pub mac : Option Text

is_text : Text → Bool
is_text [] = false
is_text (c ∷ cs) = true

found_client_id : Parsers → Text → Option FindParams
found_client_id u id =
    if u.is_hostname_label id
    then some (record { client_id = id; remote_ip = invalid; subnet = none; mac = none })
    else none

-- An address, a MAC address, or both; else a prefix; else a ClientID; else `ErrBadIdentifier`.
set_params : Parsers → Text → Option FindParams
unfolding found_client_id
set_params u id = elim (u.parse_addr id) [
  | some a ↦ some (record { client_id = []; remote_ip = a; subnet = none; mac = u.parse_mac id })
  | none ↦ elim (u.parse_mac id) [
    | some m ↦ some (record { client_id = []; remote_ip = invalid; subnet = none; mac = some m })
    | none ↦ elim (u.parse_prefix id) [
      | some p ↦ some (record { client_id = []; remote_ip = invalid; subnet = some p; mac = none })
      | none ↦ found_client_id u id
    ]
  ]
]

-- The result of a search whose client is copied: the outer `none` is a panic, here also at a nil pointer.
cloned : Option Lookup → Option Lookup
cloned none = none
cloned (some none) = some none
cloned (some (some none)) = none
cloned (some (some (some p))) = some (some (some p))

-- The next search where the first finds nothing. `none` is a panic.
or_next : Option Lookup → Option Lookup → Option Lookup
or_next none b = none
or_next (some none) b = b
or_next (some (some a)) b = some (some a)

-- The part of `filtering.Settings` that the storage sets, less the safe-search filter itself.
pub record Settings : Type 0 where
  pub blocked_services : List Text
  pub client_name : Text
  pub client_tags : List Text
  pub filtering_enabled : Bool
  pub safe_search_enabled : Bool
  pub safe_browsing_enabled : Bool
  pub parental_enabled : Bool

own_services : Persistent → Settings → Settings
own_services c t =
    if c.use_own_blocked_services then record t { blocked_services = c.blocked_services } else t

own_settings : Persistent → Settings → Settings
own_settings c t =
    if c.use_own_settings
    then record t {
      filtering_enabled = c.filtering_enabled;
      safe_search_enabled = c.safe_search_enabled;
      safe_browsing_enabled = c.safe_browsing_enabled;
      parental_enabled = c.parental_enabled;
    }
    else t

-- `none` is a panic, of the search or at a nil pointer.
apply_found : Option Lookup → Settings → Option Settings
unfolding own_services own_settings
apply_found none t = none
apply_found (some none) t = some t
apply_found (some (some none)) t = none
apply_found (some (some (some c))) t =
    let t' = record (own_services c t) { client_name = c.name; client_tags = c.tags } in
    some (own_settings c t')

-- The interface `DHCP`, another component's: a nil MAC address is `none`, no host name is empty.
pub record Dhcp : Type 0 where
  pub leases : List (Addr × List Text)
  pub host_by_ip : Addr → Text
  pub mac_by_ip : Addr → Option Text

-- The ARP database: none, the one that replaces a failed one, or the system's.
pub data ArpDb : Type 0 where
  no_arp empty_arp system_arp : ArpDb

module _ (P C : Type 0) where
  pub record Storage : Type 0 where
    pub index : Index
    pub runtime_index : RuntimeIndex
    pub upstream_manager : UpstreamManager P C
    pub allowed_tags : List Text
    pub arp_db : ArpDb
    pub runtime_source_dhcp : Bool

module _ {P C : Type 0} where
  -- What an operation leaves and the error it returns.
  unfoldable pub stored : Persistent → Option Index → Storage P C → Storage P C × Option ClientError
  stored p none s = (s, some ClientError.panicked)
  stored p (some ci) s =
      (record s { index = ci; upstream_manager = update_custom p s.upstream_manager }, none)

  -- The client without clashes goes into the index, which is `none` where its making panicked; `p` has
  -- its tags sorted.
  unfoldable pub enter_unless :
      Option ClientError
      → Persistent
      → Option Index
      → Storage P C
      → Storage P C × Option ClientError
  unfolding stored
  enter_unless (some e) p ci s = (s, some e)
  enter_unless none p none s = (s, some ClientError.panicked)
  enter_unless none p (some ci) s = stored p (Index.add p ci) (record s { index = ci })

  unfoldable pub add_valid : Persistent → Storage P C → Storage P C × Option ClientError
  unfolding enter_unless
  add_valid p s = elim (clashes_uid s.index p) [
    | some e ↦ (s, some e)
    | none ↦ enter_unless (clashes s.index p) p (some s.index) s
  ]

  unfoldable pub add : Parsers → Persistent → Storage P C → Storage P C × Option ClientError
  unfolding add_valid
  add u p s = elim (validate u s.allowed_tags p) [
    | some e ↦ (s, some e)
    | none ↦ add_valid (with_sorted_tags p) s
  ]

  -- `p` with the UID of the client stored under the name; a nil pointer panics.
  unfoldable pub update_found : Lookup → Persistent → Storage P C → Storage P C × Option ClientError
  unfolding enter_unless
  update_found none p s = (s, some not_found)
  update_found (some none) p s = (s, some ClientError.panicked)
  update_found (some (some old)) p s =
      let q = record p { uid = old.uid } in
      enter_unless (clashes s.index q) q (Index.remove old s.index) s

  unfoldable pub update :
      Parsers → Text → Persistent → Storage P C → Storage P C × Option ClientError
  unfolding update_found
  update u name p s = elim (validate u s.allowed_tags p) [
    | some e ↦ (s, some e)
    | none ↦ update_found (find_by_name s.index name) (with_sorted_tags p) s
  ]

  unfoldable pub without : Persistent → Index → Storage P C → Storage P C
  without p ci s = record s {
    index = ci;
    upstream_manager = (Upstreams.remove p.uid s.upstream_manager).0;
  }

  -- `none` is a panic: at a nil pointer, or in the index.
  unfoldable pub remove_by_name : Text → Storage P C → Option (Storage P C × Bool)
  unfolding without
  remove_by_name name s = elim (find_by_name s.index name) [
    | none ↦ some (s, false)
    | some none ↦ none
    | some (some p) ↦ Option.map (λ ci. (without p ci s, true)) (Index.remove p s.index)
  ]

  -- A client by its address, or else by the MAC address that leases it. In this and the following
  -- searches the outer `none` is the panic at a MAC address with no key.
  find_client_by_ip : Dhcp → Storage P C → Addr → Option Lookup
  find_client_by_ip d s a = elim (find_by_ip s.index a) [
    | some p ↦ some (some p)
    | none ↦ elim (d.mac_by_ip a) [ none ↦ some none | some mac ↦ find_by_mac s.index mac ]
  ]

  by_client_id : Storage P C → FindParams → Option Lookup
  unfolding is_text
  by_client_id s f =
      some (if is_text f.client_id then find_by_client_id s.index f.client_id else none)

  by_remote_ip : Dhcp → Storage P C → FindParams → Option Lookup
  unfolding find_client_by_ip
  by_remote_ip d s f =
      ite (addr_dec f.remote_ip invalid) (some none) (find_client_by_ip d s f.remote_ip)

  by_subnet : Storage P C → FindParams → Option Lookup
  by_subnet s f = elim f.subnet [ none ↦ some none | some p ↦ some (find_by_cidr s.index p) ]

  by_mac : Storage P C → FindParams → Option Lookup
  by_mac s f = elim f.mac [ none ↦ some none | some m ↦ find_by_mac s.index m ]

  -- The parameters that are set, in this order, until one finds a client.
  find_client : Dhcp → Storage P C → FindParams → Option Lookup
  unfolding cloned or_next by_client_id by_remote_ip by_subnet by_mac
  find_client d s f = cloned (
      or_next (by_client_id s f)
        (or_next (by_remote_ip d s f) (or_next (by_subnet s f) (by_mac s f))))

  -- The search by the address alone.
  loose_by_mac : Dhcp → Storage P C → Addr → Option Lookup
  loose_by_mac d s a = elim (d.mac_by_ip a) [
    | some m ↦ find_by_mac s.index m
    | none ↦ some (Option.map some (find_by_ip_without_zone s.index a))
  ]

  -- The search for entries of the query log, whose addresses have no zone. The client of a MAC
  -- address is returned without a copy.
  find_loose : Dhcp → Storage P C → Addr → Text → Parsers → Option Lookup
  unfolding cloned or_next loose_by_mac
  find_loose d s a id u = or_next (cloned (find u s.index id)) (loose_by_mac d s a)

  -- The client of a request: its ClientID, else its address.
  request_client : Dhcp → Storage P C → Text → Addr → Option Lookup
  unfolding or_next find_client_by_ip
  request_client d s id a = or_next (some (find_by_client_id s.index id)) (find_client_by_ip d s a)

  apply_client_filtering : Dhcp → Storage P C → Text → Addr → Settings → Option Settings
  unfolding apply_found request_client
  apply_client_filtering d s id a t = apply_found (request_client d s id a) t

  configured : Build P C → Storage P C → Option Lookup → Option (Storage P C × Option P)
  configured build s none = none
  configured build s (some none) = some (s, none)
  configured build s (some (some none)) = none
  configured build s (some (some (some c))) =
      Option.map (λ r. (record s { upstream_manager = r.0 }, r.1))
        (custom_upstream_config build c.uid s.upstream_manager)

  client_upstream_config :
      Build P C → Dhcp → Storage P C → Text → Addr → Option (Storage P C × Option P)
  unfolding configured request_client
  client_upstream_config build d s id a = configured build s (request_client d s id a)
