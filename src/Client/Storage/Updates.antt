-- ===== src/Client/Storage/Updates.antt =====
-- internal/client/storage.go: the creation of the storage, and the updates of runtime clients from the
-- ARP table, the hosts file, reverse DNS, WHOIS and DHCP.
use gdns_server.Base.{
  Bool, true, false, not, ◌||◌, List, [], ◌∷◌, Option, none, some, if◌then◌else◌,
}
use gdns_server.Base.Dict.{Text, put}
use gdns_server.Net.{Addr, addr_dec}
use gdns_server.Client.Persistent.{Persistent, Parsers, compare_text, sort}
use gdns_server.Client.Index.{Lookup, find_by_ip, new_index}
use gdns_server.Client.Runtime.{
  Runtime, RuntimeIndex, arp, rdns, dhcp, hosts_file, refresh, set_index_info, obtain, set_whois,
  client,
}
use gdns_server.Client.Storage.{Storage, Dhcp, ArpDb, no_arp, empty_arp, system_arp, add}

-- A configured client has no WHOIS information.
set_whois_unless : Lookup → Addr → Text → RuntimeIndex → RuntimeIndex
set_whois_unless (some p) a w ri = ri
set_whois_unless none a w ri = put addr_dec a (set_whois w (obtain ri a)) ri

in_hosts_file : Option Runtime → Bool
in_hosts_file none = false
in_hosts_file (some r) = elim r.hosts_file_names [ none ↦ false | some ns ↦ true ]

module _ {P C : Type 0} where
  -- A refresh of the table fails, `none`, or gives the neighbours. An empty table changes nothing.
  refreshed : Option (List (Addr × List Text)) → Storage P C → Storage P C
  refreshed none s = record s { arp_db = empty_arp }
  refreshed (some []) s = s
  refreshed (some (n ∷ ns)) s = record s {
    runtime_index = (refresh arp (n ∷ ns) s.runtime_index).0;
  }

  reload : ArpDb → Option (List (Addr × List Text)) → Storage P C → Storage P C
  unfolding refreshed
  reload no_arp table s = s
  reload empty_arp table s = s
  reload system_arp table s = refreshed table s

  reload_arp : Option (List (Addr × List Text)) → Storage P C → Storage P C
  unfolding reload
  reload_arp table s = reload s.arp_db table s

  -- Each address of the hosts file with its first name.
  add_from_hosts_file : List (Addr × List Text) → Storage P C → Storage P C
  add_from_hosts_file hosts s = record s {
    runtime_index = (refresh hosts_file hosts s.runtime_index).0;
  }

  update_dhcp : Dhcp → Storage P C → Storage P C
  update_dhcp d s =
      if s.runtime_source_dhcp
      then record s { runtime_index = (refresh dhcp d.leases s.runtime_index).0 }
      else s

  set_whois_info : Addr → Text → Storage P C → Storage P C
  unfolding set_whois_unless
  set_whois_info a w s = record s {
    runtime_index = set_whois_unless (find_by_ip s.index a) a w s.runtime_index;
  }

  set_host : Addr → Text → Storage P C → Storage P C
  set_host a [] s = s
  set_host a (c ∷ cs) s = record s {
    runtime_index = set_index_info a rdns ((c ∷ cs) ∷ []) s.runtime_index;
  }

  update_address : Addr → Text → Option Text → Storage P C → Storage P C
  unfolding set_host set_whois_info
  update_address a host w s =
      let s' = set_host a host s in elim w [ none ↦ s' | some i ↦ set_whois_info a i s' ]

  with_dhcp_host : Addr → Text → Storage P C → Storage P C × Option Runtime
  with_dhcp_host a [] s = (s, client s.runtime_index a)
  with_dhcp_host a (c ∷ cs) s =
      let ri = set_index_info a dhcp ((c ∷ cs) ∷ []) s.runtime_index in
      (record s { runtime_index = ri }, client ri a)

  -- A runtime client by its address, with the DHCP server's host name unless the hosts file has one.
  client_runtime : Dhcp → Addr → Storage P C → Storage P C × Option Runtime
  unfolding in_hosts_file with_dhcp_host
  client_runtime d a s =
      if not s.runtime_source_dhcp || in_hosts_file (client s.runtime_index a)
      then (s, client s.runtime_index a)
      else with_dhcp_host a (d.host_by_ip a) s

  add_all : Parsers → List Persistent → Storage P C → Option (Storage P C)
  add_all u [] s = some s
  add_all u (p ∷ ps) s =
      let next = λ (t : Storage P C). add_all u ps t in
      let (t, e) = add u p s in elim e [ none ↦ next t | some x ↦ none ]

  -- The storage with the configured clients; the first error makes it fail.
  new_storage :
      Parsers
      → List Text
      → List Persistent
      → ArpDb
      → Bool
      → Option (List (Addr × List Text))
      → Option (Storage P C)
  unfolding add_all reload_arp
  new_storage u tags ps db from_dhcp table =
      let s : Storage P C = record {
        index = new_index;
        runtime_index = [];
        upstream_manager = record {
          uid_to_custom_conf = [];
          common_conf = none;
          conf_update = 0;
          closed = [];
        };
        allowed_tags = sort compare_text tags;
        arp_db = db;
        runtime_source_dhcp = from_dhcp;
      } in
      elim (add_all u ps s) [ none ↦ none | some t ↦ some (reload_arp table t) ]
