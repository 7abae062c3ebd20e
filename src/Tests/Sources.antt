-- ===== src/Tests/Sources.antt =====
-- Runs of internal/client/runtimeindex.go and internal/client/upstreammanager.go.
use mathlib.Core.Option
use gdns_server.Base.{
  ℕ, ◌≡◌, refl, true, false, List, [], ◌∷◌, Option, none, some, if◌then◌else◌, ◌==◌,
}
use gdns_server.Base.Dict.{Text}
use gdns_server.Net.{Addr, v4}
use gdns_server.Client.Persistent.{Persistent}
use gdns_server.Client.Runtime.{RuntimeIndex, dhcp, rank, client, refresh}
use gdns_server.Client.Runtime.Sources.{gives_names, known, said, known-refresh}
use gdns_server.Client.Upstreams.{
  UpstreamManager, Build, custom_upstream_config, update_custom, filter_comments,
}
use gdns_server.Client.Upstreams.Cache.{expected, update_custom_rebuilds}

abbrev leases : List (Addr × List Text)
leases = (v4 1, (b'a' ∷ []) ∷ []) ∷ (v4 2, [] ∷ []) ∷ []

abbrev known_before : RuntimeIndex
known_before =
    (
      v4 3,
      record {
        ip = v4 3;
        whois_info = none;
        arp_names = none;
        rdns_names = none;
        dhcp_names = some ((b'z' ∷ []) ∷ []);
        hosts_file_names = none;
      },
    )
    ∷ []

known-refresh_example : known dhcp (client (refresh dhcp leases known_before).0 (v4 1)) ≡ (
    if rank dhcp == rank dhcp
    then said (v4 1) leases none
    else known dhcp (client known_before (v4 1)))
unfolding gives_names
known-refresh_example = known-refresh dhcp dhcp leases known_before (v4 1) refl

-- A configuration is how many upstreams it was built from.
abbrev count : Build ℕ ℕ
count us size enabled common = some (size_of us)
  where
    size_of : List Text → ℕ
    size_of [] = 0
    size_of (u ∷ us) = 1

abbrev manager : UpstreamManager ℕ ℕ
manager = record { uid_to_custom_conf = []; common_conf = some 5; conf_update = 1; closed = [] }

abbrev laptop : Persistent
laptop = record {
  name = b'l' ∷ [];
  tags = [];
  upstreams = (b'u' ∷ []) ∷ [];
  upstreams_cache_size = 0;
  upstreams_cache_enabled = false;
  ips = v4 1 ∷ [];
  subnets = [];
  macs = [];
  client_ids = [];
  uid = 7;
  blocked_services = [];
  use_own_settings = false;
  filtering_enabled = true;
  safe_browsing_enabled = false;
  parental_enabled = false;
  use_own_blocked_services = false;
  safe_search_enabled = false;
}

update_custom_rebuilds_example :
    Option.map (λ r. r.1) (custom_upstream_config count 7 (update_custom laptop manager))
    ≡ expected count (some 5) laptop (filter_comments laptop.upstreams)
update_custom_rebuilds_example = update_custom_rebuilds count laptop manager

abbrev asked : UpstreamManager ℕ ℕ × Option ℕ
asked = elim (custom_upstream_config count 7 (update_custom laptop manager)) [
  | none ↦ (manager, none)
  | some r ↦ r
]
