-- ===== src/Tests/Clients.antt =====
-- Runs of internal/client/storage.go: a laptop is added, renamed and removed.
use gdns_server.Base.{
  ℕ, ◌≡◌, ◌≢◌, refl, Bool, true, false, List, [], ◌∷◌, Option, none, some, ◌⊎◌, ◌↔◌,
}
use gdns_server.Base.Dict.{Text, text_dec, get}
use gdns_server.Net.{Addr, v4, v6, Prefix, addr_dec}
use gdns_server.SortedMap.Order.{has}
use gdns_server.Client.Persistent.{ClientError, Persistent, Parsers, prefix_dec, with_sorted_tags}
use gdns_server.Client.Index.{
  Index, new_index, client_of, clashes, find_by_name, find_by_ip, find_by_client_id, find_by_cidr,
}
use gdns_server.Client.Index.Soundness.{new_index-IsSound}
use gdns_server.Client.Storage.{Storage, no_arp, add, update, remove_by_name}
use gdns_server.Client.Storage.Soundness.{
  IsValid, Kept, add-IsValid, update-IsValid, remove_by_name-IsValid,
}
use gdns_server.Client.Storage.Search.{
  find_by_ip_longest, Findable, add-Findable, update-Findable, Longest, Unlisted,
}

-- One byte is an IPv4 address, two are a prefix, and six are a MAC address.
abbrev parse_addr : Text → Option Addr
parse_addr (n ∷ []) = some (v4 n)
parse_addr _ = none

abbrev parse_prefix : Text → Option Prefix
parse_prefix (n ∷ m ∷ []) = some (record { addr = v4 n; bits = m })
parse_prefix _ = none

abbrev parse_mac : Text → Option Text
parse_mac (a ∷ b ∷ c ∷ d ∷ e ∷ f ∷ []) = some (a ∷ b ∷ c ∷ d ∷ e ∷ f ∷ [])
parse_mac _ = none

abbrev parsers : Parsers
parsers = record {
  parse_addr = parse_addr;
  parse_prefix = parse_prefix;
  parse_mac = parse_mac;
  is_hostname_label = λ t. true;
  accepts_upstreams = λ us. true;
  to_lower = λ t. t;
}

-- 10.0.0.0/8 and 10.0.0.0/24.
abbrev wide : Prefix
wide = record { addr = v4 167772160; bits = 8 }

abbrev narrow : Prefix
narrow = record { addr = v4 167772160; bits = 24 }

abbrev laptop : Persistent
laptop = record {
  name = b'l' ∷ [];
  tags = [];
  upstreams = (b'u' ∷ []) ∷ [];
  upstreams_cache_size = 0;
  upstreams_cache_enabled = false;
  ips = v4 1 ∷ [];
  subnets = wide ∷ narrow ∷ [];
  macs = (1 ∷ 2 ∷ 3 ∷ 4 ∷ 5 ∷ 6 ∷ []) ∷ [];
  client_ids = (b'i' ∷ []) ∷ [];
  uid = 7;
  blocked_services = [];
  use_own_settings = false;
  filtering_enabled = true;
  safe_browsing_enabled = false;
  parental_enabled = false;
  use_own_blocked_services = false;
  safe_search_enabled = false;
}

abbrev renamed : Persistent
renamed = record laptop { name = b'm' ∷ []; uid = 8 }

abbrev empty_storage : Storage ℕ ℕ
empty_storage = record {
  index = new_index;
  runtime_index = [];
  upstream_manager = record {
    uid_to_custom_conf = [];
    common_conf = none;
    conf_update = 0;
    closed = [];
  };
  allowed_tags = [];
  arp_db = no_arp;
  runtime_source_dhcp = false;
}

empty_storage-IsValid : IsValid empty_storage
unfolding new_index get
empty_storage-IsValid = record {
  index = new_index-IsSound;
  no_zero = refl;
  keys = λ u c e. cc;
  in_step = λ u. refl;
}

abbrev with_laptop : Storage ℕ ℕ
with_laptop = (add parsers laptop empty_storage).0

with_laptop-IsValid : IsValid with_laptop
with_laptop-IsValid = (add-IsValid parsers laptop empty_storage empty_storage-IsValid).0

add-IsValid_example : Kept laptop.macs (add parsers laptop empty_storage)
add-IsValid_example = add-IsValid parsers laptop empty_storage empty_storage-IsValid

update-IsValid_example : Kept renamed.macs (update parsers (b'l' ∷ []) renamed with_laptop)
update-IsValid_example = update-IsValid parsers (b'l' ∷ []) renamed with_laptop with_laptop-IsValid

remove_by_name-IsValid_example :
    (s : Storage ℕ ℕ) × (b : Bool) × (remove_by_name (b'l' ∷ []) with_laptop ≡ some (s, b))
    × IsValid s
    × (find_by_name s.index (b'l' ∷ []) ≡ none)
remove_by_name-IsValid_example = remove_by_name-IsValid (b'l' ∷ []) with_laptop with_laptop-IsValid

add-Findable_example : Findable with_laptop.index (with_sorted_tags laptop)
unfolding add gdns_server.Client.Persistent.validate gdns_server.Client.Index.clashes_uid get
    new_index clashes with_sorted_tags gdns_server.SortedMap.range_first
    gdns_server.Client.Index.add gdns_server.Client.Index.mac_to_key
add-Findable_example =
    add-Findable parsers laptop empty_storage with_laptop empty_storage-IsValid refl

update-Findable_example :
    (old : Persistent) × (find_by_name with_laptop.index (b'l' ∷ []) ≡ some (some old))
    × Findable
        (update parsers (b'l' ∷ []) renamed with_laptop).0.index
        (record (with_sorted_tags renamed) { uid = old.uid })
unfolding add update gdns_server.Client.Persistent.validate find_by_name get
    gdns_server.Client.Index.clashes_uid new_index clashes with_sorted_tags
    gdns_server.SortedMap.range_first gdns_server.Client.Index.add gdns_server.Base.Dict.put
    text_dec gdns_server.Base.Dict.delete addr_dec gdns_server.SortedMap.set
    gdns_server.Client.Persistent.subnet_compare gdns_server.Client.Persistent.prefix_dec
    gdns_server.Client.Index.remove
update-Findable_example =
    update-Findable parsers (b'l' ∷ []) renamed with_laptop
      (update parsers (b'l' ∷ []) renamed with_laptop).0 with_laptop-IsValid refl

-- 10.0.0.1 is in both subnets.
find_by_ip_longest_example :
    (client_of with_laptop.index 7 ≡ some laptop)
    × ((has addr_dec (v4 167772161) laptop.ips ≡ true)
        ⊎ (Unlisted with_laptop.index (v4 167772161)
            × Longest with_laptop.index (v4 167772161) laptop))
unfolding add find_by_ip get gdns_server.Client.Persistent.validate
    gdns_server.Client.Index.clashes_uid new_index clashes with_sorted_tags
    gdns_server.SortedMap.range_first gdns_server.Client.Index.add gdns_server.Base.Dict.put
    addr_dec gdns_server.Base.Dict.delete gdns_server.SortedMap.set
    gdns_server.Client.Persistent.subnet_compare gdns_server.Client.Persistent.prefix_dec
    gdns_server.Net.contains
find_by_ip_longest_example =
    find_by_ip_longest with_laptop.index (v4 167772161) laptop with_laptop-IsValid.index refl

-- A MAC address of one byte makes the addition of a client panic.
short_mac :
    (add parsers (record laptop { macs = (1 ∷ []) ∷ [] }) empty_storage).1
    ≡ some ClientError.panicked
unfolding add gdns_server.Client.Persistent.validate gdns_server.Client.Index.clashes_uid get
    new_index clashes gdns_server.SortedMap.range_first with_sorted_tags
short_mac = refl
