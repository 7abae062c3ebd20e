-- ===== src/Client/Runtime.antt =====
-- internal/client/client.go and internal/client/runtimeindex.go: what is known of a client that is not
-- configured, source by source, and the index of such clients by address.
pub mod Sources
use gdns_server.Base.{
  ℕ, ◌+◌, ◌≡◌, refl, Bool, true, false, ◌&&◌, List, [], ◌∷◌, Option, none, some, suc, if◌then◌else◌,
  zero, map,
}
use gdns_server.Base.Dict.{Dict, Text, get, put, delete}
use gdns_server.Net.{Addr, addr_dec}

pub data Source : Type 0 where
  unknown whois arp rdns dhcp hosts_file persistent : Source

-- The numbers of the sources.
abbrev pub rank : Source → ℕ
rank unknown = 0
rank whois = 1
rank arp = 2
rank rdns = 3
rank dhcp = 4
rank hosts_file = 5
rank persistent = 6

-- A slice that may be nil is an `Option (List Text)`. `whois.Info` has three texts that nothing here
-- reads: it is one text.
pub record Runtime : Type 0 where
  pub ip : Addr
  pub whois_info : Option Text
  pub arp_names : Option (List Text)
  pub rdns_names : Option (List Text)
  pub dhcp_names : Option (List Text)
  pub hosts_file_names : Option (List Text)

unfoldable pub new_runtime : Addr → Runtime
new_runtime a = record {
  ip = a;
  whois_info = none;
  arp_names = none;
  rdns_names = none;
  dhcp_names = none;
  hosts_file_names = none;
}

-- The names that the best source gives.
best_names : Runtime → Source × List Text
best_names r = elim r.hosts_file_names [
  | some names ↦ (hosts_file, names)
  | none ↦ elim r.dhcp_names [
    | some names ↦ (dhcp, names)
    | none ↦ elim r.rdns_names [
      | some names ↦ (rdns, names)
      | none ↦ elim r.arp_names [
        | some names ↦ (arp, names)
        | none ↦ elim r.whois_info [ some w ↦ (whois, []) | none ↦ (unknown, []) ]
      ]
    ]
  ]
]

first_name : List Text → Text
first_name [] = []
first_name (n ∷ ns) = n

info : Runtime → Source × Text
unfolding best_names first_name
info r = let (src, names) = best_names r in (src, first_name names)

-- A single empty name is no name.
unfoldable pub proper : List Text → List Text
proper [] = []
proper (n ∷ m ∷ ns) = n ∷ m ∷ ns
proper ([] ∷ []) = []
proper ((c ∷ cs) ∷ []) = (c ∷ cs) ∷ []

unfoldable pub set_info : Source → List Text → Runtime → Runtime
unfolding proper
set_info arp names r = record r { arp_names = some (proper names) }
set_info rdns names r = record r { rdns_names = some (proper names) }
set_info dhcp names r = record r { dhcp_names = some (proper names) }
set_info hosts_file names r = record r { hosts_file_names = some (proper names) }
set_info unknown names r = r
set_info whois names r = r
set_info persistent names r = r

unfoldable pub set_whois : Text → Runtime → Runtime
set_whois w r = record r { whois_info = some w }

unfoldable pub unset : Source → Runtime → Runtime
unset whois r = record r { whois_info = none }
unset arp r = record r { arp_names = none }
unset rdns r = record r { rdns_names = none }
unset dhcp r = record r { dhcp_names = none }
unset hosts_file r = record r { hosts_file_names = none }
unset unknown r = r
unset persistent r = r

is_nil : {A : Type 0} → Option A → Bool
is_nil none = true
is_nil (some a) = false

unfoldable pub is_empty : Runtime → Bool
unfolding is_nil
is_empty r =
    is_nil r.whois_info
    && (is_nil r.arp_names
        && (is_nil r.rdns_names && (is_nil r.dhcp_names && is_nil r.hosts_file_names)))

abbrev pub RuntimeIndex : Type 0
RuntimeIndex = Dict Addr Runtime

abbrev pub client : RuntimeIndex → Addr → Option Runtime
client ri a = get addr_dec a ri

abbrev pub add : Runtime → RuntimeIndex → RuntimeIndex
add r ri = put addr_dec r.ip r ri

known_or_new : Addr → Option Runtime → Runtime
unfolding new_runtime
known_or_new a none = new_runtime a
known_or_new a (some r) = r

-- The client of an address, a new one if there is none.
unfoldable pub obtain : RuntimeIndex → Addr → Runtime
unfolding known_or_new
obtain ri a = known_or_new a (client ri a)

-- The Go map holds a pointer: the entry that changes is the one of the address.
unfoldable pub set_index_info : Addr → Source → List Text → RuntimeIndex → RuntimeIndex
unfolding obtain set_info
set_index_info a src names ri = put addr_dec a (set_info src names (obtain ri a)) ri

unfoldable pub clear_source : Source → RuntimeIndex → RuntimeIndex
unfolding unset
clear_source src [] = []
clear_source src ((a, r) ∷ ri) = (a, unset src r) ∷ clear_source src ri

unfoldable pub remove_empty : RuntimeIndex → RuntimeIndex × ℕ
unfolding is_empty
remove_empty [] = ([], 0)
remove_empty ((a, r) ∷ ri) =
    let (rest, n) = remove_empty ri in
    if is_empty r then (delete addr_dec a rest, suc n) else ((a, r) ∷ rest, n)

set_all_info : Source → List (Addr × List Text) → RuntimeIndex → RuntimeIndex
unfolding set_index_info
set_all_info src [] ri = ri
set_all_info src ((a, names) ∷ es) ri = set_all_info src es (set_index_info a src names ri)

-- The update that the storage does for each source: forget what the source said before, enter what
-- it says now, and drop the clients that nothing is known of.
unfoldable pub refresh : Source → List (Addr × List Text) → RuntimeIndex → RuntimeIndex × ℕ
unfolding clear_source set_all_info remove_empty
refresh src es ri = remove_empty (set_all_info src es (clear_source src ri))
