-- ===== src/Client/Index.antt =====
-- internal/client/index.go: the index of persistent clients. A pointer that a map gives for a
-- missing UID is nil, here `none`. The key of a MAC address is the address itself, and `macToKey` panics
-- at an address of another length than 6, 8 or 20 bytes.
pub mod Ownership
pub mod Soundness
pub mod Checks
use gdns_server.Base.{
  ℕ, ◌+◌, ◌≡◌, refl, Bool, true, false, not, List, [], ◌∷◌, Option, none, some, ◌==◌, if◌then◌else◌,
  ite, length, ℕ_discrete, ◌||◌,
}
use gdns_server.Base.Dict.{Dict, Text, text_dec, get, put, delete}
use gdns_server.Net.{Addr, invalid, addr_dec, Prefix, contains, without_zone}
use gdns_server.SortedMap.{SortedMap, set, del, range_first}
use gdns_server.Client.Persistent.{
  Persistent, Parsers, ClientError, same_uid, same_name, same_client_id, same_ip, same_subnet,
  same_mac, prefix_dec, subnet_compare, compare_text, sort,
}

pub record Index : Type 0 where
  pub subnet_to_uid : SortedMap Prefix ℕ
  pub name_to_uid : Dict Text ℕ
  pub client_id_to_uid : Dict Text ℕ
  pub ip_to_uid : Dict Addr ℕ
  pub mac_to_uid : Dict Text ℕ
  pub uid_to_client : Dict ℕ Persistent

unfoldable pub new_index : Index
new_index = record {
  subnet_to_uid = record { vals = []; keys = [] };
  name_to_uid = [];
  client_id_to_uid = [];
  ip_to_uid = [];
  mac_to_uid = [];
  uid_to_client = [];
}

-- A `*Persistent`, which may be nil.
abbrev pub Ref : Type 0
Ref = Option Persistent

abbrev pub client_of : Index → ℕ → Ref
client_of ci uid = get ℕ_discrete uid ci.uid_to_client

-- `none` is the panic.
unfoldable pub mac_to_key : Text → Option Text
mac_to_key mac =
    if (length mac == 6) || ((length mac == 8) || (length mac == 20)) then some mac else none

-- Whether a loop over the MAC addresses comes to its end: it panics at an address with no key.
unfoldable pub has_keys : List Text → Bool
unfolding mac_to_key
has_keys [] = true
has_keys (m ∷ ms) = let rest = has_keys ms in elim (mac_to_key m) [ none ↦ false | some k ↦ rest ]

module _ {K : Type 0} (dec : Discrete K) where
  unfoldable pub put_all : List K → ℕ → Dict K ℕ → Dict K ℕ
  put_all [] uid m = m
  put_all (k ∷ ks) uid m = put_all ks uid (put dec k uid m)

  unfoldable pub delete_all : List K → Dict K ℕ → Dict K ℕ
  delete_all [] m = m
  delete_all (k ∷ ks) m = delete_all ks (delete dec k m)

unfoldable pub set_all : List Prefix → ℕ → SortedMap Prefix ℕ → SortedMap Prefix ℕ
set_all [] uid m = m
set_all (p ∷ ps) uid m = set_all ps uid (set prefix_dec subnet_compare p uid m)

unfoldable pub del_all : List Prefix → SortedMap Prefix ℕ → SortedMap Prefix ℕ
del_all [] m = m
del_all (p ∷ ps) m = del_all ps (del prefix_dec subnet_compare p m)

-- What `add` does where every MAC address has a key.
unfoldable pub enter : Persistent → Index → Index
unfolding put_all set_all
enter c ci = record {
  subnet_to_uid = set_all c.subnets c.uid ci.subnet_to_uid;
  name_to_uid = put text_dec c.name c.uid ci.name_to_uid;
  client_id_to_uid = put_all text_dec c.client_ids c.uid ci.client_id_to_uid;
  ip_to_uid = put_all addr_dec c.ips c.uid ci.ip_to_uid;
  mac_to_uid = put_all text_dec c.macs c.uid ci.mac_to_uid;
  uid_to_client = put ℕ_discrete c.uid c ci.uid_to_client;
}

-- `none` is the panic at a client with no UID, or at a MAC address with no key.
unfoldable pub add : Persistent → Index → Option Index
unfolding enter has_keys
add c ci = if (c.uid == 0) || not (has_keys c.macs) then none else some (enter c ci)

-- What `remove` does where every MAC address has a key.
unfoldable pub leave : Persistent → Index → Index
unfolding delete_all del_all
leave c ci = record {
  subnet_to_uid = del_all c.subnets ci.subnet_to_uid;
  name_to_uid = delete text_dec c.name ci.name_to_uid;
  client_id_to_uid = delete_all text_dec c.client_ids ci.client_id_to_uid;
  ip_to_uid = delete_all addr_dec c.ips ci.ip_to_uid;
  mac_to_uid = delete_all text_dec c.macs ci.mac_to_uid;
  uid_to_client = delete ℕ_discrete c.uid ci.uid_to_client;
}

-- `none` is the panic at a MAC address with no key.
unfoldable pub remove : Persistent → Index → Option Index
unfolding leave has_keys
remove c ci = if has_keys c.macs then some (leave c ci) else none

-- A result and whether it was found: `none` is not found.
abbrev pub Lookup : Type 0
Lookup = Option Ref

unfoldable pub resolve : Index → Option ℕ → Lookup
resolve ci none = none
resolve ci (some uid) = some (client_of ci uid)

unfoldable pub find_by_client_id : Index → Text → Lookup
unfolding resolve
find_by_client_id ci id = resolve ci (get text_dec id ci.client_id_to_uid)

unfoldable pub find_by_name : Index → Text → Lookup
unfolding resolve
find_by_name ci name = resolve ci (get text_dec name ci.name_to_uid)

-- `none` is the panic at a MAC address with no key.
unfoldable pub find_by_mac : Index → Text → Option Lookup
unfolding resolve mac_to_key
find_by_mac ci mac = elim (mac_to_key mac) [
  | none ↦ none
  | some k ↦ some (resolve ci (get text_dec k ci.mac_to_uid))
]

-- An exact address, or else the first subnet in order that contains it.
unfoldable pub uid_by_ip : Index → Addr → Option ℕ
uid_by_ip ci ip = elim (get addr_dec ip ci.ip_to_uid) [
  | some uid ↦ some uid
  | none ↦ range_first prefix_dec (λ p. contains p (without_zone ip)) ci.subnet_to_uid
]

unfoldable pub find_by_ip : Index → Addr → Lookup
unfolding uid_by_ip resolve
find_by_ip ci ip = resolve ci (uid_by_ip ci ip)

-- The walk that looks for exactly this subnet.
abbrev pub uid_by_subnet : Index → Prefix → Option ℕ
uid_by_subnet ci p = range_first prefix_dec (λ q. ite (prefix_dec p q) true false) ci.subnet_to_uid

unfoldable pub find_by_cidr : Index → Prefix → Lookup
unfolding resolve
find_by_cidr ci p = resolve ci (uid_by_subnet ci p)

or_else : Lookup → Lookup → Lookup
or_else none b = b
or_else (some a) b = some a

or_by_mac : Lookup → Option Lookup → Option Lookup
or_by_mac none b = b
or_by_mac (some a) b = some (some a)

-- A ClientID, or else an address, or else a MAC address, as far as the text can be read as one.
-- `none` is the panic of `find_by_mac`.
unfoldable pub find : Parsers → Index → Text → Option Lookup
unfolding or_else or_by_mac
find u ci id =
    let by_ip = elim (u.parse_addr id) as (λ _. Lookup) [
      | none ↦ none
      | some ip ↦ find_by_ip ci ip
    ] in
    let by_mac = elim (u.parse_mac id) as (λ _. Option Lookup) [
      | none ↦ some none
      | some m ↦ find_by_mac ci m
    ] in
    or_by_mac (or_else (find_by_client_id ci id) by_ip) by_mac

loose_in : Index → Addr → Dict Addr ℕ → Ref
loose_in ci ip [] = none
loose_in ci ip ((a, u) ∷ m) =
    let rest = loose_in ci ip m in ite (addr_dec (without_zone a) ip) (client_of ci u) rest

-- The first entry with this address under any zone. Go leaves the order of the map open.
unfoldable pub find_by_ip_without_zone : Index → Addr → Ref
unfolding loose_in
find_by_ip_without_zone ci ip = ite (addr_dec ip invalid) none (loose_in ci ip ci.ip_to_uid)

unfoldable pub size : Index → ℕ
size ci = length ci.uid_to_client

unfoldable pub clashes_uid : Index → Persistent → Option ClientError
clashes_uid ci c = elim (client_of ci c.uid) [ none ↦ none | some p ↦ some same_uid ]

-- The first of the keys that belongs to another client: the UID of that client.
module _ {K : Type 0} where
  unfoldable pub clash_in : (K → Option ℕ) → ℕ → List K → Option ℕ
  clash_in owner uid [] = none
  clash_in owner uid (k ∷ ks) =
      let rest = clash_in owner uid ks in
      elim (owner k) [ none ↦ rest | some u ↦ if u == uid then rest else some u ]

-- The checks of addresses, subnets and MAC addresses report a client only if its pointer is not nil.
reported : Index → Option ℕ → ClientError → Option ClientError → Option ClientError
reported ci none e next = next
reported ci (some u) e next = elim (client_of ci u) [ none ↦ next | some p ↦ some e ]

-- The check of the name compares the UID of the client itself, and panics on a nil pointer.
clashes_name : Index → Persistent → Option ClientError
unfolding find_by_name
clashes_name ci c = elim (find_by_name ci c.name) [
  | none ↦ none
  | some none ↦ some ClientError.panicked
  | some (some p) ↦ if p.uid == c.uid then none else some same_name
]

first_error : Option ClientError → Option ClientError → Option ClientError
first_error none next = next
first_error (some e) next = some e

-- The check of ClientIDs reads the name of the client found, and panics on a nil pointer.
reported_or_panic : Index → Option ℕ → ClientError → Option ClientError → Option ClientError
reported_or_panic ci none e next = next
reported_or_panic ci (some u) e next = elim (client_of ci u) [
  | none ↦ some ClientError.panicked
  | some p ↦ some e
]

-- The loop of `clashesMAC`: the outer `none` is the panic at a MAC address with no key.
unfoldable pub clash_mac : Index → ℕ → List Text → Option (Option ℕ)
unfolding mac_to_key
clash_mac ci uid [] = some none
clash_mac ci uid (m ∷ ms) =
    let rest = clash_mac ci uid ms in
    elim (mac_to_key m) as (λ _. Option (Option ℕ)) [
      | none ↦ none
      | some k ↦ elim (get text_dec k ci.mac_to_uid) as (λ _. Option (Option ℕ)) [
        | none ↦ rest
        | some u ↦ if u == uid then rest else some (some u)
      ]
    ]

reported_mac : Index → Option (Option ℕ) → Option ClientError
unfolding reported
reported_mac ci none = some ClientError.panicked
reported_mac ci (some o) = reported ci o same_mac none

unfoldable pub clashes : Index → Persistent → Option ClientError
unfolding clash_in reported reported_or_panic clashes_name first_error reported_mac clash_mac
clashes ci c =
    let by_client_id = clash_in (λ i. get text_dec i ci.client_id_to_uid) c.uid c.client_ids in
    let by_ip = clash_in (λ i. get addr_dec i ci.ip_to_uid) c.uid c.ips in
    let by_subnet = clash_in (uid_by_subnet ci) c.uid c.subnets in
    let by_mac = clash_mac ci c.uid c.macs in
    first_error (clashes_name ci c) (
      reported_or_panic ci by_client_id same_client_id
        (reported ci by_ip same_ip (reported ci by_subnet same_subnet (reported_mac ci by_mac))))
