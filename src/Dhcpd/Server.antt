-- ===== src/Dhcpd/Server.antt =====
-- internal/dhcpd/v4_unix.go and internal/dhcpsvc/lease.go: the state of `v4Server` and the
-- operations on its lease table. Leases are shared by pointers: the table and the two indexes hold
-- addresses of a heap, so that a write through one is seen through all. A time is a number, 0 the
-- zero `time.Time`; the lock makes each method one step.
pub mod Invariant
pub mod Removal
use gdns_server.Base.{
  ℕ, zero, suc, ◌+◌, ◌-◌, ◌≡◌, refl, Bool, true, false, not, ◌&&◌, ◌||◌, List, [], ◌∷◌, ◌++◌,
  Option, none, some, ◌==◌, ltb, leb, if◌then◌else◌, ite, ℕ_discrete, length, get_elem?, remove_at,
}
use gdns_server.Base.Dict.{Dict, Text, text_dec, get, put, delete}
use gdns_server.Net.{Addr, invalid, v4, addr_dec, as_slice, Prefix, contains, is4}
use gdns_server.Dhcpd.BitSet.{BitSet, new_bit_set, is_set, set}
use gdns_server.Dhcpd.IpRange.{Range, offset}

pub record Lease : Type 0 where
  pub ip : Addr
  pub expiry : ℕ
  pub hostname : Text
  pub hw_addr : Text
  pub is_static : Bool

-- A pointer to a lease.
abbrev pub Ptr : Type 0
Ptr = ℕ

-- The fields of `V4ServerConf` that the lease table reads.
pub record V4Conf : Type 0 where
  pub gateway_ip : Addr
  pub subnet : Prefix
  pub ip_range : Option Range
  pub lease_time : ℕ
  pub dns_ip : Addr

pub data Notification : Type 0 where
  lease_changed_added lease_changed_added_static : Notification
  lease_changed_removed_static lease_changed_db_store : Notification

pub data Error : Type 0 where
  unconfigured invalid_ip not_ipv4 gateway_ip_taken invalid_mac no_valid_parts : Error
  invalid_hostname subnet_does_not_contain out_of_range dup_hostname dup_ip : Error
  static_lease_already_exists lease_is_different lease_not_found : Error
  index_out_of_range : Error

-- `heap` and `fresh` are the memory of leases: the addresses from `fresh` on are not yet used.
-- `configured` is false where `s.conf` is nil.
pub record V4Server : Type 0 where
  pub configured : Bool
  pub conf : V4Conf
  pub heap : Ptr → Lease
  pub fresh : Ptr
  pub leased_offsets : Option BitSet
  pub leases : List Ptr
  pub hosts_index : Dict Text Ptr
  pub ip_index : Dict Addr Ptr
  pub notified : List Notification

-- A write through a pointer.
unfoldable pub store : Ptr → Lease → V4Server → V4Server
store p l s = record s { heap = λ q. ite (ℕ_discrete p q) l (s.heap q) }

-- A new lease in memory, and its pointer.
unfoldable pub alloc : Lease → V4Server → V4Server × Ptr
unfolding store
alloc l s = (record (store s.fresh l s) { fresh = s.fresh + 1 }, s.fresh)

abbrev pub text_eq : Text → Text → Bool
text_eq a b = ite (text_dec a b) true false

abbrev pub addr_eq : Addr → Addr → Bool
addr_eq a b = ite (addr_dec a b) true false

abbrev pub is_empty : Text → Bool
is_empty [] = true
is_empty (c ∷ cs) = false

-- `notify` calls the server's callback, which stores the database; here it is recorded.
unfoldable pub notify : Notification → V4Server → V4Server
notify n s = record s { notified = n ∷ s.notified }

unfoldable pub host_by_ip : V4Server → Addr → Text
host_by_ip s ip = elim (get addr_dec ip s.ip_index) [ none ↦ [] | some p ↦ (s.heap p).hostname ]

unfoldable pub ip_by_host : V4Server → Text → Addr
ip_by_host s host = elim (get text_dec host s.hosts_index) [
  | none ↦ invalid
  | some p ↦ (s.heap p).ip
]

all_zero : Text → Bool
all_zero [] = true
all_zero (b ∷ bs) = (b == 0) && all_zero bs

is_blocklisted : Lease → Bool
unfolding all_zero
is_blocklisted l = not (is_empty l.hw_addr) && all_zero l.hw_addr

-- `GetLeases` for the leases of the table in order: a live dynamic one, or else a static one.
get_leases : Bool → Bool → ℕ → (Ptr → Lease) → List Ptr → List Lease
unfolding is_blocklisted
get_leases dynamic static now heap [] = []
get_leases dynamic static now heap (p ∷ ps) =
    let l = heap p in
    let rest = get_leases dynamic static now heap ps in
    if dynamic && ltb now l.expiry && not (is_blocklisted l)
    then l ∷ rest
    else if static && l.is_static
    then l ∷ rest
    else rest

find_mac_by_ip : V4Server → Addr → ℕ → Option Text
find_mac_by_ip s ip now =
    if is4 ip
    then elim (get addr_dec ip s.ip_index) [
      | none ↦ none
      | some p ↦
          let l = s.heap p in if l.is_static || ltb now l.expiry then some l.hw_addr else none
    ]
    else none

-- `make(net.HardwareAddr, 6)`
abbrev blocked_hw_addr : Text
blocked_hw_addr = 0 ∷ 0 ∷ 0 ∷ 0 ∷ 0 ∷ 0 ∷ []

unfoldable pub blocklist_lease : Ptr → ℕ → V4Server → V4Server
unfolding store
blocklist_lease p now s =
    store p
      (record (s.heap p) {
        hw_addr = blocked_hw_addr;
        hostname = [];
        expiry = now + s.conf.lease_time;
      })
      s

abbrev pub lease_offset : V4Server → Lease → Option ℕ
lease_offset s l = offset s.conf.ip_range (as_slice l.ip)

clear_offset : Option BitSet → Option ℕ → Option BitSet
clear_offset b none = b
clear_offset b (some n) = set b n false

unfoldable pub take_out : ℕ → Lease → V4Server → V4Server
unfolding clear_offset
take_out i l s = record s {
  leases = remove_at s.leases i;
  leased_offsets = clear_offset s.leased_offsets (lease_offset s l);
  hosts_index = delete text_dec l.hostname s.hosts_index;
  ip_index = delete addr_dec l.ip s.ip_index;
}

unfoldable pub rm_lease_by_index : ℕ → V4Server → V4Server
unfolding take_out
rm_lease_by_index i s = elim (get_elem? s.leases i) [ none ↦ s | some p ↦ take_out i (s.heap p) s ]

-- The checks of `addLease` on the address of the lease.
admissible : V4Server → Lease → Option Error
admissible s l =
    if l.is_static
    then (if contains s.conf.subnet l.ip then none else some subnet_does_not_contain)
    else elim (lease_offset s l) [ none ↦ some out_of_range | some n ↦ none ]

-- A static lease outside of the range has no offset, and Go's zero value is used for it.
offset_or_zero : Option ℕ → ℕ
offset_or_zero none = 0
offset_or_zero (some n) = n

unfoldable pub enter : Ptr → V4Server → V4Server
unfolding offset_or_zero
enter p s =
    let l = s.heap p in
    record s {
      ip_index = put addr_dec l.ip p s.ip_index;
      leases = s.leases ++ p ∷ [];
      leased_offsets = set s.leased_offsets (offset_or_zero (lease_offset s l)) true;
    }

-- The new state, and the error if there is one.
unfoldable pub add_lease : Ptr → V4Server → V4Server × Option Error
unfolding admissible enter
add_lease p s =
    let l = s.heap p in
    elim (admissible s l) [
      | some e ↦ (s, some e)
      | none ↦
          if is_empty l.hostname
          then (enter p s, none)
          else elim (get text_dec l.hostname s.hosts_index) [
            | some q ↦ (s, some dup_hostname)
            | none ↦
                (enter p (record s { hosts_index = put text_dec l.hostname p s.hosts_index }), none)
          ]
    ]

-- The loop of `rmLease`, from the index `i` of the first pointer of the list.
rm_lease_from : ℕ → Lease → List Ptr → V4Server → V4Server × Option Error
rm_lease_from i lease [] s = (s, some lease_not_found)
rm_lease_from i lease (p ∷ ps) s =
    let l = s.heap p in
    let rest = rm_lease_from (i + 1) lease ps s in
    if addr_eq l.ip lease.ip
    then (if text_eq l.hw_addr lease.hw_addr && text_eq l.hostname lease.hostname
        then (rm_lease_by_index i s, none)
        else (s, some lease_is_different))
    else rest

unfoldable pub rm_lease : Lease → V4Server → V4Server × Option Error
unfolding rm_lease_from rm_lease_by_index
rm_lease lease s = elim s.leases [ [] ↦ (s, none) | p ∷ ps ↦ rm_lease_from 0 lease (p ∷ ps) s ]

find_lease_in : (Ptr → Lease) → Text → List Ptr → Option Ptr
find_lease_in heap mac [] = none
find_lease_in heap mac (p ∷ ps) =
    if text_eq mac (heap p).hw_addr then some p else find_lease_in heap mac ps

unfoldable pub find_lease : V4Server → Text → Option Ptr
unfolding find_lease_in
find_lease s mac = find_lease_in s.heap mac s.leases
