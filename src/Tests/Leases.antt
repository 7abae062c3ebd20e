-- ===== src/Tests/Leases.antt =====
-- Runs of internal/dhcpd/v4_unix.go: leases of a range of eleven addresses.
use gdns_server.Base.{
  ℕ, ◌+◌, ◌≤◌, ◌<◌, ◌≡◌, refl, ap, Bool, true, false, [], ◌∷◌, Option, none, some, arith, All,
  get_elem?, ltb, length, ◌==◌, if◌then◌else◌,
}
use gdns_server.Base.Dict.{Text, text_dec, get}
use gdns_server.Net.{absent, four, Addr, invalid, v4, Prefix, NetIp, four, mapped, is4}
use gdns_server.Dhcpd.BitSet.{new_bit_set, is_set}
use gdns_server.Dhcpd.IpRange.{Range}
use gdns_server.Dhcpd.Server.{Lease, V4Server, add_lease, alloc, ip_by_host}
use gdns_server.Dhcpd.Server.Invariant.{IsConsistent, alloc-IsConsistent, add_lease-IsConsistent}
use gdns_server.Dhcpd.Server.Removal.{add_lease_out_of_range}
use gdns_server.Dhcpd.Handlers.{MessageType, Request, Response, ReplyType}
use gdns_server.Dhcpd.Handlers.Release.{handle_release, handle_release-IsConsistent}
use gdns_server.Dhcpd.Static.{rm_dynamic_lease}
use gdns_server.Dhcpd.Static.Removal.{rm_dynamic_lease-IsConsistent, rm_dynamic_lease_misses}
use gdns_server.Dhcpd.Alloc.{Env, Outcome, reserve_lease, allocate_lease, next_ip, commit_lease}
use gdns_server.Dhcpd.Alloc.Fresh.{IsRange4, Reserves, reserve_lease-Reserves}
use gdns_server.Dhcpd.Alloc.Termination.{Allocated, IsBrief, work_left, allocate_lease_total}
use gdns_server.Dhcpd.Alloc.Commit.{Committed, commit_lease-Committed, commit_lease_takes_over}
use gdns_server.Dhcpd.Hostname.{Netutil, valid_hostname_for_client, generate_hostname}

abbrev range : Range
range = record { start = mapped + 10; end = mapped + 20 }

range-IsRange4 : IsRange4 range
range-IsRange4 = record { not_empty = omega arith; low = omega arith; high = omega arith }

abbrev blank : Lease
blank = record { ip = invalid; expiry = 0; hostname = []; hw_addr = []; is_static = false }

abbrev server : V4Server
server = record {
  configured = true;
  conf = record {
    gateway_ip = v4 1;
    subnet = record { addr = v4 0; bits = 24 };
    ip_range = some range;
    lease_time = 3600;
    dns_ip = v4 1;
  };
  heap = λ p. blank;
  fresh = 0;
  leased_offsets = new_bit_set;
  leases = [];
  hosts_index = [];
  ip_index = [];
  notified = [];
}

server-IsConsistent : IsConsistent server
unfolding new_bit_set
server-IsConsistent = record {
  bits = record { words = [] };
  has_bits = refl;
  distinct = tt;
  entered = tt;
}

abbrev mac_1 : Text
mac_1 = 2 ∷ 0 ∷ 0 ∷ 0 ∷ 0 ∷ 1 ∷ []

reserve_lease-Reserves_example : Reserves server range mac_1 5 (reserve_lease mac_1 5 server)
reserve_lease-Reserves_example =
    reserve_lease-Reserves server range mac_1 5 refl range-IsRange4 server-IsConsistent

-- Every address answers a ping but the lowest.
abbrev env : Env
env = record { now = λ k. 50; available = λ k a. ltb 0 k }

allocate_lease_total_example :
    (o : Outcome) × (allocate_lease 12 0 env mac_1 server ≡ some o) × Allocated env o
unfolding work_left gdns_server.Dhcpd.Alloc.Termination.count_free is_set new_bit_set get
    gdns_server.Dhcpd.Alloc.Termination.count_old
allocate_lease_total_example =
    allocate_lease_total 12 0 60 env mac_1 server range refl range-IsRange4 server-IsConsistent
      (λ k. (omega arith, omega arith)) (omega arith)

-- A lease in memory, at the pointer 0.
abbrev lease_12 : Lease
lease_12 = record {
  ip = v4 12;
  expiry = 0;
  hostname = b'h' ∷ [];
  hw_addr = mac_1;
  is_static = false;
}

abbrev with_memory : V4Server
with_memory = (alloc lease_12 server).0

with_memory-IsConsistent : IsConsistent with_memory
with_memory-IsConsistent = alloc-IsConsistent server lease_12 server-IsConsistent

add_lease-IsConsistent_example : IsConsistent (add_lease 0 with_memory).0
unfolding alloc gdns_server.Base.ℕ_discrete
add_lease-IsConsistent_example =
    add_lease-IsConsistent with_memory 0 with_memory-IsConsistent (omega arith) refl tt

abbrev with_lease : V4Server
with_lease = (add_lease 0 with_memory).0

with_lease-IsConsistent : IsConsistent with_lease
unfolding alloc gdns_server.Base.ℕ_discrete
with_lease-IsConsistent =
    add_lease-IsConsistent with_memory 0 with_memory-IsConsistent (omega arith) refl tt

rm_dynamic_lease-IsConsistent_example : IsConsistent (rm_dynamic_lease 0 with_lease).0
rm_dynamic_lease-IsConsistent_example =
    rm_dynamic_lease-IsConsistent 0 with_lease with_lease-IsConsistent

-- A table of two leases of the client, and one of the heap to look for.
abbrev two_leases : V4Server
two_leases = record server {
  heap = λ p. record lease_12 { ip = v4 (12 + p) };
  fresh = 2;
  leases = 0 ∷ 1 ∷ [];
}

rm_dynamic_lease_misses_example : get_elem? (rm_dynamic_lease 0 two_leases).0.leases 0 ≡ some 1
unfolding text_dec
rm_dynamic_lease_misses_example = rm_dynamic_lease_misses two_leases 0 0 1 [] refl refl refl

-- A static lease in the subnet, but not in the range.
abbrev with_static : V4Server
with_static = (alloc (record lease_12 { ip = v4 5; is_static = true }) server).0

add_lease_out_of_range_example : is_set (add_lease 0 with_static).0.leased_offsets 0 ≡ true
unfolding alloc add_lease new_bit_set gdns_server.Dhcpd.IpRange.offset gdns_server.Base.ℕ_discrete
    gdns_server.Net.contains get
add_lease_out_of_range_example =
    add_lease_out_of_range with_static (add_lease 0 with_static).0 0 (record { words = [] }) refl
      refl refl

-- Every name is valid, and the first address of the range is 0.0.0.10.
abbrev netutil : Netutil
netutil = record {
  is_valid_host_outer_rune = λ c. true;
  validate_hostname = λ h. true;
  validate_mac = λ m. true;
  to_lower_rune = λ c. c;
}

abbrev committed : V4Server
committed = elim (commit_lease netutil 0 (b'x' ∷ []) 5 with_lease) [
  | none ↦ with_lease
  | some t ↦ t
]

commit_lease-Committed_example : Committed with_lease committed 0 5
unfolding commit_lease valid_hostname_for_client gdns_server.Dhcpd.Hostname.normalize_hostname get
    add_lease alloc gdns_server.Base.ℕ_discrete gdns_server.Dhcpd.IpRange.offset
    gdns_server.Base.Dict.put text_dec gdns_server.Base.Dict.delete
commit_lease-Committed_example =
    commit_lease-Committed netutil 0 (b'x' ∷ []) 5 with_lease committed refl

-- The name 0-0-0-12.
abbrev generated : Text
generated = b'0' ∷ b'-' ∷ b'0' ∷ b'-' ∷ b'0' ∷ b'-' ∷ b'1' ∷ b'2' ∷ []

-- The lease 0 is new, and the lease 1 has the name that is generated for the address of the lease 0.
abbrev named_alike : V4Server
named_alike = record server {
  heap = λ p.
      if p == 0
      then record lease_12 { hostname = [] }
      else record lease_12 { ip = v4 13; hostname = generated };
  fresh = 2;
  leases = 0 ∷ 1 ∷ [];
  hosts_index = (generated, 1) ∷ [];
}

commit_lease_takes_over_example :
    (t : V4Server) × (commit_lease netutil 0 generated 5 named_alike ≡ some t)
    × (ip_by_host t generated ≡ v4 12)
    × ((t.heap 1).hostname ≡ generated)
    × ((t.heap 0).hostname ≡ generated)
unfolding valid_hostname_for_client gdns_server.Dhcpd.Hostname.normalize_hostname get text_dec
    generate_hostname gdns_server.Net.unmap
commit_lease_takes_over_example =
    commit_lease_takes_over netutil 0 1 1 generated generated generated 5 named_alike refl refl refl
      refl refl refl (λ e. cc)

abbrev release_12 : Request
release_12 = record {
  message_type = MessageType.release;
  client_hw_addr = [];
  requested_ip = absent;
  server_identifier = absent;
  client_ip_addr = four 12;
  host_name = [];
  asks_host_name = false;
}

abbrev no_response : Response
no_response = record {
  reply_type = ReplyType.no_type;
  your_ip = absent;
  fqdn = none;
  reply_host_name = none;
}

handle_release-IsConsistent_example :
    IsConsistent (handle_release release_12 with_lease no_response).0
handle_release-IsConsistent_example =
    handle_release-IsConsistent release_12 with_lease no_response with_lease-IsConsistent
