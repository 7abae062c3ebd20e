-- ===== src/Dhcpd/Alloc.antt =====
-- internal/dhcpd/v4_unix.go: the choice of an address for a new client, and the commitment of a
-- lease.
pub mod Fresh
pub mod Termination
pub mod Commit
use mathlib.Core.Option
use gdns_server.Base.{
  ℕ, zero, suc, ◌+◌, ◌-◌, Bool, true, false, not, ◌&&◌, List, [], ◌∷◌, ◌++◌, Option, none, some,
  ltb, if◌then◌else◌, length, get_elem?, drop,
}
use gdns_server.Base.Dict.{Text, text_dec, get, put, delete}
use gdns_server.Net.{Addr, invalid, NetIp, addr_dec, addr_from_slice, to4}
use gdns_server.Dhcpd.Hostname.{Netutil, valid_hostname_for_client, generate_hostname}
use gdns_server.Dhcpd.BitSet.{is_set}
use gdns_server.Dhcpd.IpRange.{offset, find}
use gdns_server.Dhcpd.Server.{
  Lease, Ptr, V4Server, Error, invalid_ip, store, alloc, text_eq, is_empty, add_lease,
  blocklist_lease,
}

-- The test of `nextIP`: the address is in the range and its bit is not set.
unfoldable pub is_free : V4Server → NetIp → Bool
is_free s ip = elim (offset s.conf.ip_range ip) [
  | none ↦ false
  | some n ↦ not (is_set s.leased_offsets n)
]

unfoldable pub next_ip : V4Server → NetIp
unfolding is_free
next_ip s = to4 (find s.conf.ip_range (is_free s))

unfoldable pub expired_from : ℕ → (Ptr → Lease) → List Ptr → Option Ptr
expired_from now heap [] = none
expired_from now heap (p ∷ ps) =
    if not (heap p).is_static && ltb (heap p).expiry now then some p else expired_from now heap ps

-- `findExpiredLease`, with the lease itself for its index; `none` is the index -1.
unfoldable pub find_expired_lease : V4Server → ℕ → Option Ptr
unfolding expired_from
find_expired_lease s now = expired_from now s.heap s.leases

-- `copy(dst, src)`: the first bytes of `dst`, as many as `src` has.
unfoldable pub copy : Text → Text → Text
copy [] src = []
copy (d ∷ dst) [] = d ∷ dst
copy (d ∷ dst) (c ∷ src) = c ∷ copy dst src

-- What `reserveLease` and `allocateLease` return: an error, neither a lease nor an error, or a lease.
pub data Reserved : Type 0 where
  failed : Error → Reserved
  exhausted : Reserved
  granted : Ptr → Reserved

abbrev pub Outcome : Type 0
Outcome = V4Server × Reserved

unfoldable pub new_lease : Text → Addr → Lease
new_lease mac ip = record { ip = ip; expiry = 0; hostname = []; hw_addr = mac; is_static = false }

-- The expired lease is taken over: only its hardware address changes.
reuse_expired : Text → ℕ → V4Server → Outcome
reuse_expired mac now s = elim (find_expired_lease s now) [
  | none ↦ (s, exhausted)
  | some p ↦ let l = s.heap p in (store p (record l { hw_addr = copy l.hw_addr mac }) s, granted p)
]

granted_unless : Ptr → Option Error → Reserved
granted_unless p none = granted p
granted_unless p (some e) = failed e

add_new : V4Server × Ptr → Outcome
unfolding granted_unless
add_new (s, p) = let (t, e) = add_lease p s in (t, granted_unless p e)

reserve_at : NetIp → Text → ℕ → V4Server → Outcome
unfolding reuse_expired add_new new_lease
reserve_at ip mac now s = elim ip [
  | NetIp.absent ↦ reuse_expired mac now s
  | ip ↦ elim (addr_from_slice ip) [
    | none ↦ (s, failed invalid_ip)
    | some a ↦ add_new (alloc (new_lease mac a) s)
  ]
]

unfoldable pub reserve_lease : Text → ℕ → V4Server → Outcome
unfolding reserve_at next_ip
reserve_lease mac now s = reserve_at (next_ip s) mac now s

-- What a round of `allocateLease` meets: the time, and whether the ping of an address goes
-- unanswered (as it does where pings are turned off).
pub record Env : Type 0 where
  pub now : ℕ → ℕ
  pub available : ℕ → Addr → Bool

-- The loop of `allocateLease` on fuel; the outer `none` means that the fuel ran out.
settle : Env → ℕ → Outcome → (V4Server → Option Outcome) → Option Outcome
settle env k (t, failed e) again = some (t, failed e)
settle env k (t, exhausted) again = some (t, exhausted)
settle env k (t, granted p) again =
    if env.available k (t.heap p).ip
    then some (t, granted p)
    else again (blocklist_lease p (env.now k) t)

unfoldable pub allocate_lease : ℕ → ℕ → Env → Text → V4Server → Option Outcome
unfolding settle
allocate_lease zero k env mac s = none
allocate_lease (suc fuel) k env mac s =
    settle env k (reserve_lease mac (env.now k) s) (allocate_lease fuel (k + 1) env mac)

-- The name that `commitLease` settles on. `none` is the panic at the zero address.
unfoldable pub committed_hostname : Netutil → Text → Lease → V4Server → Option Text
committed_hostname u hostname l s = elim (valid_hostname_for_client u hostname l.ip) [
  | none ↦ none
  | some h ↦ elim (get text_dec h s.hosts_index) [
    | none ↦ some h
    | some q ↦ if is_empty l.hostname then generate_hostname l.ip else some l.hostname
  ]
]

commit_as : Ptr → Text → ℕ → V4Server → V4Server
commit_as p h now s =
    let l = s.heap p in
    let hosts =
      if not (is_empty l.hostname) && not (text_eq l.hostname h)
      then delete text_dec l.hostname s.hosts_index
      else s.hosts_index in
    let s' = store p (record l { hostname = h; expiry = now + s.conf.lease_time }) s in
    record s' {
      hosts_index = if is_empty h then hosts else put text_dec h p hosts;
      ip_index = put addr_dec l.ip p s.ip_index;
    }

unfoldable pub commit_lease : Netutil → Ptr → Text → ℕ → V4Server → Option V4Server
unfolding commit_as committed_hostname
commit_lease u p hostname now s =
    Option.map (λ h. commit_as p h now s) (committed_hostname u hostname (s.heap p) s)
