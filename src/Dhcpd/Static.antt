-- ===== src/Dhcpd/Static.antt =====
-- internal/dhcpd/v4_unix.go: the removal of dynamic leases, and the methods on static leases. A
-- method that takes a `*Lease` from its caller gets the value, and allocates it where it is kept.
pub mod Removal
use gdns_server.Base.{
  ℕ, zero, suc, ◌+◌, Bool, true, false, not, ◌&&◌, ◌||◌, List, [], ◌∷◌, ◌++◌, Option, none, some,
  ◌==◌, if◌then◌else◌, length, get_elem?, drop,
}
use gdns_server.Base.Dict.{Text, text_dec, get}
use gdns_server.Net.{Addr, addr_dec, unmap, is4, contains}
use gdns_server.Dhcpd.Hostname.{Netutil, normalize_hostname, valid_hostname_for_client}
use gdns_server.Dhcpd.BitSet.{new_bit_set}
use gdns_server.Dhcpd.Server.{
  Lease, Ptr, V4Server, Error, unconfigured, not_ipv4, invalid_ip, gateway_ip_taken, invalid_mac,
  no_valid_parts, invalid_hostname, dup_hostname, dup_ip, subnet_does_not_contain,
  static_lease_already_exists, index_out_of_range, lease_changed_added_static,
  lease_changed_removed_static, lease_changed_db_store, store, alloc, notify, text_eq, addr_eq,
  is_empty, rm_lease_by_index, add_lease, rm_lease, find_lease,
}

clear_hostname : Ptr → V4Server → V4Server
clear_hostname p s = store p (record (s.heap p) { hostname = [] }) s

abbrev pub same_client_or_ip : Lease → Lease → Bool
same_client_or_ip l lease = text_eq l.hw_addr lease.hw_addr || addr_eq l.ip lease.ip

-- `if !isStatic && l.Hostname == lease.Hostname { l.Hostname = "" }`
clear_if_same_name : Bool → Ptr → Ptr → V4Server → V4Server
unfolding clear_hostname
clear_if_same_name is_static p lease s =
    if not is_static && text_eq (s.heap p).hostname (s.heap lease).hostname
    then clear_hostname p s
    else s

-- An access to an element of a slice that panics out of its bounds.
at_or_panic : Option Ptr → V4Server → (Ptr → V4Server × Option Error) → V4Server × Option Error
at_or_panic none s k = (s, some index_out_of_range)
at_or_panic (some p) s k = k p

-- One round on a lease that has the client or the address, or not; that is static, or not; and whose
-- removal leaves nothing after it, or not. `s` is the state before and `s'` after the removal.
round :
    Bool
    → Bool
    → Bool
    → V4Server
    → V4Server
    → V4Server × Option Error
    → V4Server × Option Error
    → V4Server × Option Error
round false is_static is_last s s' removed skip = skip
round true true is_last s s' removed skip = (s, some static_lease_already_exists)
round true false true s s' removed skip = (s', none)
round true false false s s' removed skip = removed

-- The loop of `rmDynamicLease`. `for i, l := range s.leases` goes through the array as it was at the
-- start, of which a removal shifts the rest to the left in place: `array` is all of it, with what is
-- left behind at its end, and the first argument is how many indices are left.
rm_dynamic_from : ℕ → ℕ → List Ptr → Ptr → V4Server → V4Server × Option Error
unfolding clear_if_same_name at_or_panic round
rm_dynamic_from zero i array lease s = (s, none)
rm_dynamic_from (suc rounds) i array lease s = at_or_panic (get_elem? array i) s λ p.
    let l = s.heap p in
    let s' = rm_lease_by_index i s in
    let array' = s'.leases ++ drop (length s'.leases) array in
    let removed =
      at_or_panic (get_elem? s'.leases i) s'
        λ p'. rm_dynamic_from rounds (i + 1) array' lease (clear_if_same_name false p' lease s') in
    let skip =
      rm_dynamic_from rounds (i + 1) array lease (clear_if_same_name l.is_static p lease s) in
    round (same_client_or_ip l (s.heap lease)) l.is_static (i == length s'.leases) s s' removed skip

-- The array that the loop leaves, after the removals that it has made in place.
pub array_left : ℕ → ℕ → List Ptr → Ptr → V4Server → List Ptr
unfolding clear_if_same_name
array_left zero i array lease s = array
array_left (suc rounds) i array lease s = elim (get_elem? array i) [
  | none ↦ array
  | some p ↦
      let l = s.heap p in
      let s' = rm_lease_by_index i s in
      let array' = s'.leases ++ drop (length s'.leases) array in
      let removed : List Ptr = elim (get_elem? s'.leases i) [
        | none ↦ array'
        | some p' ↦ array_left rounds (i + 1) array' lease (clear_if_same_name false p' lease s')
      ] in
      let skip = array_left rounds (i + 1) array lease (clear_if_same_name l.is_static p lease s) in
      if not (same_client_or_ip l (s.heap lease))
      then skip
      else if l.is_static
      then array
      else if i == length s'.leases
      then array'
      else removed
]

unfoldable pub rm_dynamic_lease : Ptr → V4Server → V4Server × Option Error
unfolding rm_dynamic_from
rm_dynamic_lease lease s = rm_dynamic_from (length s.leases) 0 s.leases lease s

-- `none` where the chain of steps goes on, in the state that is handed to the next.
abbrev pub and_then :
    V4Server × Option Error → (V4Server → V4Server × Option Error) → V4Server × Option Error
and_then (s, none) k = k s
and_then (s, some e) k = (s, some e)

update_static_lease : Ptr → V4Server → V4Server × Option Error
update_static_lease p s = and_then (rm_dynamic_lease p s) (add_lease p)

checked_hostname : Netutil → Text → Option Error × Text
checked_hostname u [] = (none, [])
checked_hostname u (c ∷ cs) = elim (normalize_hostname u (c ∷ cs)) [
  | none ↦ (some no_valid_parts, [])
  | some h ↦ if u.validate_hostname h then (none, h) else (some invalid_hostname, [])
]

add_checked : Lease → Option Error × Text → V4Server → V4Server × Option Error
add_checked l (some e, h) s = (s, some e)
add_checked l (none, h) s =
    let (s', p) = alloc (record l { hostname = h; is_static = true }) s in
    and_then (update_static_lease p s')
      λ t. (notify lease_changed_added_static (notify lease_changed_db_store t), none)

add_static_lease : Netutil → Lease → V4Server → V4Server × Option Error
unfolding checked_hostname add_checked
add_static_lease u l s =
    let ip = unmap l.ip in
    if not s.configured
    then (s, some unconfigured)
    else if not (is4 ip)
    then (s, some not_ipv4)
    else if addr_eq s.conf.gateway_ip ip
    then (s, some gateway_ip_taken)
    else if not (u.validate_mac l.hw_addr)
    then (s, some invalid_mac)
    else add_checked (record l { ip = ip }) (checked_hostname u l.hostname) s

-- Does the index hold another client's lease under this key?
taken_by_other : V4Server → Option Ptr → Text → Bool
taken_by_other s none mac = false
taken_by_other s (some p) mac = not (text_eq (s.heap p).hw_addr mac)

validate_hostname_of : Netutil → Lease → Text → V4Server → Option Error × Text
unfolding taken_by_other
validate_hostname_of u l h s =
    if not (u.validate_hostname h)
    then (some invalid_hostname, [])
    else if taken_by_other s (get text_dec h s.hosts_index) l.hw_addr
    then (some dup_hostname, [])
    else if taken_by_other s (get addr_dec l.ip s.ip_index) l.hw_addr
    then (some dup_ip, [])
    else if addr_eq s.conf.gateway_ip l.ip
    then (some gateway_ip_taken, [])
    else if not (contains s.conf.subnet l.ip)
    then (some subnet_does_not_contain, [])
    else (none, h)

-- The error, or the normalised host name that the method writes into the lease.
validate_static_lease : Netutil → Lease → V4Server → Option Error × Text
unfolding validate_hostname_of
validate_static_lease u l s = elim (normalize_hostname u l.hostname) [
  | none ↦ (some no_valid_parts, [])
  | some h ↦ validate_hostname_of u l h s
]

replace_lease : Lease → Lease → Option Error × Text → V4Server → V4Server × Option Error
replace_lease found l (some e, h) s = (s, some e)
replace_lease found l (none, h) s =
    let (s', p) = alloc (record l { hostname = h }) s in
    and_then (rm_lease found s') λ t.
      and_then (add_lease p t)
        λ v. (notify lease_changed_removed_static (notify lease_changed_db_store v), none)

update_static : Netutil → Lease → V4Server → V4Server × Option Error
unfolding replace_lease
update_static u l s = elim (find_lease s l.hw_addr) [
  | none ↦ (s, some Error.lease_not_found)
  | some p ↦ replace_lease (s.heap p) l (validate_static_lease u l s) s
]

remove_static_lease : Netutil → Lease → V4Server → V4Server × Option Error
remove_static_lease u l s =
    if not s.configured
    then (s, some unconfigured)
    else if not (is4 l.ip)
    then (s, some invalid_ip)
    else if not (u.validate_mac l.hw_addr)
    then (s, some invalid_mac)
    else and_then (rm_lease l s)
        λ t. (notify lease_changed_removed_static (notify lease_changed_db_store t), none)

-- The leases that `ResetLeases` adds, one by one; one that is refused is logged and left out.
-- `none` is the panic of a lease with no address.
re_add : Netutil → List Lease → V4Server → Option V4Server
re_add u [] s = some s
re_add u (l ∷ ls) s =
    let add = λ (h : Text).
      let (s', p) = alloc (record l { hostname = h }) s in re_add u ls (add_lease p s').0 in
    if l.is_static
    then add l.hostname
    else elim (valid_hostname_for_client u l.hostname l.ip) [ none ↦ none | some h ↦ add h ]

reset_leases : Netutil → List Lease → V4Server → Option V4Server
unfolding re_add
reset_leases u ls s =
    if s.configured
    then re_add u ls
        (record s { leased_offsets = new_bit_set; hosts_index = []; ip_index = []; leases = [] })
    else some s
