-- ===== src/Dhcpd/Handlers.antt =====
-- internal/dhcpd/v4_unix.go: the handlers of DHCP messages, and the reply code of `handle`. The
-- packet itself is a message of a foreign library: a request has the values that the handlers read,
-- and of the response the message type, the address and the host names are kept.
pub mod Requests
pub mod Release
pub mod Dispatch
use gdns_server.Base.{
  ℕ, zero, suc, ◌+◌, Bool, true, false, not, ◌&&◌, ◌||◌, List, [], ◌∷◌, Option, none, some,
  if◌then◌else◌,
}
use gdns_server.Base.Dict.{Text}
use gdns_server.Base.Int.{ℤ, pos, negsuc}
use gdns_server.Net.{
  Addr, invalid, v4, NetIp, absent, four, addr_from_slice, as_slice, to4, is_absent, is_unspecified,
  net_ip_equal, contains,
}
use gdns_server.Dhcpd.Hostname.{Netutil}
use gdns_server.Dhcpd.Server.{
  Lease, Ptr, V4Server, Error, lease_changed_added, lease_changed_db_store, store, notify, text_eq,
  addr_eq, is_empty, add_lease, find_lease,
}
use gdns_server.Dhcpd.Static.{rm_dynamic_lease}
use gdns_server.Dhcpd.Alloc.{Env, Outcome, failed, exhausted, granted, allocate_lease, commit_lease}

pub data MessageType : Type 0 where
  discover request decline release other : MessageType

pub record Request : Type 0 where
  pub message_type : MessageType
  pub client_hw_addr : Text
  pub requested_ip : NetIp
  pub server_identifier : NetIp
  pub client_ip_addr : NetIp
  pub host_name : Text
  pub asks_host_name : Bool

pub data ReplyType : Type 0 where
  no_type offer ack : ReplyType

pub record Response : Type 0 where
  pub reply_type : ReplyType
  pub your_ip : NetIp
  pub fqdn : Option Text
  pub reply_host_name : Option Text

-- What `checkLease` found: the lease, a lease of the client with another address, or none.
pub data Checked : Type 0 where
  matches : Ptr → Checked
  mismatch : Checked
  missing : Checked

check_from : (Ptr → Lease) → Text → Addr → List Ptr → Checked
check_from heap mac ip [] = missing
check_from heap mac ip (p ∷ ps) =
    let l = heap p in
    let rest = check_from heap mac ip ps in
    if not (text_eq l.hw_addr mac) then rest else if addr_eq l.ip ip then matches p else mismatch

unfoldable pub check_lease : V4Server → Text → NetIp → Checked
unfolding check_from
check_lease s mac ip = elim (addr_from_slice ip) [
  | none ↦ missing
  | some a ↦ check_from s.heap mac a s.leases
]

-- The lease, if any, and whether a client with none needs a reply.
abbrev pub Verdict : Type 0
Verdict = Option Ptr × Bool

has_ciaddr : Request → Bool
has_ciaddr req = not (is_absent req.client_ip_addr) && not (is_unspecified req.client_ip_addr)

-- In SELECTING state the client is answered even where it has no lease.
selecting_verdict : Checked → Verdict
selecting_verdict (matches p) = (some p, true)
selecting_verdict mismatch = (none, true)
selecting_verdict missing = (none, true)

-- In the other states a client that is not known is left without an answer.
known_verdict : Checked → Verdict
known_verdict (matches p) = (some p, true)
known_verdict mismatch = (none, true)
known_verdict missing = (none, false)

unfoldable pub handle_selecting : V4Server → Request → Verdict
unfolding has_ciaddr selecting_verdict
handle_selecting s req =
    if not (net_ip_equal req.server_identifier (as_slice s.conf.dns_ip))
    then (none, false)
    else if has_ciaddr req
    then (none, false)
    else if is_absent (to4 req.requested_ip)
    then (none, false)
    else selecting_verdict (check_lease s req.client_hw_addr req.requested_ip)

addr_of_four : NetIp → Addr
addr_of_four absent = invalid
addr_of_four (four a) = v4 a
addr_of_four (NetIp.sixteen a) = invalid
addr_of_four NetIp.malformed = invalid

unfoldable pub handle_init_reboot : V4Server → Request → Verdict
unfolding has_ciaddr known_verdict addr_of_four
handle_init_reboot s req =
    let ip4 = to4 req.requested_ip in
    if is_absent ip4
    then (none, false)
    else if has_ciaddr req
    then (none, false)
    else if not (contains s.conf.subnet (addr_of_four ip4))
    then (none, true)
    else known_verdict (check_lease s req.client_hw_addr req.requested_ip)

unfoldable pub handle_renew : V4Server → Request → Verdict
unfolding known_verdict
handle_renew s req =
    let ciaddr = req.client_ip_addr in
    if is_absent ciaddr || is_unspecified ciaddr || is_absent (to4 ciaddr)
    then (none, false)
    else known_verdict (check_lease s req.client_hw_addr ciaddr)

unfoldable pub handle_by_request_type : V4Server → Request → Verdict
unfolding handle_selecting handle_init_reboot handle_renew
handle_by_request_type s req =
    if not (is_absent req.server_identifier) && not (is_unspecified req.server_identifier)
    then handle_selecting s req
    else if not (is_absent req.requested_ip) && not (is_unspecified req.requested_ip)
    then handle_init_reboot s req
    else handle_renew s req

-- A state, a response and the verdict; the outer `none` is a panic or, where a handler allocates,
-- fuel that ran out.
abbrev Handled : Type 0
Handled = V4Server × Response × Verdict

notify_added : V4Server → V4Server
notify_added s = notify lease_changed_db_store (notify lease_changed_added s)

ack_static : V4Server → Response → Ptr → Bool → Handled
unfolding notify_added
ack_static s resp p reply =
    let h = (s.heap p).hostname in
    let named = record resp { fqdn = if is_empty h then resp.fqdn else some h } in
    (notify_added s, named, (some p, reply))

ack_dynamic : Netutil → Request → ℕ → V4Server → Response → Ptr → Bool → Option Handled
unfolding notify_added
ack_dynamic u req now s resp p reply = elim (commit_lease u p req.host_name now s) [
  | none ↦ none
  | some t ↦
      let requested = not (is_empty req.host_name) || req.asks_host_name in
      let h = if requested then some (t.heap p).hostname else resp.reply_host_name in
      some (notify_added t, record resp { reply_host_name = h }, (some p, reply))
]

answer : Netutil → Request → ℕ → V4Server → Response → Verdict → Option Handled
unfolding ack_static ack_dynamic
answer u req now s resp (none, reply) = some (s, resp, (none, reply))
answer u req now s resp (some p, reply) =
    let acked = record resp { reply_type = ack } in
    if (s.heap p).is_static
    then some (ack_static s acked p reply)
    else ack_dynamic u req now s acked p reply

unfoldable pub handle_request : Netutil → Request → ℕ → V4Server → Response → Option Handled
unfolding answer
handle_request u req now s resp = answer u req now s resp (handle_by_request_type s req)

offer_of : Response → Outcome → V4Server × Response × Option Error × Option Ptr
offer_of resp (t, failed e) = (notify lease_changed_db_store t, resp, some e, none)
offer_of resp (t, exhausted) = (notify lease_changed_db_store t, resp, none, none)
offer_of resp (t, granted p) =
    (notify lease_changed_db_store t, record resp { reply_type = offer }, none, some p)

-- The fuel is that of `allocate_lease`, and `none` is its end.
unfoldable pub handle_discover :
    ℕ
    → Env
    → Request
    → V4Server
    → Response
    → Option (V4Server × Response × Option Error × Option Ptr)
unfolding offer_of
handle_discover fuel env req s resp = elim (find_lease s req.client_hw_addr) [
  | some p ↦ some (offer_of resp (s, granted p))
  | none ↦ elim (allocate_lease fuel 0 env req.client_hw_addr s) [
    | none ↦ none
    | some o ↦ some (offer_of resp o)
  ]
]

find_for_ip : (Ptr → Lease) → Text → Addr → List Ptr → Option Ptr
find_for_ip heap mac ip [] = none
find_for_ip heap mac ip (p ∷ ps) =
    if text_eq (heap p).hw_addr mac && addr_eq (heap p).ip ip
    then some p
    else find_for_ip heap mac ip ps

unfoldable pub find_lease_for_ip : V4Server → NetIp → Text → Option Ptr
unfolding find_for_ip
find_lease_for_ip s ip mac = elim (addr_from_slice ip) [
  | none ↦ none
  | some a ↦ find_for_ip s.heap mac a s.leases
]

abbrev requested_or_client : Request → NetIp
requested_or_client req =
    if is_absent req.requested_ip then req.client_ip_addr else req.requested_ip

acked_with : V4Server × Option Error → Ptr → Response → V4Server × Response × Option Error
acked_with (t, some e) p resp = (t, resp, some e)
acked_with (t, none) p resp =
    (t, record resp { reply_type = ack; your_ip = as_slice (t.heap p).ip }, none)

-- The new lease takes the host name of the old one, and is entered into the table.
unfoldable pub decline_with : ℕ → Ptr → Response → Outcome → V4Server × Response × Option Error
unfolding acked_with
decline_with now old resp (t, failed e) = (t, resp, some e)
decline_with now old resp (t, exhausted) =
    (t, record resp { reply_type = ack; your_ip = four 0 }, none)
decline_with now old resp (t, granted p) =
    let renewed = record (t.heap p) {
      hostname = (t.heap old).hostname;
      expiry = now + t.conf.lease_time;
    } in
    acked_with (add_lease p (store p renewed t)) p resp

decline_old :
    ℕ
    → Env
    → ℕ
    → Request
    → Response
    → Ptr
    → V4Server × Option Error
    → Option (V4Server × Response × Option Error)
unfolding decline_with
decline_old fuel env now req resp old (t, some e) = some (t, resp, some e)
decline_old fuel env now req resp old (t, none) =
    elim (allocate_lease fuel 0 env req.client_hw_addr t) [
      | none ↦ none
      | some o ↦ some (decline_with now old resp o)
    ]

unfoldable pub handle_decline :
    ℕ → Env → ℕ → Request → V4Server → Response → Option (V4Server × Response × Option Error)
unfolding decline_old
handle_decline fuel env now req s resp =
    let s' = notify lease_changed_db_store s in
    elim (find_lease_for_ip s' (requested_or_client req) req.client_hw_addr) [
      | none ↦ some (s', resp, none)
      | some old ↦ decline_old fuel env now req resp old (rm_dynamic_lease old s')
    ]

-- The possible reply codes of `handle`: 1 is a reply, 0 a refusal, -1 no reply.
unfoldable pub request_code : Verdict → ℤ
request_code (some p, reply) = pos 1
request_code (none, true) = pos 0
request_code (none, false) = negsuc 0
