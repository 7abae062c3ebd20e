-- ===== src/Tests/Requests.antt =====
-- Runs of the handlers of internal/dhcpd/v4_unix.go.
use gdns_server.Base.{
  ℕ, ◌+◌, ◌≡◌, ◌≢◌, refl, Bool, true, false, List, [], ◌∷◌, Option, none, some, ◌⊎◌, Distinct,
}
use gdns_server.Base.Dict.{Text}
use gdns_server.Net.{Addr, v4, NetIp, four, absent, mapped}
use gdns_server.Dhcpd.IpRange.{Range}
use gdns_server.Dhcpd.BitSet.{new_bit_set}
use gdns_server.Dhcpd.Server.{Lease, Ptr, V4Server}
use gdns_server.Dhcpd.Alloc.{granted}
use gdns_server.Dhcpd.Handlers.{
  MessageType, Request, Response, ReplyType, handle_by_request_type, decline_with,
}
use gdns_server.Dhcpd.Handlers.Requests.{
  Matching, handle_by_request_type-Matching, decline_with_twice,
}

abbrev mac_1 : Text
mac_1 = 2 ∷ 0 ∷ 0 ∷ 0 ∷ 0 ∷ 1 ∷ []

abbrev lease_12 : Lease
lease_12 = record { ip = v4 12; expiry = 0; hostname = []; hw_addr = mac_1; is_static = false }

abbrev server : V4Server
server = record {
  configured = true;
  conf = record {
    gateway_ip = v4 1;
    subnet = record { addr = v4 0; bits = 24 };
    ip_range = some (record { start = mapped + 10; end = mapped + 20 });
    lease_time = 3600;
    dns_ip = v4 1;
  };
  heap = λ p. lease_12;
  fresh = 1;
  leased_offsets = new_bit_set;
  leases = 0 ∷ [];
  hosts_index = [];
  ip_index = [];
  notified = [];
}

-- A request in SELECTING state for 0.0.0.12.
abbrev request_12 : Request
request_12 = record {
  message_type = MessageType.request;
  client_hw_addr = mac_1;
  requested_ip = four 12;
  server_identifier = four 1;
  client_ip_addr = four 0;
  host_name = [];
  asks_host_name = false;
}

handle_by_request_type-Matching_example :
    Matching server mac_1 (four 12) 0 ⊎ Matching server mac_1 (four 0) 0
unfolding handle_by_request_type gdns_server.Dhcpd.Handlers.check_lease
    gdns_server.Base.Dict.text_dec gdns_server.Net.addr_dec
handle_by_request_type-Matching_example = handle_by_request_type-Matching server request_12 0 refl

abbrev response : Response
response = record {
  reply_type = ReplyType.no_type;
  your_ip = absent;
  fqdn = none;
  reply_host_name = none;
}

decline_with_twice_example : ¬ Distinct (decline_with 5 0 response (server, granted 0)).0.leases
unfolding decline_with gdns_server.Dhcpd.Server.add_lease gdns_server.Dhcpd.Server.store
    gdns_server.Base.ℕ_discrete gdns_server.Dhcpd.IpRange.offset
decline_with_twice_example =
    decline_with_twice 5 0 0 0 response (decline_with 5 0 response (server, granted 0)).1 server
      (decline_with 5 0 response (server, granted 0)).0 refl refl
