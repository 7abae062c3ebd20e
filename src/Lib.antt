-- ===== src/Lib.antt =====
-- Verification of the core of GDNS-Server, the Go program of internal/: the DHCPv4 server, the
-- storage of clients, the access lists of the DNS server, the rewrites of the filtering,
-- blocking schedules, the users and sessions of the web interface, and the limiter of failed
-- logins.
--
-- The parts, and where they are modelled:
--
-- - Dhcpd: internal/dhcpd. A request reaches a handler (Dhcpd/Handlers: handleDiscover,
--   handleRequest, handleDecline; Dhcpd/Handlers/Release: handleRelease; they are chosen by
--   messageHandlers and handle in Dhcpd/Handlers/Dispatch), which looks for a lease in the
--   table, or has one allocated (Dhcpd/Alloc: nextIP, reserveLease, allocateLease, commitLease).
--   The table, its indexes by host name and address, and the set of taken offsets are
--   Dhcpd/Server (v4Server, addLease, rmLease, rmLeaseByIndex); static leases are Dhcpd/Static
--   (AddStaticLease, UpdateStaticLease, RemoveStaticLease, ResetLeases, rmDynamicLease);
--   bitset.go is Dhcpd/BitSet, iprange.go is Dhcpd/IpRange, and the host names of v4_unix.go and
--   internal/aghnet/hostgen.go are Dhcpd/Hostname. Leases are shared by pointers in Go, so the
--   table holds addresses of a heap.
-- - Client: internal/client. The storage (Client/Storage: Add, Update, RemoveByName, Find; and
--   Client/Storage/Updates: ReloadARP, UpdateDHCP, UpdateAddress, ClientRuntime) holds the index
--   of configured clients (Client/Index: index.go, over Client/Persistent: persistent.go), the
--   runtime clients (Client/Runtime: client.go and runtimeindex.go) and the upstream
--   configurations of clients (Client/Upstreams: upstreammanager.go). The index keeps subnets in
--   SortedMap, which is internal/aghalg/sortedmap.go. The storage asks the DHCP server for host
--   names and MAC addresses through an interface, which is the record Dhcp.
-- - RateLimiter: internal/home/authratelimiter.go.
-- - Dnsforward: internal/dnsforward. The lists of allowed and disallowed clients and of blocked
--   hosts are Dnsforward/Access (access.go, and IsBlockedClient of dnsforward.go), and their
--   update over HTTP is Dnsforward/Access/Update. The middleware (Dnsforward/Middleware:
--   middleware.go, with NormalizeDomain of internal/aghnet/addr.go) takes the ClientID of a
--   request (Dnsforward/ClientId: clientid.go), and asks the lists whether the request is
--   served.
-- - Filtering: internal/filtering. Filtering/Rewrites is rewrites.go, with processRewrites and
--   handleRewriteLoop of filtering.go, which follow the CNAME records.
-- - Schedule: internal/schedule/schedule.go; Schedule/Codec is its JSON and YAML.
-- - Aghuser: internal/aghuser. Users are Aghuser/Users (db.go), sessions are Aghuser/Sessions
--   (sessionstorage.go). Sessions are kept in a bbolt database, which is the interface
--   Aghuser/Bolt; Aghuser/Bolt/Memory is an instance of it.
-- - Net models what the code uses of Go's net and net/netip. Base has the shared lists,
--   association lists, bits and integers. Tests runs the code on concrete inputs.
--
-- Conventions. A method that changes state is a function from state to state, with the error
-- that it returns; a Go map is an association list; a nil pointer and a missing key are `none`;
-- a panic is an error `panicked`, `index_out_of_range` or an outer `none`. A time is a number of
-- nanoseconds that is passed in. A lock makes each method one step, and so is the creation of a
-- session, which writes to the database before it takes the lock. Logging is left out, and a
-- notification is recorded. What comes from other packages (parsers, the validators of golibs,
-- tables of letters, the ping of an address, the building of an upstream configuration, the
-- codecs of JSON and YAML, the calendar, the sort of slices, the engine of filtering rules) is a
-- parameter; where a theorem relies on it, the documented behaviour is a hypothesis. Whether a
-- call of the database fails is a flag.
--
-- Bounds and fuel. The bit set has words of 64 bits and the counter of the limiter wraps at
-- 2^64. allocate_lease runs on fuel, since allocateLease loops until an address answers no ping:
-- each round uses up a free offset of the range or an expired lease, so that their number is
-- fuel enough. handle_rewrite_loop runs on fuel: each turn goes to a canonical name not gone to
-- before, which is the answer of an entry, so that more fuel than entries is enough. The loops
-- over slices are recursion on the list; rm_dynamic_from recurses on the number of indices that
-- are left, since Go fixes it when the loop starts.
--
-- Not modelled: the option bytes of DHCP replies, sockets and goroutines, the DHCPv6 server, the
-- new DHCP service of internal/dhcpsvc, the rest of DNS forwarding and of filtering, query log
-- and statistics, the migration of configurations, HTTP handlers beside the one named, and
-- everything that is not Go.
pub mod Base
pub mod Net
pub mod SortedMap
pub mod RateLimiter
pub mod Schedule
pub mod Aghuser
pub mod Filtering
pub mod Dnsforward
pub mod Client
pub mod Dhcpd
pub mod Tests
