-- ===== src/Dhcpd/Alloc/Commit.antt =====
-- What `commitLease` of internal/dhcpd/v4_unix.go enters into the indexes of host names and addresses.
use mathlib.Core.Option
use mathlib.Core.Option.{some-injective}
use gdns_server.Base.{
  ℕ, ◌+◌, ◌≡◌, ◌≢◌, refl, sym, ap, ◌∙◌, subst, false, [], none, some, if_pos, if_neg, Option-cases,
  inl, inr, ℕ_discrete,
}
use gdns_server.Base.Dict.{Text, text_dec, get, get-put_self}
use gdns_server.Net.{addr_dec}
use gdns_server.Dhcpd.Hostname.{Netutil, valid_hostname_for_client, generate_hostname}
use gdns_server.Dhcpd.Server.{Ptr, V4Server, store, is_empty, host_by_ip, ip_by_host}
use gdns_server.Dhcpd.Alloc.{commit_lease, commit_as, committed_hostname}

-- The lease after it is committed under a name.
heap-commit_as :
    (p : Ptr) (h : Text) (now : ℕ) (s : V4Server)
    → (commit_as p h now s).heap p
      ≡ record (s.heap p) { hostname = h; expiry = now + s.conf.lease_time }
unfolding commit_as store
heap-commit_as p h now s = if_pos (ℕ_discrete p p) refl _ _

host_by_ip-commit_as :
    (p : Ptr) (h : Text) (now : ℕ) (s : V4Server)
    → host_by_ip (commit_as p h now s) (s.heap p).ip ≡ h
unfolding commit_as host_by_ip store
host_by_ip-commit_as p h now s =
    rw (host_by_ip, get-put_self addr_dec (s.heap p).ip p s.ip_index)
      (ap (λ l. l.hostname) (heap-commit_as p h now s))

ip_by_host-commit_as :
    (p : Ptr) (h : Text) (now : ℕ) (s : V4Server)
    → is_empty h ≡ false
    → ip_by_host (commit_as p h now s) h ≡ (s.heap p).ip
unfolding commit_as ip_by_host
ip_by_host-commit_as p h now s e =
    rw (ip_by_host, e, get-put_self text_dec h p _) (ap (λ l. l.ip) (heap-commit_as p h now s))

-- What a committed lease is: its time begins anew, and its name and address lead to each other.
pub record Committed (s t : V4Server) (p : Ptr) (now : ℕ) : Type 0 where
  pub same_ip : (t.heap p).ip ≡ (s.heap p).ip
  pub same_client : (t.heap p).hw_addr ≡ (s.heap p).hw_addr
  pub renewed : (t.heap p).expiry ≡ now + s.conf.lease_time
  pub named : host_by_ip t (s.heap p).ip ≡ (t.heap p).hostname
  pub found :
      is_empty (t.heap p).hostname ≡ false → ip_by_host t (t.heap p).hostname ≡ (s.heap p).ip
  pub others : (q : Ptr) → p ≢ q → t.heap q ≡ s.heap q

commit_as-Committed :
    (p : Ptr) (h : Text) (now : ℕ) (s : V4Server) → Committed s (commit_as p h now s) p now
unfolding commit_as store
commit_as-Committed p h now s =
    let c = heap-commit_as p h now s in
    record {
      same_ip = ap (λ l. l.ip) c;
      same_client = ap (λ l. l.hw_addr) c;
      renewed = ap (λ l. l.expiry) c;
      named = host_by_ip-commit_as p h now s ∙ sym (ap (λ l. l.hostname) c);
      found = λ e.
          rw (ap (λ l. l.hostname) c)
            (ip_by_host-commit_as p h now s (rw (ap (λ l. l.hostname) c) at e));
      others = λ q d. if_neg (ℕ_discrete p q) d _ _;
    }

-- A lease that is committed has its full time, its address leads to its name, its name leads to its
-- address, and no other lease changes.
pub commit_lease-Committed :
    (u : Netutil) (p : Ptr) (hostname : Text) (now : ℕ) (s t : V4Server)
    → commit_lease u p hostname now s ≡ some t
    → Committed s t p now
unfolding commit_lease
commit_lease-Committed u p hostname now s t e =
    elim (Option-cases (committed_hostname u hostname (s.heap p) s)) [
      | inl n ↦ let z : none ≡ some t = rw (n) at e in cc
      | inr (h, c) ↦
          subst (λ x. Committed s x p now) (some-injective _ _ (rw (c) at e))
            (commit_as-Committed p h now s)
    ]

-- A client asks for a name that is taken, and has no name yet. It gets the name that is generated
-- from its address, also where another lease has that name: the index then leads from the name to
-- the new lease, and the other lease keeps the name.
pub commit_lease_takes_over :
    (u : Netutil) (p q r : Ptr) (hostname h g : Text) (now : ℕ) (s : V4Server)
    → valid_hostname_for_client u hostname (s.heap p).ip ≡ some h
    → get text_dec h s.hosts_index ≡ some r
    → (s.heap p).hostname ≡ []
    → generate_hostname (s.heap p).ip ≡ some g
    → is_empty g ≡ false
    → (s.heap q).hostname ≡ g
    → p ≢ q
    → (t : V4Server) × (commit_lease u p hostname now s ≡ some t)
      × (ip_by_host t g ≡ (s.heap p).ip)
      × ((t.heap q).hostname ≡ g)
      × ((t.heap p).hostname ≡ g)
unfolding commit_lease committed_hostname
commit_lease_takes_over u p q r hostname h g now s v taken new gen ne other d =
    let name : committed_hostname u hostname (s.heap p) s ≡ some g =
      rw (committed_hostname, v, taken, new) gen in
    (
      commit_as p g now s,
      ap (Option.map (λ x. commit_as p x now s)) name,
      ip_by_host-commit_as p g now s ne,
      ap (λ l. l.hostname) ((commit_as-Committed p g now s).others q d) ∙ other,
      ap (λ l. l.hostname) (heap-commit_as p g now s),
    )
