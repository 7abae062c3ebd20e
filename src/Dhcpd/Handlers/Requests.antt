-- ===== src/Dhcpd/Handlers/Requests.antt =====
-- The handlers of internal/dhcpd/v4_unix.go: which lease a request is granted, and the lease that a
-- decline enters.
use mathlib.Core.Option.{some-injective}
use gdns_server.Base.{
  ℕ, zero, suc, ◌≡◌, ◌≢◌, sym, ap, ◌∙◌, subst, List, [], ◌∷◌, ◌++◌, Option, none, some, arith,
  Option-cases, Bool-cases, inl, inr, ◌⊎◌, get_elem?, All, Distinct,
}
use gdns_server.Base.Dict.{Text}
use gdns_server.Net.{Addr, NetIp, addr_from_slice}
use gdns_server.Dhcpd.Server.{Lease, Ptr, V4Server, Error, text_eq, addr_eq, store}
use gdns_server.Dhcpd.Server.Removal.{add_lease-leases}
use gdns_server.Dhcpd.Alloc.{granted}
use gdns_server.Dhcpd.Handlers.{
  Request, Response, matches, missing, check_from, check_lease, handle_selecting,
  handle_init_reboot, handle_renew, handle_by_request_type, selecting_verdict, known_verdict,
  decline_with, acked_with,
}

-- A lease of the table that belongs to the client and has the address.
pub record Matching (s : V4Server) (mac : Text) (ip : NetIp) (p : Ptr) : Type 0 where
  pub position : ℕ
  pub in_table : get_elem? s.leases position ≡ some p
  pub same_client : (s.heap p).hw_addr ≡ mac
  pub same_ip : addr_from_slice ip ≡ some (s.heap p).ip

check_from-matches :
    (heap : Ptr → Lease) (mac : Text) (ip : Addr) (ps : List Ptr) (p : Ptr)
    → check_from heap mac ip ps ≡ matches p
    → (i : ℕ) × (get_elem? ps i ≡ some p) × ((heap p).hw_addr ≡ mac) × ((heap p).ip ≡ ip)
unfolding check_from
check_from-matches heap mac ip [] p e = cc
check_from-matches heap mac ip (q ∷ ps) p e = elim (Bool-cases (text_eq (heap q).hw_addr mac)) [
  | inr m ↦
      let (i, g, h, j) = check_from-matches heap mac ip ps p (ground (arith, e, m)) in
      (suc i, g, h, j)
  | inl m ↦ elim (Bool-cases (addr_eq (heap q).ip ip)) [
    | inr a ↦ absurd (ground (arith, e, m, a))
    | inl a ↦
        let same : q ≡ p = ground (arith, e, m, a) in
        (
          0,
          ap some same,
          subst (λ x. (heap x).hw_addr ≡ mac) same (ground (arith, m)),
          subst (λ x. (heap x).ip ≡ ip) same (ground (arith, a)),
        )
  ]
]

check_lease-Matching :
    (s : V4Server) (mac : Text) (ip : NetIp) (p : Ptr)
    → check_lease s mac ip ≡ matches p
    → Matching s mac ip p
unfolding check_lease
check_lease-Matching s mac ip p e = elim (Option-cases (addr_from_slice ip)) [
  | inl n ↦ let z : missing ≡ matches p = rw (check_lease, n) at e in cc
  | inr (a, n) ↦
      let (i, g, m, j) = check_from-matches s.heap mac a s.leases p (rw (check_lease, n) at e) in
      record { position = i; in_table = g; same_client = m; same_ip = n ∙ ap some (sym j) }
]

-- A lease that is granted was found by `checkLease`.
request-checked :
    (s : V4Server) (req : Request) (p : Ptr)
    → (handle_by_request_type s req).0 ≡ some p
    → (check_lease s req.client_hw_addr req.requested_ip ≡ matches p)
      ⊎ (check_lease s req.client_hw_addr req.client_ip_addr ≡ matches p)
unfolding handle_by_request_type handle_selecting handle_init_reboot handle_renew selecting_verdict
    known_verdict
request-checked s req p h = ground arith

-- A request is granted a lease only of the table, of the client that sends it, and with the address
-- that the client asks for or, where it renews, already has.
pub handle_by_request_type-Matching :
    (s : V4Server) (req : Request) (p : Ptr)
    → (handle_by_request_type s req).0 ≡ some p
    → Matching s req.client_hw_addr req.requested_ip p
      ⊎ Matching s req.client_hw_addr req.client_ip_addr p
handle_by_request_type-Matching s req p h = elim (request-checked s req p h) [
  | inl e ↦ inl (check_lease-Matching s req.client_hw_addr req.requested_ip p e)
  | inr e ↦ inr (check_lease-Matching s req.client_hw_addr req.client_ip_addr p e)
]

not-Distinct_append :
    (xs : List Ptr) (i : ℕ) (p : Ptr) → get_elem? xs i ≡ some p → ¬ Distinct (xs ++ p ∷ [])
not-Distinct_append [] i p g d = cc
not-Distinct_append (x ∷ xs) zero p g d = last xs d.0
  where
    last : (xs : List Ptr) → ¬ All (λ y. x ≢ y) (xs ++ p ∷ [])
    last [] h = h.0 (some-injective _ _ g)
    last (y ∷ ys) h = last ys h.1
not-Distinct_append (x ∷ xs) (suc i) p g d = not-Distinct_append xs i p g d.1

acked_with-added :
    (r : V4Server × Option Error) (p : Ptr) (resp resp' : Response) (t' : V4Server)
    → acked_with r p resp ≡ (t', resp', none)
    → r ≡ (t', none)
unfolding acked_with
acked_with-added (t, none) p resp resp' t' d = ap (λ x. (x, none)) (ap (λ x. x.0) d)
acked_with-added (t, some e) p resp resp' t' d = let z : some e ≡ none = ap (λ x. x.2) d in cc

leases-acked_with :
    (now : ℕ) (old p : Ptr) (resp resp' : Response) (t t' : V4Server)
    → decline_with now old resp (t, granted p) ≡ (t', resp', none)
    → t'.leases ≡ t.leases ++ p ∷ []
unfolding decline_with store
leases-acked_with now old p resp resp' t t' d =
    add_lease-leases _ t' p (acked_with-added _ p resp resp' t' d)

-- A decline that is acknowledged enters the lease that was allocated for the client at the end of the
-- table. The allocation entered it before, so that the table then has the lease twice.
pub decline_with_twice :
    (now i : ℕ) (old p : Ptr) (resp resp' : Response) (t t' : V4Server)
    → get_elem? t.leases i ≡ some p
    → decline_with now old resp (t, granted p) ≡ (t', resp', none)
    → ¬ (Distinct t'.leases)
decline_with_twice now i old p resp resp' t t' g e d =
    not-Distinct_append t.leases i p g
      (subst Distinct (leases-acked_with now old p resp resp' t t' e) d)
