-- ===== src/Dhcpd/Server/Removal.antt =====
-- The removal of one lease in internal/dhcpd/v4_unix.go, and the bit that a static lease sets.
use mathlib.Core.Option.{some-injective}
use gdns_server.Base.{
  ℕ, suc, ◌+◌, ◌<◌, ◌∙◌, ℕ_discrete, ◌≡◌, ◌≢◌, refl, sym, ap, subst, true, false, ◌&&◌, List, [],
  ◌∷◌, ◌++◌, Option, none, some, arith, All, get_elem?, if◌then◌else◌, ite, inl, inr, ◌⊎◌,
}
use gdns_server.Base.Dict.{text_dec}
use gdns_server.Net.{addr_dec}
use gdns_server.Dhcpd.BitSet.{BitSet, is_set, set, is_set-set}
use gdns_server.Dhcpd.Server.{
  Lease, Ptr, V4Server, Error, lease_not_found, lease_is_different, lease_offset, rm_lease,
  rm_lease_from, rm_lease_by_index, text_eq, add_lease, enter, offset_or_zero,
}
use gdns_server.Dhcpd.Server.Invariant.{IsConsistent, rm_lease_by_index-IsConsistent}

-- No lease of the table before the index `i` has the address.
abbrev NoneBefore : Lease → V4Server → ℕ → Type 0
NoneBefore lease s i =
    (j : ℕ) (q : Ptr) → j < i → get_elem? s.leases j ≡ some q → (s.heap q).ip ≢ lease.ip

-- What the loop of `rmLease` does on the leases of a list: it removes the first lease with the address
-- if its client and name are the same, fails if they differ, and fails if there is no such lease. A
-- failure changes nothing.
pub data Removes (lease : Lease) (s : V4Server) (ps : List Ptr)
    : V4Server × Option Error → Type 0 where
  removed :
      (i : ℕ) (p : Ptr)
      → get_elem? s.leases i ≡ some p
      → NoneBefore lease s i
      → (s.heap p).ip ≡ lease.ip
      → (s.heap p).hw_addr ≡ lease.hw_addr
      → (s.heap p).hostname ≡ lease.hostname
      → Removes lease s ps (rm_lease_by_index i s, none)
  different :
      (i : ℕ) (p : Ptr)
      → get_elem? s.leases i ≡ some p
      → NoneBefore lease s i
      → (s.heap p).ip ≡ lease.ip
      → ((s.heap p).hw_addr ≢ lease.hw_addr) ⊎ ((s.heap p).hostname ≢ lease.hostname)
      → Removes lease s ps (s, some lease_is_different)
  missing : All (λ p. (s.heap p).ip ≢ lease.ip) ps → Removes lease s ps (s, some lease_not_found)

Removes-cons :
    (lease : Lease) (s : V4Server) (p : Ptr) (ps : List Ptr) (o : V4Server × Option Error)
    → (s.heap p).ip ≢ lease.ip
    → Removes lease s ps o
    → Removes lease s (p ∷ ps) o
Removes-cons lease s p ps _ ne (removed i q e n a b c) = removed i q e n a b c
Removes-cons lease s p ps _ ne (different i q e n a b) = different i q e n a b
Removes-cons lease s p ps _ ne (missing h) = missing (ne, h)

-- The list holds the leases of the table from the index `i` on.
abbrev Follows : ℕ → List Ptr → V4Server → Type 0
Follows i ps s = (j : ℕ) → get_elem? s.leases (i + j) ≡ get_elem? ps j

rm_lease_from-Removes :
    (i : ℕ) (lease : Lease) (ps : List Ptr) (s : V4Server)
    → Follows i ps s
    → NoneBefore lease s i
    → Removes lease s ps (rm_lease_from i lease ps s)
unfolding rm_lease_from
rm_lease_from-Removes i lease [] s f first = missing tt
rm_lease_from-Removes i lease (p ∷ ps) s f first =
    let here : get_elem? s.leases i ≡ some p =
      subst (λ n. get_elem? s.leases n ≡ some p) (omega arith) (f 0) in
    elim (addr_dec (s.heap p).ip lease.ip)
      as (λ d. Removes lease s (p ∷ ps) (
        if ite d true false
        then (if text_eq (s.heap p).hw_addr lease.hw_addr
              && text_eq (s.heap p).hostname lease.hostname
            then (rm_lease_by_index i s, none)
            else (s, some lease_is_different))
        else rm_lease_from (i + 1) lease ps s)) [
          | no ne ↦ Removes-cons lease s p ps _ ne (
              rm_lease_from-Removes (i + 1) lease ps s
                (λ j. subst (λ n. get_elem? s.leases n ≡ get_elem? ps j) (omega arith) (f (suc j)))
                (λ j q lt e. elim (ℕ_discrete j i) [
                  | yes same ↦
                      let eq : p ≡ q =
                        some-injective _ _ (sym here ∙ sym (ap (get_elem? s.leases) same) ∙ e) in
                      subst (λ x. (s.heap x).ip ≢ lease.ip) eq ne
                  | no other ↦ first j q (omega (arith, other)) e
                ]))
          | yes ip ↦
              elim (text_dec (s.heap p).hw_addr lease.hw_addr)
                as (λ d. Removes lease s (p ∷ ps) (
                  if ite d true false && text_eq (s.heap p).hostname lease.hostname
                  then (rm_lease_by_index i s, none)
                  else (s, some lease_is_different))) [
                    | no ne ↦ different i p here first ip (inl ne)
                    | yes mac ↦
                        elim (text_dec (s.heap p).hostname lease.hostname)
                          as (λ d. Removes lease s (p ∷ ps) (
                            if ite d true false
                            then (rm_lease_by_index i s, none)
                            else (s, some lease_is_different))) [
                              | no ne ↦ different i p here first ip (inr ne)
                              | yes host ↦ removed i p here first ip mac host
                            ]
                  ]
        ]

pub rm_lease-Removes :
    (lease : Lease) (s : V4Server) → s.leases ≢ [] → Removes lease s s.leases (rm_lease lease s)
unfolding rm_lease
rm_lease-Removes lease s ne = go s.leases refl
  where
    go :
        (ps : List Ptr)
        → s.leases ≡ ps
        → Removes lease s s.leases
            (elim ps [ [] ↦ (s, none) | p ∷ qs ↦ rm_lease_from 0 lease (p ∷ qs) s ])
    go [] e = absurd (ne e)
    go (p ∷ ps) e =
        subst (λ l. Removes lease s l (rm_lease_from 0 lease (p ∷ ps) s)) (sym e)
          (rm_lease_from-Removes 0 lease (p ∷ ps) s
            (λ j.
              subst (λ n. get_elem? s.leases n ≡ get_elem? (p ∷ ps) j) (omega arith)
                (ap (λ l. get_elem? l j) e))
            (λ j q lt h. absurd (omega (arith, lt))))

Removes-IsConsistent :
    (lease : Lease) (s : V4Server) (ps : List Ptr) (o : V4Server × Option Error)
    → IsConsistent s
    → Removes lease s ps o
    → IsConsistent o.0
Removes-IsConsistent lease s ps _ c (removed i q e n a b d) = rm_lease_by_index-IsConsistent s i c
Removes-IsConsistent lease s ps _ c (different i q e n a b) = c
Removes-IsConsistent lease s ps _ c (missing h) = c

-- Removing a lease keeps the table consistent, also where it fails.
pub rm_lease-IsConsistent :
    (lease : Lease) (s : V4Server) → IsConsistent s → IsConsistent (rm_lease lease s).0
unfolding rm_lease
rm_lease-IsConsistent lease s c = go s.leases refl
  where
    go : (ps : List Ptr) → s.leases ≡ ps → IsConsistent (rm_lease lease s).0
    go [] e = rw (rm_lease, e) c
    go (p ∷ ps) e =
        Removes-IsConsistent lease s s.leases _ c
          (rm_lease-Removes lease s (λ z. absurd (subst (λ l. l ≡ [] → ⊥) (sym e) (λ q. cc) z)))

-- The bit that adding a lease sets.
add_lease-bits :
    (s t : V4Server) (p : Ptr)
    → add_lease p s ≡ (t, none)
    → (t.leased_offsets ≡ set s.leased_offsets (offset_or_zero (lease_offset s (s.heap p))) true)
unfolding add_lease enter
add_lease-bits s t p e = ground (arith, ap (λ r. r.0.leased_offsets) e)

-- A static lease outside of the range, once it is added, marks the first address of the range as
-- taken.
pub add_lease_out_of_range :
    (s t : V4Server) (p : Ptr) (b : BitSet)
    → s.leased_offsets ≡ some b
    → lease_offset s (s.heap p) ≡ none
    → add_lease p s ≡ (t, none)
    → is_set t.leased_offsets 0 ≡ true
unfolding offset_or_zero
add_lease_out_of_range s t p b h o e = rw (add_lease-bits s t p e, o, h, is_set-set) refl

-- Adding a lease appends it to the table.
pub add_lease-leases :
    (s t : V4Server) (p : Ptr) → add_lease p s ≡ (t, none) → t.leases ≡ s.leases ++ p ∷ []
unfolding add_lease enter
add_lease-leases s t p e = ground (arith, ap (λ r. r.0.leases) e)
