-- ===== src/Dhcpd/Static/Removal.antt =====
-- The loop of `rmDynamicLease` in internal/dhcpd/v4_unix.go, which removes from the table that it
-- goes through.
use gdns_server.Base.{
  ℕ, zero, suc, ◌+◌, ◌<◌, ◌≡◌, refl, sym, ap, ◌∙◌, subst, Bool, true, false, not, ◌&&◌, List, [],
  ◌∷◌, ◌++◌, Option, none, some, arith, get_elem?, remove_at, length, drop, if◌then◌else◌,
  Option-cases, inl, inr,
}
use gdns_server.Dhcpd.Server.{Ptr, V4Server, Error, rm_lease_by_index, take_out, store, text_eq}
use gdns_server.Dhcpd.Server.Invariant.{
  IsConsistent, store-IsConsistent, rm_lease_by_index-IsConsistent,
}
use gdns_server.Dhcpd.Static.{
  rm_dynamic_lease, rm_dynamic_from, clear_if_same_name, clear_hostname, at_or_panic, round,
  same_client_or_ip,
}

remove_at-none : (ps : List Ptr) (i : ℕ) → get_elem? ps i ≡ none → ps ≡ remove_at ps i
remove_at-none [] i e = refl
remove_at-none (p ∷ ps) zero e = cc
remove_at-none (p ∷ ps) (suc i) e = ap (λ l. p ∷ l) (remove_at-none ps i e)

leases-rm_lease_by_index :
    (i : ℕ) (s : V4Server) → (rm_lease_by_index i s).leases ≡ remove_at s.leases i
unfolding rm_lease_by_index take_out
leases-rm_lease_by_index i s = elim (Option-cases (get_elem? s.leases i)) [
  | inl e ↦ rw (rm_lease_by_index, e) (remove_at-none s.leases i e)
  | inr (p, e) ↦ rw (rm_lease_by_index, e) refl
]

leases-clear :
    (b : Bool) (p l : Ptr) (s : V4Server) → (clear_if_same_name b p l s).leases ≡ s.leases
unfolding clear_if_same_name clear_hostname store
leases-clear b p l s = ground arith

head-remove_at : (ps : List Ptr) (i : ℕ) → 0 < i → get_elem? (remove_at ps i) 0 ≡ get_elem? ps 0
head-remove_at [] i h = refl
head-remove_at (p ∷ ps) zero h = absurd (omega arith)
head-remove_at (p ∷ ps) (suc i) h = refl

-- A property of states holds after a round if it holds of all states that the round can end with.
module _ (P : V4Server → Type 0) where
  round-holds :
      (same static last : Bool) (s s' : V4Server) (removed skip : V4Server × Option Error)
      → P s
      → P s'
      → P removed.0
      → P skip.0
      → P (round same static last s s' removed skip).0
  unfolding round
  round-holds false static last s s' removed skip c c' r k = k
  round-holds true true last s s' removed skip c c' r k = c
  round-holds true false true s s' removed skip c c' r k = c'
  round-holds true false false s s' removed skip c c' r k = r

  at_or_panic-holds :
      (o : Option Ptr) (s : V4Server) (k : Ptr → V4Server × Option Error)
      → P s
      → ((p : Ptr) → P (k p).0)
      → P (at_or_panic o s k).0
  unfolding at_or_panic
  at_or_panic-holds none s k c h = c
  at_or_panic-holds (some p) s k c h = h p

-- From the second round on, the loop leaves the first lease of the table alone.
rm_dynamic_from-head :
    (rounds i : ℕ) (array : List Ptr) (lease : Ptr) (s : V4Server)
    → 0 < i
    → get_elem? (rm_dynamic_from rounds i array lease s).0.leases 0 ≡ get_elem? s.leases 0
unfolding rm_dynamic_from
rm_dynamic_from-head zero i array lease s h = refl
rm_dynamic_from-head (suc rounds) i array lease s h =
    let P : V4Server → Type 0 = λ t. get_elem? t.leases 0 ≡ get_elem? s.leases 0 in
    at_or_panic-holds P (get_elem? array i) s _ refl λ p.
      let s' = rm_lease_by_index i s in
      let array' = s'.leases ++ drop (length s'.leases) array in
      let kept : P s' =
        ap (λ l. get_elem? l 0) (leases-rm_lease_by_index i s) ∙ head-remove_at s.leases i h in
      round-holds P _ _ _ s s' _ _ refl kept
        (at_or_panic-holds P (get_elem? s'.leases i) s' _ kept λ p'.
          rm_dynamic_from-head rounds (i + 1) array' lease _ (omega arith)
          ∙ ap (λ l. get_elem? l 0) (leases-clear false p' lease s')
          ∙ kept)
        (rm_dynamic_from-head rounds (i + 1) array lease _ (omega arith)
          ∙ ap (λ l. get_elem? l 0) (leases-clear (s.heap p).is_static p lease s))

first_round :
    (s : V4Server) (lease p q : Ptr) (rest array : List Ptr) (rounds : ℕ)
    → get_elem? array 0 ≡ some p
    → (rm_lease_by_index 0 s).leases ≡ q ∷ rest
    → (s.heap p).is_static ≡ false
    → same_client_or_ip (s.heap p) (s.heap lease) ≡ true
    → get_elem? (rm_dynamic_from (suc rounds) 0 array lease s).0.leases 0 ≡ some q
unfolding rm_dynamic_from at_or_panic round
first_round s lease p q rest array rounds e left d m =
    let s' = rm_lease_by_index 0 s in
    let array' = s'.leases ++ drop (length s'.leases) array in
    let after : get_elem?
          (rm_dynamic_from rounds 1 array' lease (clear_if_same_name false q lease s')).0.leases 0
        ≡ some q =
      rm_dynamic_from-head rounds 1 array' lease _ (omega arith)
      ∙ ap (λ l. get_elem? l 0) (leases-clear false q lease s' ∙ left) in
    let more : length s'.leases ≡ suc (length rest) = ap length left in
    let second : get_elem? s'.leases 0 ≡ some q = ap (λ l. get_elem? l 0) left in
    ground (arith, e, more, second, d, m, after)

-- Where the first lease is dynamic and has the client or the address of the given one, the lease after
-- it is not removed: it is the first of the table afterwards, whatever its client and address, and
-- whether or not there is an error.
pub rm_dynamic_lease_misses :
    (s : V4Server) (lease p q : Ptr) (rest : List Ptr)
    → s.leases ≡ p ∷ q ∷ rest
    → (s.heap p).is_static ≡ false
    → same_client_or_ip (s.heap p) (s.heap lease) ≡ true
    → get_elem? (rm_dynamic_lease lease s).0.leases 0 ≡ some q
unfolding rm_dynamic_lease
rm_dynamic_lease_misses s lease p q rest e d m =
    let left : (rm_lease_by_index 0 s).leases ≡ q ∷ rest =
      leases-rm_lease_by_index 0 s ∙ ap (λ l. remove_at l 0) e in
    subst (λ n. get_elem? (rm_dynamic_from n 0 s.leases lease s).0.leases 0 ≡ some q)
      (sym (ap length e))
      (first_round s lease p q rest s.leases (suc (length rest)) (ap (λ l. get_elem? l 0) e) left d
        m)

clear-IsConsistent :
    (b : Bool) (p l : Ptr) (s : V4Server)
    → IsConsistent s
    → IsConsistent (clear_if_same_name b p l s)
unfolding clear_if_same_name clear_hostname
clear-IsConsistent b p l s c = go (not b && text_eq (s.heap p).hostname (s.heap l).hostname)
  where
    go : (b : Bool) → IsConsistent (if b then clear_hostname p s else s)
    go true = store-IsConsistent s p _ c refl
    go false = c

rm_dynamic_from-IsConsistent :
    (rounds i : ℕ) (array : List Ptr) (lease : Ptr) (s : V4Server)
    → IsConsistent s
    → IsConsistent (rm_dynamic_from rounds i array lease s).0
unfolding rm_dynamic_from
rm_dynamic_from-IsConsistent zero i array lease s c = c
rm_dynamic_from-IsConsistent (suc rounds) i array lease s c =
    at_or_panic-holds IsConsistent (get_elem? array i) s _ c λ p.
      let s' = rm_lease_by_index i s in
      let c' : IsConsistent s' = rm_lease_by_index-IsConsistent s i c in
      let array' = s'.leases ++ drop (length s'.leases) array in
      round-holds IsConsistent _ _ _ s s' _ _ c c'
        (at_or_panic-holds IsConsistent (get_elem? s'.leases i) s' _ c' λ p'.
          rm_dynamic_from-IsConsistent rounds (i + 1) array' lease _
            (clear-IsConsistent false p' lease s' c'))
        (rm_dynamic_from-IsConsistent rounds (i + 1) array lease _
          (clear-IsConsistent (s.heap p).is_static p lease s c))

-- Removing the dynamic leases of a client or an address keeps the table consistent, also where it
-- fails.
pub rm_dynamic_lease-IsConsistent :
    (lease : Ptr) (s : V4Server) → IsConsistent s → IsConsistent (rm_dynamic_lease lease s).0
unfolding rm_dynamic_lease
rm_dynamic_lease-IsConsistent lease s c =
    rm_dynamic_from-IsConsistent (length s.leases) 0 s.leases lease s c
