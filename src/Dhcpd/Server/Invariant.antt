-- ===== src/Dhcpd/Server/Invariant.antt =====
-- The lease table of internal/dhcpd/v4_unix.go: what a consistent table is, and that `addLease` and
-- `rmLeaseByIndex` keep it consistent.
use gdns_server.Base.{
  ℕ, ◌≤◌, ◌<◌, ◌≡◌, ◌≢◌, refl, sym, ap, ◌∙◌, Bool, true, false, [], ◌∷◌, Option, none, some, arith,
  All, Distinct, All-append, All-map, All-map₂, All-remove_at, All-get_elem?, Distinct-append,
  Distinct-remove_at, remove_at-ne, remove_at, get_elem?, Option-cases, inl, inr,
}
use gdns_server.Base.Dict.{Dict, Text, text_dec, get, put, get-put_self, get-put_ne, get-delete_ne}
use gdns_server.Net.{Addr, v4, invalid, v6, addr_dec, as_slice, is4, NetIp}
use gdns_server.Dhcpd.BitSet.{BitSet, is_set, set, is_set-set}
use gdns_server.Dhcpd.IpRange.{Range, offset, offset_iff}
use gdns_server.Dhcpd.Server.{
  Lease, Ptr, V4Server, lease_offset, add_lease, enter, offset_or_zero, rm_lease_by_index,
  clear_offset, take_out, alloc, store,
}

-- A lease of the table: its pointer is in use, its address is IPv4 and the index of addresses
-- leads from it to the lease, and if the address is in the range, its bit is set.
pub record Entered (s : V4Server) (p : Ptr) : Type 0 where
  pub used : p < s.fresh
  pub ipv4 : is4 (s.heap p).ip ≡ true
  pub indexed : get addr_dec (s.heap p).ip s.ip_index ≡ some p
  pub counted : (n : ℕ) → lease_offset s (s.heap p) ≡ some n → is_set s.leased_offsets n ≡ true

-- The table has the bit set, holds no lease twice, and every lease of it is entered.
pub record IsConsistent (s : V4Server) : Type 0 where
  pub bits : BitSet
  pub has_bits : s.leased_offsets ≡ some bits
  pub distinct : Distinct s.leases
  pub entered : All (Entered s) s.leases

-- No lease of the table has the address.
abbrev pub IsUnused : V4Server → Addr → Type 0
IsUnused s ip = All (λ p. (s.heap p).ip ≢ ip) s.leases

-- A change that leaves a lease, its index entry and the set bits alone leaves it entered.
pub Entered-keep :
    (s t : V4Server) (p : Ptr)
    → Entered s p
    → s.fresh ≤ t.fresh
    → s.conf ≡ t.conf
    → (s.heap p).ip ≡ (t.heap p).ip
    → get addr_dec (s.heap p).ip t.ip_index ≡ some p
    → ((n : ℕ) → lease_offset s (s.heap p) ≡ some n → is_set t.leased_offsets n ≡ true)
    → Entered t p
Entered-keep s t p e f c h i b = record {
  used = omega (arith, e.used);
  ipv4 = rw (← h) e.ipv4;
  indexed = rw (← h) i;
  counted = λ n k. b n (rw (c, h) k);
}

-- The index leads from one address to one lease.
ip-ne :
    {s : V4Server} {p q : Ptr} → Entered s p → Entered s q → p ≢ q → (s.heap p).ip ≢ (s.heap q).ip
ip-ne {s} {p} {q} a b ne e =
    ne (some-inj (sym a.indexed ∙ ap (λ i. get addr_dec i s.ip_index) e ∙ b.indexed))
  where
    some-inj : {x y : ℕ} → some x ≡ some y → x ≡ y
    some-inj h = cc

set-grows :
    (b : BitSet) (o : Option BitSet) (n m : ℕ)
    → o ≡ some b
    → is_set o m ≡ true
    → is_set (set o n true) m ≡ true
set-grows b o n m e h = rw (e, is_set-set) (ground (arith, ap (λ o. is_set o m) e))

set_bits :
    (b : BitSet) (o : Option BitSet) (n : ℕ) (ok : Bool)
    → o ≡ some b
    → (b' : BitSet) × (set o n ok ≡ some b')
unfolding set
set_bits b none n ok e = cc
set_bits b (some a) n ok e = (_, refl)

pub enter-IsConsistent :
    (s : V4Server) (p : Ptr)
    → IsConsistent s
    → p < s.fresh
    → is4 (s.heap p).ip ≡ true
    → IsUnused s (s.heap p).ip
    → IsConsistent (enter p s)
unfolding enter
enter-IsConsistent s p c u f unused = record {
  bits = (set_bits c.bits s.leased_offsets n true c.has_bits).0;
  has_bits = (set_bits c.bits s.leased_offsets n true c.has_bits).1;
  distinct =
      Distinct-append s.leases p c.distinct
        (All-map _ _ s.leases unused (λ q ne e. ne (ap (λ r. (s.heap r).ip) e)));
  entered =
      All-append (Entered t) s.leases (p ∷ []) (All-map₂ _ _ _ s.leases c.entered unused kept)
        (new, tt);
}
  where
    n : ℕ
    n = offset_or_zero (lease_offset s (s.heap p))

    t : V4Server
    t = enter p s

    kept : (q : Ptr) → Entered s q → (s.heap q).ip ≢ (s.heap p).ip → Entered t q
    kept q e ne =
        Entered-keep s t q e (omega arith) refl refl
          (get-put_ne addr_dec p s.ip_index (λ h. ne (sym h)) ∙ e.indexed)
          (λ m h. set-grows c.bits s.leased_offsets n m c.has_bits (e.counted m h))

    new : Entered t p
    new = record {
      used = u;
      ipv4 = f;
      indexed = get-put_self addr_dec (s.heap p).ip p s.ip_index;
      counted = λ m h. rw (c.has_bits, is_set-set) (ground (arith, h));
    }

-- The state before and after the write of the host index differ in it alone.
hosts-IsConsistent :
    (s : V4Server) (h : Dict Text Ptr)
    → IsConsistent s
    → IsConsistent (record s { hosts_index = h })
hosts-IsConsistent s h c = record {
  bits = c.bits;
  has_bits = c.has_bits;
  distinct = c.distinct;
  entered = All-map _ _ s.leases c.entered (λ p e.
      Entered-keep s (record s { hosts_index = h }) p e (omega arith) refl refl e.indexed
        e.counted);
}

-- `addLease` keeps the table consistent, whether it succeeds or not, if the lease is an IPv4 lease
-- whose address no lease of the table has.
pub add_lease-IsConsistent :
    (s : V4Server) (p : Ptr)
    → IsConsistent s
    → p < s.fresh
    → is4 (s.heap p).ip ≡ true
    → IsUnused s (s.heap p).ip
    → IsConsistent (add_lease p s).0
unfolding add_lease
add_lease-IsConsistent s p c u f unused = ground (
  arith,
  enter-IsConsistent s p c u f unused,
  let h = put text_dec (s.heap p).hostname p s.hosts_index in
      enter-IsConsistent (record s { hosts_index = h }) p (hosts-IsConsistent s h c) u f unused,
)

none-ne : (ip : NetIp) (n : ℕ) → offset none ip ≡ some n → ⊥
unfolding offset
none-ne ip n e = cc

-- Distinct IPv4 addresses of the range have distinct offsets.
offset-ne :
    (r : Option Range) (a b : Addr) (n m : ℕ)
    → is4 a ≡ true
    → is4 b ≡ true
    → a ≢ b
    → offset r (as_slice a) ≡ some n
    → offset r (as_slice b) ≡ some m
    → n ≢ m
offset-ne none a b n m fa fb ne ha hb e = absurd (none-ne (as_slice a) n ha)
offset-ne (some r) invalid b n m fa fb ne ha hb e = cc
offset-ne (some r) (v6 x z) b n m fa fb ne ha hb e = cc
offset-ne (some r) (v4 x) invalid n m fa fb ne ha hb e = cc
offset-ne (some r) (v4 x) (v6 y z) n m fa fb ne ha hb e = cc
offset-ne (some r) (v4 x) (v4 y) n m fa fb ne ha hb e =
    let same : x ≡ y =
      omega
        (arith, (offset_iff r (as_slice (v4 x)) n).0 ha, (offset_iff r (as_slice (v4 y)) m).0 hb) in
    ne (ap v4 same)

clear_bits :
    (b : BitSet) (o : Option BitSet) (k : Option ℕ)
    → o ≡ some b
    → (b' : BitSet) × (clear_offset o k ≡ some b')
unfolding clear_offset
clear_bits b o none e = (b, e)
clear_bits b o (some n) e = set_bits b o n false e

clear-keeps :
    (b : BitSet) (o : Option BitSet) (k : Option ℕ) (m : ℕ)
    → o ≡ some b
    → ((n : ℕ) → k ≡ some n → n ≢ m)
    → is_set o m ≡ true
    → is_set (clear_offset o k) m ≡ true
unfolding clear_offset
clear-keeps b o none m e ne h = h
clear-keeps b o (some n) m e ne h =
    rw (e, is_set-set) (ground (arith, ne n refl, ap (λ o. is_set o m) e))

take_out-IsConsistent :
    (s : V4Server) (i : ℕ) (p : Ptr)
    → IsConsistent s
    → get_elem? s.leases i ≡ some p
    → IsConsistent (take_out i (s.heap p) s)
unfolding take_out
take_out-IsConsistent s i p c at = record {
  bits = (clear_bits c.bits s.leased_offsets k c.has_bits).0;
  has_bits = (clear_bits c.bits s.leased_offsets k c.has_bits).1;
  distinct = Distinct-remove_at s.leases i c.distinct;
  entered =
      All-map₂ _ _ _ (remove_at s.leases i) (All-remove_at _ s.leases i c.entered)
        (remove_at-ne s.leases i p c.distinct at) kept;
}
  where
    k : Option ℕ
    k = lease_offset s (s.heap p)

    gone : Entered s p
    gone = All-get_elem? (Entered s) s.leases i p c.entered at

    kept : (q : Ptr) → Entered s q → p ≢ q → Entered (take_out i (s.heap p) s) q
    kept q e ne =
        Entered-keep s (take_out i (s.heap p) s) q e (omega arith) refl refl
          (get-delete_ne addr_dec s.ip_index (ip-ne gone e ne) ∙ e.indexed)
          (λ m h.
            clear-keeps c.bits s.leased_offsets k m c.has_bits
              (λ n g. offset-ne s.conf.ip_range _ _ n m gone.ipv4 e.ipv4 (ip-ne gone e ne) g h)
              (e.counted m h))

-- `rmLeaseByIndex` keeps the table consistent, for every index.
pub rm_lease_by_index-IsConsistent :
    (s : V4Server) (i : ℕ) → IsConsistent s → IsConsistent (rm_lease_by_index i s)
unfolding rm_lease_by_index
rm_lease_by_index-IsConsistent s i c = elim (Option-cases (get_elem? s.leases i)) [
  | inl e ↦ rw (e, rm_lease_by_index) c
  | inr (p, e) ↦ rw (e, rm_lease_by_index) (take_out-IsConsistent s i p c e)
]

-- A dynamic lease with no name and an address of the range is always entered.
pub add_lease-dynamic :
    (s : V4Server) (p : Ptr) (n : ℕ)
    → (s.heap p).is_static ≡ false
    → (s.heap p).hostname ≡ []
    → lease_offset s (s.heap p) ≡ some n
    → add_lease p s ≡ (enter p s, none)
unfolding add_lease
add_lease-dynamic s p n f h e = ground arith

-- A new lease in memory is no lease of the table yet.
pub alloc-IsConsistent : (s : V4Server) (l : Lease) → IsConsistent s → IsConsistent (alloc l s).0
unfolding alloc
alloc-IsConsistent s l c = record {
  bits = c.bits;
  has_bits = c.has_bits;
  distinct = c.distinct;
  entered = All-map _ _ s.leases c.entered kept;
}
  where
    kept : (p : Ptr) → Entered s p → Entered (alloc l s).0 p
    kept p e =
        let same : s.heap p ≡ (alloc l s).0.heap p = ground (arith, e.used) in
        Entered-keep s (alloc l s).0 p e (omega arith) refl (ap (λ x. x.ip) same) e.indexed
          e.counted

-- A write that leaves the address of the lease alone keeps the table consistent.
pub store-IsConsistent :
    (s : V4Server) (p : Ptr) (l : Lease)
    → IsConsistent s
    → l.ip ≡ (s.heap p).ip
    → IsConsistent (store p l s)
unfolding store
store-IsConsistent s p l c h = record {
  bits = c.bits;
  has_bits = c.has_bits;
  distinct = c.distinct;
  entered = All-map _ _ s.leases c.entered kept;
}
  where
    kept : (q : Ptr) → Entered s q → Entered (store p l s) q
    kept q e =
        let same : (s.heap q).ip ≡ ((store p l s).heap q).ip = ground arith in
        Entered-keep s (store p l s) q e (omega arith) refl same e.indexed e.counted
