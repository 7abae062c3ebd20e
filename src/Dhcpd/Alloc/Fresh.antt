-- ===== src/Dhcpd/Alloc/Fresh.antt =====
-- internal/dhcpd/v4_unix.go: the address that `reserveLease` gives to a new client.
use mathlib.Core.Path.{subst₂}
use mathlib.Core.Option.{some-injective}
use gdns_server.Base.{
  ℕ, ◌+◌, ◌-◌, ◌^◌, ◌≤◌, ◌<◌, ◌≡◌, ◌≢◌, refl, sym, ap, ◌∙◌, subst, Bool, true, false, not, [], ◌∷◌,
  ◌++◌, Option, none, some, arith, All, List, ltb, ◌&&◌, Bool-cases, All-map, All-map₂,
  Option-cases, inl, inr, ◌==◌, if◌then◌else◌,
}
use gdns_server.Base.Dict.{Text}
use gdns_server.Base.Sets.{Mem}
use gdns_server.Net.{v4, NetIp, absent, sixteen, four, as_slice, is4, to4, mapped}
use gdns_server.Dhcpd.BitSet.{is_set, is_set-set}
use gdns_server.Dhcpd.IpRange.{Range, offset, find, Found, first, nothing, find-Found, offset_iff}
use gdns_server.Dhcpd.Server.{Lease, Ptr, V4Server, lease_offset, enter, alloc, store}
use gdns_server.Dhcpd.Server.Invariant.{
  IsConsistent, IsUnused, enter-IsConsistent, add_lease-dynamic, alloc-IsConsistent,
  store-IsConsistent,
}
use gdns_server.Dhcpd.Alloc.{
  find_expired_lease, expired_from, copy, is_free, next_ip, reserve_lease, reserve_at,
  reuse_expired, new_lease, Outcome, granted, exhausted,
}

-- The range of an IPv4 server: not empty, and of IPv4-mapped addresses.
pub record IsRange4 (r : Range) : Type 0 where
  pub not_empty : r.start ≤ r.end
  pub low : mapped ≤ r.start
  pub high : r.end < mapped + 2 ^ 32

is_free-eq :
    (s : V4Server) (r : Range) (n : ℕ)
    → s.conf.ip_range ≡ some r
    → r.start ≤ n
    → n ≤ r.end
    → is_free s (sixteen n) ≡ not (is_set s.leased_offsets (n - r.start))
unfolding is_free
is_free-eq s r n e lo hi =
    let k : offset s.conf.ip_range (sixteen n) ≡ some (n - r.start) =
      ap (λ o. offset o (sixteen n)) e
      ∙ (offset_iff r (sixteen n) (n - r.start)).1 (lo, hi, refl) in
    ground (arith, k)

-- What `nextIP` returns: the first address of the range whose bit is not set, or nil if all are.
pub data NextIp (s : V4Server) (r : Range) : NetIp → Type 0 where
  free :
      (n a : ℕ)
      → n ≡ mapped + a
      → r.start ≤ n
      → n ≤ r.end
      → is_set s.leased_offsets (n - r.start) ≡ false
      → ((m : ℕ) → r.start ≤ m → m < n → is_set s.leased_offsets (m - r.start) ≡ true)
      → NextIp s r (four a)
  full :
      ((m : ℕ) → r.start ≤ m → m ≤ r.end → is_set s.leased_offsets (m - r.start) ≡ true)
      → NextIp s r absent

find-Found_eq :
    (o : Option Range) (r : Range) (p : NetIp → Bool)
    → o ≡ some r
    → r.start ≤ r.end
    → Found r.start (r.end + 1) p (find o p)
find-Found_eq none r p e h = cc
find-Found_eq (some q) r p e h =
    let same : r ≡ q = cc in
    subst (λ x. Found x.start (x.end + 1) p (find (some q) p)) (sym same)
      (find-Found q p (rw (← same) h))

to4_lem : (n : ℕ) → mapped ≤ n → n < mapped + 2 ^ 32 → to4 (sixteen n) ≡ four (n - mapped)
to4_lem n lo hi = ground arith

not-true : (b : Bool) → not b ≡ true → b ≡ false
not-true b h = ground arith

not-false : (b : Bool) → not b ≡ false → b ≡ true
not-false b h = ground arith

-- For an IPv4 range, `nextIP` finds the first free address of the range, and nil only if there is
-- none.
pub next_ip-NextIp :
    (s : V4Server) (r : Range) → s.conf.ip_range ≡ some r → IsRange4 r → NextIp s r (next_ip s)
unfolding next_ip
next_ip-NextIp s r e v =
    go (find s.conf.ip_range (is_free s))
      (find-Found_eq s.conf.ip_range r (is_free s) e v.not_empty)
  where
    go : (ip : NetIp) → Found r.start (r.end + 1) (is_free s) ip → NextIp s r (to4 ip)
    go ip (first n lo hi hit before) =
        subst (NextIp s r) (sym (to4_lem n (omega arith) (omega arith))) (
          free n (n - mapped) (omega arith) lo (omega arith)
            (not-true _ (sym (is_free-eq s r n e lo (omega arith)) ∙ hit))
            (λ m p q. not-false _ (sym (is_free-eq s r m e p (omega arith)) ∙ before m p q)))
    go ip (nothing all_taken) =
        full (λ m p q. not-false _ (sym (is_free-eq s r m e p q) ∙ all_taken m p (omega arith)))

-- A dynamic lease whose expiration has passed.
abbrev pub IsExpired : (Ptr → Lease) → ℕ → Ptr → Type 0
IsExpired heap now p = ((heap p).is_static ≡ false) × ((heap p).expiry < now)

expired_from-IsExpired :
    (now : ℕ) (heap : Ptr → Lease) (ps : List Ptr) (p : Ptr)
    → expired_from now heap ps ≡ some p
    → Mem p ps × IsExpired heap now p
unfolding expired_from
expired_from-IsExpired now heap [] p h = absurd (ground arith)
expired_from-IsExpired now heap (q ∷ ps) p h =
    elim (Bool-cases (not (heap q).is_static && ltb (heap q).expiry now)) [
      | inl e ↦
          let same : q ≡ p = some-injective _ _ (rw (expired_from, e) at h) in
          (inl (sym same), subst (IsExpired heap now) same (ground arith, ground arith))
      | inr e ↦
          let (m, x) = expired_from-IsExpired now heap ps p (rw (expired_from, e) at h) in
          (inr m, x)
    ]

expired_from-none :
    (now : ℕ) (heap : Ptr → Lease) (ps : List Ptr)
    → expired_from now heap ps ≡ none
    → All (λ p. ¬ IsExpired heap now p) ps
unfolding expired_from
expired_from-none now heap [] h = tt
expired_from-none now heap (q ∷ ps) h =
    elim (Bool-cases (not (heap q).is_static && ltb (heap q).expiry now)) [
      | inl e ↦ absurd (ground arith)
      | inr e ↦ (
        λ (s, l). ground (arith, s, l),
        expired_from-none now heap ps (rw (expired_from, e) at h),
      )
    ]

-- The possible results of `reserveLease`. It is no error. A lease that is taken over is dynamic and
-- has expired, and none such is left where nothing is found.
pub data Reserves (s : V4Server) (r : Range) (mac : Text) (now : ℕ) : Outcome → Type 0 where
  fresh_address :
      (a : ℕ) (t : V4Server)
      → r.start ≤ mapped + a
      → mapped + a ≤ r.end
      → IsUnused s (v4 a)
      → is_set s.leased_offsets (mapped + a - r.start) ≡ false
      → ((m : ℕ)
          → is_set t.leased_offsets m
            ≡ (if mapped + a - r.start == m then true else is_set s.leased_offsets m))
      → t.conf ≡ s.conf
      → t.leases ≡ s.leases ++ s.fresh ∷ []
      → t.heap s.fresh ≡ new_lease mac (v4 a)
      → ((q : Ptr) → q ≢ s.fresh → t.heap q ≡ s.heap q)
      → IsConsistent t
      → Reserves s r mac now (t, granted s.fresh)
  taken_over :
      (p : Ptr) (t : V4Server)
      → ((m : ℕ) → r.start ≤ m → m ≤ r.end → is_set s.leased_offsets (m - r.start) ≡ true)
      → Mem p s.leases
      → IsExpired s.heap now p
      → t ≡ store p (record (s.heap p) { hw_addr = copy (s.heap p).hw_addr mac }) s
      → IsConsistent t
      → Reserves s r mac now (t, granted p)
  nothing_left :
      ((m : ℕ) → r.start ≤ m → m ≤ r.end → is_set s.leased_offsets (m - r.start) ≡ true)
      → All (λ p. ¬ IsExpired s.heap now p) s.leases
      → Reserves s r mac now (s, exhausted)

free-IsUnused :
    (s : V4Server) (r : Range) (a : ℕ)
    → s.conf.ip_range ≡ some r
    → r.start ≤ mapped + a
    → mapped + a ≤ r.end
    → is_set s.leased_offsets (mapped + a - r.start) ≡ false
    → IsConsistent s
    → IsUnused s (v4 a)
free-IsUnused s r a e lo hi clear c = All-map _ _ s.leases c.entered λ p en same.
    let k : offset s.conf.ip_range (as_slice (v4 a)) ≡ some (mapped + a - r.start) =
      ap (λ o. offset o (four a)) e
      ∙ (offset_iff r (four a) (mapped + a - r.start)).1 (lo, hi, refl) in
    let set =
      en.counted (mapped + a - r.start) (ap (λ i. offset s.conf.ip_range (as_slice i)) same ∙ k) in
    cc

reserve_fresh :
    (s : V4Server) (r : Range) (mac : Text) (now a : ℕ)
    → s.conf.ip_range ≡ some r
    → r.start ≤ mapped + a
    → mapped + a ≤ r.end
    → IsUnused s (v4 a)
    → is_set s.leased_offsets (mapped + a - r.start) ≡ false
    → IsConsistent s
    → Reserves s r mac now (reserve_at (four a) mac now s)
unfolding reserve_at alloc store new_lease enter
reserve_fresh s r mac now a e lo hi unused clear c =
    rw
      (add_lease-dynamic s' s.fresh (mapped + a - r.start) (ap (λ l. l.is_static) here)
        (ap (λ l. l.hostname) here) inside)
      (fresh_address a (enter s.fresh s') lo hi unused clear bits refl refl here others (
        enter-IsConsistent s' s.fresh (alloc-IsConsistent s l c) (omega arith)
          (ap (λ l. is4 l.ip) here) unused'))
  where
    l : Lease
    l = new_lease mac (v4 a)

    s' : V4Server
    s' = (alloc l s).0

    here : s'.heap s.fresh ≡ l
    here = ground arith

    inside : lease_offset s' (s'.heap s.fresh) ≡ some (mapped + a - r.start)
    inside =
        ap (λ x. offset s.conf.ip_range (as_slice x.ip)) here
        ∙ ap (λ o. offset o (four a)) e
        ∙ (offset_iff r (four a) (mapped + a - r.start)).1 (lo, hi, refl)

    bits :
        (m : ℕ)
        → is_set (enter s.fresh s').leased_offsets m
          ≡ (if mapped + a - r.start == m then true else is_set s.leased_offsets m)
    bits m = rw (inside, c.has_bits, is_set-set) refl

    others : (q : Ptr) → q ≢ s.fresh → (enter s.fresh s').heap q ≡ s.heap q
    others q h = ground arith

    unused' : IsUnused s' (s'.heap s.fresh).ip
    unused' = All-map₂ _ _ _ s.leases unused c.entered (λ p ne en.
        subst₂ (λ x y. x.ip ≢ y.ip) (sym (others p (λ q. absurd (omega (arith, en.used)))))
          (sym here) ne)

reserve_full :
    (s : V4Server) (r : Range) (mac : Text) (now : ℕ)
    → ((m : ℕ) → r.start ≤ m → m ≤ r.end → is_set s.leased_offsets (m - r.start) ≡ true)
    → IsConsistent s
    → Reserves s r mac now (reserve_at absent mac now s)
unfolding reserve_at alloc store new_lease enter find_expired_lease
reserve_full s r mac now taken c = elim (Option-cases (find_expired_lease s now)) [
  | inl e ↦ rw (e, reuse_expired) (nothing_left taken (expired_from-none now s.heap s.leases e))
  | inr (p, e) ↦
      let (m, x) = expired_from-IsExpired now s.heap s.leases p e in
      rw (e, reuse_expired) (taken_over p _ taken m x refl (store-IsConsistent s p _ c refl))
]

-- `reserveLease` on a consistent table either enters a new lease, whose address lies in the range and
-- is held by no lease of the table, and leaves every other lease alone; or takes over an
-- expired dynamic lease, if every address of the range is taken; or finds neither. The table stays
-- consistent.
pub reserve_lease-Reserves :
    (s : V4Server) (r : Range) (mac : Text) (now : ℕ)
    → s.conf.ip_range ≡ some r
    → IsRange4 r
    → IsConsistent s
    → Reserves s r mac now (reserve_lease mac now s)
unfolding reserve_lease
reserve_lease-Reserves s r mac now e v c = go (next_ip s) (next_ip-NextIp s r e v)
  where
    go : (ip : NetIp) → NextIp s r ip → Reserves s r mac now (reserve_at ip mac now s)
    go ip (free n a at lo hi clear before) =
        let lo' : r.start ≤ mapped + a = omega arith in
        let hi' : mapped + a ≤ r.end = omega arith in
        reserve_fresh s r mac now a e lo' hi' (free-IsUnused s r a e lo' hi' (rw (← at) clear) c)
          (rw (← at) clear) c
    go ip (full taken) = reserve_full s r mac now taken c
