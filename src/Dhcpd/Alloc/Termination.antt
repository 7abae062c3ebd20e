-- ===== src/Dhcpd/Alloc/Termination.antt =====
-- internal/dhcpd/v4_unix.go: the loop of `allocateLease` ends, with a lease or with none left.
use gdns_server.Base.{
  ℕ, zero, suc, ◌+◌, ◌-◌, ◌≤◌, ◌<◌, ◌≡◌, ◌≢◌, refl, sym, ap, ◌∙◌, subst, Bool, true, false, not,
  ◌&&◌, List, [], ◌∷◌, ◌++◌, Option, some, arith, Bool-cases, inl, inr, ◌==◌, ltb, if◌then◌else◌,
  ℕ_discrete,
}
use gdns_server.Base.Dict.{Text}
use gdns_server.Net.{mapped}
use gdns_server.Dhcpd.BitSet.{is_set}
use gdns_server.Dhcpd.IpRange.{Range}
use gdns_server.Dhcpd.Server.{Lease, Ptr, V4Server, store, blocklist_lease}
use gdns_server.Dhcpd.Server.Invariant.{IsConsistent, store-IsConsistent}
use gdns_server.Dhcpd.Alloc.{
  reserve_lease, Outcome, granted, exhausted, Env, allocate_lease, settle,
}
use gdns_server.Base.Sets.{Mem}
use gdns_server.Dhcpd.Alloc.Fresh.{
  IsRange4, IsExpired, Reserves, fresh_address, taken_over, nothing_left, reserve_lease-Reserves,
}

-- How many offsets below `n` are free.
unfoldable pub count_free : ℕ → (ℕ → Bool) → ℕ
count_free zero taken = 0
count_free (suc n) taken = (if taken n then 0 else 1) + count_free n taken

count_free-le :
    (n : ℕ) (f g : ℕ → Bool) → ((m : ℕ) → f m ≡ true → g m ≡ true) → count_free n g ≤ count_free n f
unfolding count_free
count_free-le zero f g h = omega arith
count_free-le (suc n) f g h = ground (arith, h n, count_free-le n f g h)

count_free-lt :
    (n k : ℕ) (f g : ℕ → Bool)
    → k < n
    → f k ≡ false
    → g k ≡ true
    → ((m : ℕ) → f m ≡ true → g m ≡ true)
    → count_free n g < count_free n f
unfolding count_free
count_free-lt zero k f g lt a b h = absurd (omega arith)
count_free-lt (suc n) k f g lt a b h = elim (ℕ_discrete k n) [
  | yes e ↦ ground (arith, count_free-le n f g h, rw e at a, rw e at b)
  | no e ↦ ground (arith, h n, count_free-lt n k f g (omega arith) a b h)
]

-- How many leases of the list are dynamic and run out before `end`.
abbrev runs_out : ℕ → Lease → Bool
runs_out end l = not l.is_static && ltb l.expiry end

unfoldable pub count_old : ℕ → (Ptr → Lease) → List Ptr → ℕ
count_old end heap [] = 0
count_old end heap (p ∷ ps) = (if runs_out end (heap p) then 1 else 0) + count_old end heap ps

count_old-le :
    (end : ℕ) (h k : Ptr → Lease) (ps : List Ptr)
    → ((p : Ptr) → runs_out end (k p) ≡ true → runs_out end (h p) ≡ true)
    → count_old end k ps ≤ count_old end h ps
unfolding count_old
count_old-le end h k [] e = omega arith
count_old-le end h k (p ∷ ps) e = ground (arith, e p, count_old-le end h k ps e)

count_old-lt :
    (end now : ℕ) (h k : Ptr → Lease) (ps : List Ptr) (p : Ptr)
    → now ≤ end
    → Mem p ps
    → IsExpired h now p
    → runs_out end (k p) ≡ false
    → ((q : Ptr) → runs_out end (k q) ≡ true → runs_out end (h q) ≡ true)
    → count_old end k ps < count_old end h ps
unfolding count_old
count_old-lt end now h k [] p le m x b e = absurd m
count_old-lt end now h k (q ∷ ps) p le (inl same) (d, x) b e =
    let old : runs_out end (h p) ≡ true = ground (arith, d, x) in
    let was = subst (λ y. runs_out end (h y) ≡ true) same old in
    let is = subst (λ y. runs_out end (k y) ≡ false) same b in
    ground (arith, count_old-le end h k ps e, was, is)
count_old-lt end now h k (q ∷ ps) p le (inr m) x b e =
    ground (arith, e q, count_old-lt end now h k ps p le m x b e)

count_old-append :
    (end : ℕ) (h : Ptr → Lease) (ps : List Ptr) (p : Ptr)
    → runs_out end (h p) ≡ false
    → count_old end h (ps ++ p ∷ []) ≡ count_old end h ps
unfolding count_old
count_old-append end h [] p e = ground arith
count_old-append end h (q ∷ ps) p e = omega (arith, count_old-append end h ps p e)

-- What the rounds of a search use up: the free addresses, and the leases that run out by `end`.
unfoldable pub work_left : ℕ → Range → V4Server → ℕ
work_left end r s =
    count_free (r.end + 1 - r.start) (is_set s.leased_offsets) + count_old end s.heap s.leases

-- What a finished search found: no error, a consistent table, and an address that is available.
pub data Allocated (env : Env) : Outcome → Type 0 where
  available_lease :
      (t : V4Server) (p : Ptr) (k : ℕ)
      → IsConsistent t
      → env.available k (t.heap p).ip ≡ true
      → Allocated env (t, granted p)
  none_left : (t : V4Server) → IsConsistent t → Allocated env (t, exhausted)

-- The clock of the search: it runs for less than the time of a lease.
abbrev pub IsBrief : ℕ → ℕ → Env → Type 0
IsBrief end lease_time env = (k : ℕ) → (env.now k ≤ end) × (end ≤ env.now k + lease_time)

-- A blocked lease does not run out during the search.
blocked-runs_out :
    (s : V4Server) (env : Env) (k end : ℕ) (p : Ptr)
    → IsBrief end s.conf.lease_time env
    → runs_out end ((blocklist_lease p (env.now k) s).heap p) ≡ false
unfolding blocklist_lease
blocked-runs_out s env k end p brief = ground (arith, brief k)

blocked_other :
    (s : V4Server) (now : ℕ) (p q : Ptr) → q ≢ p → (blocklist_lease p now s).heap q ≡ s.heap q
unfolding blocklist_lease
blocked_other s now p q ne = ground arith

blocklist_lease-IsConsistent :
    (s : V4Server) (p : Ptr) (now : ℕ) → IsConsistent s → IsConsistent (blocklist_lease p now s)
unfolding blocklist_lease
blocklist_lease-IsConsistent s p now c = store-IsConsistent s p _ c refl

blocked_leaves :
    (s : V4Server) (p : Ptr) (now : ℕ)
    → ((blocklist_lease p now s).leased_offsets ≡ s.leased_offsets)
      × ((blocklist_lease p now s).leases ≡ s.leases)
      × ((blocklist_lease p now s).conf ≡ s.conf)
unfolding blocklist_lease
blocked_leaves s p now = (refl, refl, refl)

-- A round that blocks the new lease of a free address uses up the address.
work_fresh :
    (s t : V4Server) (r : Range) (env : Env) (k end a : ℕ)
    → IsBrief end s.conf.lease_time env
    → r.start ≤ mapped + a
    → mapped + a ≤ r.end
    → is_set s.leased_offsets (mapped + a - r.start) ≡ false
    → ((m : ℕ)
        → is_set t.leased_offsets m
          ≡ (if mapped + a - r.start == m then true else is_set s.leased_offsets m))
    → t.conf ≡ s.conf
    → t.leases ≡ s.leases ++ s.fresh ∷ []
    → ((q : Ptr) → q ≢ s.fresh → t.heap q ≡ s.heap q)
    → work_left end r (blocklist_lease s.fresh (env.now k) t) < work_left end r s
unfolding work_left
work_fresh s t r env k end a brief lo hi clear bits conf leases others =
    let u = blocklist_lease s.fresh (env.now k) t in
    let (b, l, _) = blocked_leaves t s.fresh (env.now k) in
    let out = blocked-runs_out t env k end s.fresh (rw conf brief) in
    let fewer_free =
      count_free-lt (r.end + 1 - r.start) (mapped + a - r.start) (is_set s.leased_offsets)
        (is_set t.leased_offsets) (omega arith) clear (ground (arith, bits (mapped + a - r.start)))
        (λ m h. ground (arith, bits m)) in
    let same_old = count_old-le end s.heap u.heap s.leases (λ q h. elim (ℕ_discrete q s.fresh) [
      | yes e ↦ ground (arith, ap (λ x. runs_out end (u.heap x)) e)
      | no ne ↦ ground (arith, blocked_other t (env.now k) s.fresh q ne, others q ne)
    ]) in
    let old : count_old end u.heap u.leases ≡ count_old end u.heap s.leases =
      ap (count_old end u.heap) (l ∙ leases) ∙ count_old-append end u.heap s.leases s.fresh out in
    let bits_kept = ap (λ o. count_free (r.end + 1 - r.start) (is_set o)) b in
    omega (arith, fewer_free, same_old, old, bits_kept)

-- A round that blocks a lease which it took over uses up that lease.
work_taken :
    (s : V4Server) (r : Range) (env : Env) (k end : ℕ) (p : Ptr) (x : Lease)
    → IsBrief end s.conf.lease_time env
    → Mem p s.leases
    → IsExpired s.heap (env.now k) p
    → work_left end r (blocklist_lease p (env.now k) (store p x s)) < work_left end r s
unfolding work_left store
work_taken s r env k end p x brief m old_p =
    let t = store p x s in
    let u = blocklist_lease p (env.now k) t in
    let (b, l, _) = blocked_leaves t p (env.now k) in
    let out = blocked-runs_out t env k end p brief in
    let fewer_old =
      count_old-lt end (env.now k) s.heap u.heap s.leases p (brief k).0 m old_p out (λ q h.
        elim (ℕ_discrete q p) [
          | yes e ↦ ground (arith, ap (λ x. runs_out end (u.heap x)) e)
          | no ne ↦ ground (arith, blocked_other t (env.now k) p q ne)
        ]) in
    let old = ap (count_old end u.heap) l in
    let bits_kept = ap (λ o. count_free (r.end + 1 - r.start) (is_set o)) b in
    omega (arith, fewer_old, old, bits_kept)

abbrev Ends : Env → Option Outcome → Type 0
Ends env r = (o : Outcome) × (r ≡ some o) × Allocated env o

busy_or_available :
    (k : ℕ) (env : Env) (t : V4Server) (p : Ptr) (again : V4Server → Option Outcome)
    → IsConsistent t
    → Ends env (again (blocklist_lease p (env.now k) t))
    → Ends env (settle env k (t, granted p) again)
unfolding settle
busy_or_available k env t p again ct rest = elim (Bool-cases (env.available k (t.heap p).ip)) [
  | inl free ↦ ((t, granted p), rw free refl, available_lease t p k ct free)
  | inr busy ↦ rw busy rest
]

store-conf : (s : V4Server) (p : Ptr) (l : Lease) → (store p l s).conf ≡ s.conf
unfolding store
store-conf s p l = refl

-- A round of the loop ends it, or leaves less work for the rest.
settle-Ends :
    (k end : ℕ) (env : Env) (mac : Text) (s : V4Server) (r : Range)
    → (again : V4Server → Option Outcome) → IsBrief end s.conf.lease_time env
    → IsConsistent s
    → ((u : V4Server)
        → IsConsistent u
        → u.conf ≡ s.conf
        → work_left end r u < work_left end r s
        → Ends env (again u))
    → (o : Outcome) → Reserves s r mac (env.now k) o
    → Ends env (settle env k o again)
unfolding settle
settle-Ends k end env mac s r again brief c rest o (nothing_left taken none_old) =
    ((s, exhausted), refl, none_left s c)
settle-Ends k end env mac s r again brief c rest o
      (fresh_address a t lo hi unused clear bits conf leases here others ct) =
    busy_or_available k env t s.fresh again ct (
      rest _ (blocklist_lease-IsConsistent t s.fresh (env.now k) ct)
        ((blocked_leaves t s.fresh (env.now k)).2 ∙ conf)
        (work_fresh s t r env k end a brief lo hi clear bits conf leases others))
settle-Ends k end env mac s r again brief c rest o (taken_over p t taken m x eq ct) =
    busy_or_available k env t p again ct (
      rest _ (blocklist_lease-IsConsistent t p (env.now k) ct)
        ((blocked_leaves t p (env.now k)).2 ∙ ap (λ x. x.conf) eq ∙ store-conf s p _)
        (subst (λ x. work_left end r (blocklist_lease p (env.now k) x) < work_left end r s) (sym eq)
          (work_taken s r env k end p _ brief m x)))

-- With fuel for every address and every lease, the search ends: with a lease whose address is
-- available, or with none left; the table stays consistent. (The search must be over before a
-- lease that it blocks runs out.)
pub allocate_lease_total :
    (fuel k end : ℕ) (env : Env) (mac : Text) (s : V4Server) (r : Range)
    → s.conf.ip_range ≡ some r
    → IsRange4 r
    → IsConsistent s
    → IsBrief end s.conf.lease_time env
    → work_left end r s < fuel
    → (o : Outcome) × (allocate_lease fuel k env mac s ≡ some o) × Allocated env o
unfolding allocate_lease
allocate_lease_total zero k end env mac s r e v c brief lt = absurd (omega arith)
allocate_lease_total (suc fuel) k end env mac s r e v c brief lt =
    settle-Ends k end env mac s r (allocate_lease fuel (k + 1) env mac) brief c
      (λ u cu conf less.
        allocate_lease_total fuel (k + 1) end env mac u r (ap (λ x. x.ip_range) conf ∙ e) v cu
          (rw conf brief) (omega arith))
      (reserve_lease mac (env.now k) s) (reserve_lease-Reserves s r mac (env.now k) e v c)
