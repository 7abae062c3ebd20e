-- ===== src/Dhcpd/IpRange.antt =====
-- internal/dhcpd/iprange.go: an inclusive range of addresses over big integers. A nil `*ipRange` is
-- `none`, and a `*big.Int` is the number of the address in its 16-byte form.
use gdns_server.Base.{
  ℕ, zero, suc, ◌+◌, ◌-◌, ◌≤◌, ◌<◌, ◌≡◌, Bool, true, false, ◌&&◌, Option, none, some, ltb, leb,
  if◌then◌else◌, arith, Bool-cases, inl, inr, ◌↔◌, ℕ_discrete,
}
use gdns_server.Net.{NetIp, absent, sixteen, to_int}

-- `math.MaxUint32`
abbrev pub max_range_len : ℕ
max_range_len = 4294967295

pub record Range : Type 0 where
  pub start : ℕ
  pub end : ℕ

pub data RangeError : Type 0 where
  start_not_before_end range_too_large : RangeError

pub data RangeResult : Type 0 where
  ok : Range → RangeResult
  err : RangeError → RangeResult

unfoldable pub new_ip_range : NetIp → NetIp → RangeResult
new_ip_range start end =
    let s = to_int start in
    let e = to_int end in
    if leb e s
    then err start_not_before_end
    else if ltb max_range_len (e - s)
    then err range_too_large
    else ok (record { start = s; end = e })

contains_int : Range → ℕ → Bool
contains_int r n = leb r.start n && leb n r.end

unfoldable pub contains : Option Range → NetIp → Bool
unfolding contains_int
contains none ip = false
contains (some r) ip = contains_int r (to_int ip)

-- The loop of `find` with the number of addresses that are left.
find_from : ℕ → ℕ → (NetIp → Bool) → NetIp
find_from zero i p = absent
find_from (suc left) i p =
    let rest = find_from left (i + 1) p in if p (sixteen i) then sixteen i else rest

-- The loop runs from `start` up to `end`, both included.
unfoldable pub find : Option Range → (NetIp → Bool) → NetIp
unfolding find_from
find none p = absent
find (some r) p = find_from (r.end + 1 - r.start) r.start p

unfoldable pub offset : Option Range → NetIp → Option ℕ
unfolding contains_int
offset none ip = none
offset (some r) ip = if contains_int r (to_int ip) then some (to_int ip - r.start) else none

-- `newIPRange` accepts exactly the pairs with `start` below `end` and a difference of 32 bits, and
-- the range that it returns has these ends.
pub new_ip_range_iff :
    (start end : NetIp) (r : Range)
    → (new_ip_range start end ≡ ok r) ↔ (
        (to_int start < to_int end)
        × (to_int end - to_int start ≤ max_range_len)
        × (r ≡ record { start = to_int start; end = to_int end }))
unfolding new_ip_range
new_ip_range_iff start end r = (λ h. ground arith, λ h. ground arith)

-- What a search found: the first address that passes, or none because none passes.
pub data Found (lo hi : ℕ) (p : NetIp → Bool) : NetIp → Type 0 where
  first :
      (n : ℕ)
      → lo ≤ n
      → n < hi
      → p (sixteen n) ≡ true
      → ((m : ℕ) → lo ≤ m → m < n → p (sixteen m) ≡ false)
      → Found lo hi p (sixteen n)
  nothing : ((m : ℕ) → lo ≤ m → m < hi → p (sixteen m) ≡ false) → Found lo hi p absent

extend :
    {lo hi : ℕ} {p : NetIp → Bool} {ip : NetIp}
    → p (sixteen lo) ≡ false
    → Found (lo + 1) hi p ip
    → Found lo hi p ip
extend {lo} {hi} {p} h (first n a b c d) =
    first n (omega arith) b c
      (λ m q r. elim (ℕ_discrete lo m) [ yes e ↦ rw (← e) h | no e ↦ d m (omega arith) r ])
extend {lo} {hi} {p} h (nothing d) =
    nothing (λ m q r. elim (ℕ_discrete lo m) [ yes e ↦ rw (← e) h | no e ↦ d m (omega arith) r ])

find_from-Found :
    (left lo hi : ℕ) (p : NetIp → Bool) → lo + left ≡ hi → Found lo hi p (find_from left lo p)
unfolding find_from
find_from-Found zero lo hi p e = nothing (λ m a b. absurd (omega arith))
find_from-Found (suc left) lo hi p e = elim (Bool-cases (p (sixteen lo))) [
  | inl hit ↦ rw hit (first lo (omega arith) (omega arith) hit (λ m a b. absurd (omega arith)))
  | inr miss ↦ rw miss (extend miss (find_from-Found left (lo + 1) hi p (omega arith)))
]

-- `find` returns the first address of the range that passes the test, and nil only if none does.
pub find-Found :
    (r : Range) (p : NetIp → Bool) → r.start ≤ r.end → Found r.start (r.end + 1) p (find (some r) p)
unfolding find
find-Found r p h = find_from-Found (r.end + 1 - r.start) r.start (r.end + 1) p (omega arith)

-- Two addresses of the range with the same offset are the same.
offset-injective :
    (r : Range) (a b : NetIp) (n : ℕ)
    → offset (some r) a ≡ some n
    → offset (some r) b ≡ some n
    → to_int a ≡ to_int b
unfolding offset
offset-injective r a b n ha hb = ground arith

-- An address has an offset exactly if it lies in the range, and the offset is its distance from the
-- start.
pub offset_iff :
    (r : Range) (ip : NetIp) (n : ℕ)
    → (offset (some r) ip ≡ some n)
      ↔ ((r.start ≤ to_int ip) × (to_int ip ≤ r.end) × (n ≡ to_int ip - r.start))
unfolding offset
offset_iff r ip n = (λ h. ground arith, λ h. ground arith)
