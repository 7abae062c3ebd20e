-- ===== src/Net.antt =====
-- What the modules use of Go's packages `net` and `net/netip`: addresses, prefixes and byte slices
-- that hold an address. The code that uses them is in internal/.
use gdns_server.Base.{
  ℕ, ◌+◌, ◌-◌, ◌*◌, ◌/◌, ◌%◌, ◌^◌, ◌≡◌, refl, ap, Bool, true, false, ◌&&◌, ◌||◌, [], ◌∷◌, Option,
  none, some, ℕ_discrete, leb, ◌==◌, if◌then◌else◌,
}
use gdns_server.Base.Dict.{Text, text_dec}

-- A `netip.Addr`: the zero value, an IPv4 address, or an IPv6 address with its zone.
pub data Addr : Type 0 where
  invalid : Addr
  v4 : ℕ → Addr
  v6 : ℕ → Text → Addr

v4_dec : (a b : ℕ) → Dec (a ≡ b) → Dec (Addr.v4 a ≡ Addr.v4 b)
v4_dec a b (yes p) = yes (ap v4 p)
v4_dec a b (no p) = no (λ e. p (cc))

v6_dec : (a b : ℕ) (z w : Text) → Dec (a ≡ b) → Dec (z ≡ w) → Dec (Addr.v6 a z ≡ Addr.v6 b w)
v6_dec a b z w (yes p) (yes q) = yes (cc)
v6_dec a b z w (yes p) (no q) = no (λ e. q (cc))
v6_dec a b z w (no p) d = no (λ e. p (cc))

-- `==` on addresses.
unfoldable pub addr_dec : Discrete Addr
unfolding v4_dec v6_dec ℕ_discrete text_dec
addr_dec invalid invalid = yes refl
addr_dec (v4 a) (v4 b) = v4_dec a b (ℕ_discrete a b)
addr_dec (v6 a z) (v6 b w) = v6_dec a b z w (ℕ_discrete a b) (text_dec z w)
addr_dec invalid (v4 b) = no (λ e. cc)
addr_dec invalid (v6 b w) = no (λ e. cc)
addr_dec (v4 a) invalid = no (λ e. cc)
addr_dec (v4 a) (v6 b w) = no (λ e. cc)
addr_dec (v6 a z) invalid = no (λ e. cc)
addr_dec (v6 a z) (v4 b) = no (λ e. cc)

abbrev pub is4 : Addr → Bool
is4 invalid = false
is4 (v4 a) = true
is4 (v6 a z) = false

-- The prefix of the IPv4-mapped IPv6 addresses, `::ffff:0:0/96`.
abbrev pub mapped : ℕ
mapped = 0xffff * 2 ^ 32

-- `Addr.Unmap`: an IPv4-mapped address becomes the IPv4 address.
unfoldable pub unmap : Addr → Addr
unmap invalid = invalid
unmap (v4 a) = v4 a
unmap (v6 a z) = if a / 2 ^ 32 == 0xffff then v4 (a % 2 ^ 32) else v6 a z

-- `Addr.WithZone("")`.
abbrev pub without_zone : Addr → Addr
without_zone invalid = invalid
without_zone (v4 a) = v4 a
without_zone (v6 a z) = v6 a []

pub record Prefix : Type 0 where
  pub addr : Addr
  pub bits : ℕ

same_bits : ℕ → ℕ → ℕ → ℕ → Bool
same_bits width bits a b = leb bits width && (a / 2 ^ (width - bits) == b / 2 ^ (width - bits))

no_zone : Text → Bool
no_zone [] = true
no_zone (c ∷ z) = false

contains_addr : Addr → ℕ → Addr → Bool
unfolding same_bits no_zone
contains_addr invalid n ip = false
contains_addr (v4 a) n invalid = false
contains_addr (v4 a) n (v4 b) = same_bits 32 n a b
contains_addr (v4 a) n (v6 b z) = false
contains_addr (v6 a w) n invalid = false
contains_addr (v6 a w) n (v4 b) = false
contains_addr (v6 a w) n (v6 b z) = no_zone z && same_bits 128 n a b

-- `Prefix.Contains`: never for an address with a zone, nor across the families.
unfoldable pub contains : Prefix → Addr → Bool
unfolding contains_addr
contains p ip = contains_addr p.addr p.bits ip

-- A `net.IP`: nil, four bytes, sixteen bytes, or a slice of another length.
pub data NetIp : Type 0 where
  absent : NetIp
  four : ℕ → NetIp
  sixteen : ℕ → NetIp
  malformed : NetIp

-- `net.IP(ip.AsSlice())`.
abbrev pub as_slice : Addr → NetIp
as_slice invalid = absent
as_slice (v4 a) = four a
as_slice (v6 a z) = sixteen a

-- `(&big.Int{}).SetBytes(ip.To16())`. `To16` of a slice of another length is nil, which is 0.
abbrev pub to_int : NetIp → ℕ
to_int absent = 0
to_int (four a) = mapped + a
to_int (sixteen a) = a
to_int malformed = 0

-- `ip.To4()`.
abbrev pub to4 : NetIp → NetIp
to4 absent = absent
to4 (four a) = four a
to4 (sixteen a) = if a / 2 ^ 32 == 0xffff then four (a % 2 ^ 32) else absent
to4 malformed = absent

-- `netip.AddrFromSlice`.
abbrev pub addr_from_slice : NetIp → Option Addr
addr_from_slice absent = none
addr_from_slice (four a) = some (v4 a)
addr_from_slice (sixteen a) = some (v6 a [])
addr_from_slice malformed = none

abbrev pub is_absent : NetIp → Bool
is_absent absent = true
is_absent (four a) = false
is_absent (sixteen a) = false
is_absent malformed = false

-- `ip.IsUnspecified()`: 0.0.0.0 or ::.
abbrev pub is_unspecified : NetIp → Bool
is_unspecified absent = false
is_unspecified (four a) = a == 0
is_unspecified (sixteen a) = (a == 0) || (a == mapped)
is_unspecified malformed = false

-- `ip.Equal(other)` for one side with four or sixteen bytes: an IPv4 address equals its mapped form.
abbrev pub net_ip_equal : NetIp → NetIp → Bool
net_ip_equal absent absent = true
net_ip_equal (four a) (four b) = a == b
net_ip_equal (four a) (sixteen b) = mapped + a == b
net_ip_equal (sixteen a) (four b) = a == mapped + b
net_ip_equal (sixteen a) (sixteen b) = a == b
net_ip_equal malformed malformed = true
net_ip_equal _ _ = false
