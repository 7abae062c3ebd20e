-- ===== src/Dhcpd/Hostname.antt =====
-- internal/dhcpd/v4_unix.go, `normalizeHostname` and `validHostnameForClient`, and
-- internal/aghnet/hostgen.go. A string is the list of its code points.
use mathlib.Core.Option
use gdns_server.Base.{
  ℕ, zero, suc, ◌+◌, ◌-◌, ◌*◌, ◌/◌, ◌%◌, ◌^◌, Bool, not, ◌&&◌, List, [], ◌∷◌, ◌++◌, map, Option,
  none, some, ◌==◌, ltb, if◌then◌else◌,
}
use gdns_server.Base.Dict.{Text}
use gdns_server.Net.{Addr, invalid, v4, v6, unmap}

-- What the code takes from golibs and from Go's tables of letters: `netutil.IsValidHostOuterRune`,
-- `netutil.ValidateHostname` and `netutil.ValidateMAC` (is the error nil), and `unicode.ToLower`.
pub record Netutil : Type 0 where
  pub is_valid_host_outer_rune : ℕ → Bool
  pub validate_hostname : Text → Bool
  pub validate_mac : Text → Bool
  pub to_lower_rune : ℕ → ℕ

abbrev dot : ℕ
dot = b'.'

abbrev hyphen : ℕ
hyphen = b'-'

cons_part : Text → List Text → List Text
cons_part [] parts = parts
cons_part (c ∷ cs) parts = (c ∷ cs) ∷ parts

-- `strings.FieldsFunc`: the maximal runs of code points that are no separators. The first argument
-- is the run before the text, and the result has no empty run.
fields_after : (ℕ → Bool) → Text → Text → List Text
unfolding cons_part
fields_after sep run [] = cons_part run []
fields_after sep run (c ∷ cs) =
    let stop = fields_after sep [] cs in
    let go = fields_after sep (run ++ c ∷ []) cs in if sep c then cons_part run stop else go

fields_func : (ℕ → Bool) → Text → List Text
unfolding fields_after
fields_func sep s = fields_after sep [] s

-- `strings.Join(parts, "-")`.
join_hyphen : List Text → Text
join_hyphen [] = []
join_hyphen (p ∷ []) = p
join_hyphen (p ∷ q ∷ ps) = p ++ hyphen ∷ join_hyphen (q ∷ ps)

-- `strings.TrimSuffix(s, "-")`.
trim_hyphen : Text → Text
trim_hyphen [] = []
trim_hyphen (c ∷ []) = if c == hyphen then [] else c ∷ []
trim_hyphen (c ∷ d ∷ s) = c ∷ trim_hyphen (d ∷ s)

-- `none` is the error "no valid parts".
joined : List Text → Option Text
unfolding join_hyphen trim_hyphen
joined [] = none
joined (p ∷ ps) = some (trim_hyphen (join_hyphen (p ∷ ps)))

separates : Netutil → ℕ → Bool
separates u c = not (c == dot) && not (u.is_valid_host_outer_rune c)

normalize_non_empty : Netutil → Text → Option Text
unfolding fields_func joined separates
normalize_non_empty u hostname = joined (fields_func (separates u) (map u.to_lower_rune hostname))

unfoldable pub normalize_hostname : Netutil → Text → Option Text
unfolding normalize_non_empty
normalize_hostname u [] = some []
normalize_hostname u (c ∷ cs) = normalize_non_empty u (c ∷ cs)

digit : ℕ → ℕ
digit n = n + b'0'

-- A number below 256 in decimal, with no leading zero.
octet : ℕ → Text
unfolding digit
octet n =
    if ltb n 10
    then digit n ∷ []
    else if ltb n 100
    then digit (n / 10) ∷ digit (n % 10) ∷ []
    else digit (n / 100) ∷ digit (n / 10 % 10) ∷ digit (n % 10) ∷ []

hex_digit : ℕ → ℕ
hex_digit n = if ltb n 10 then n + b'0' else n - 10 + b'a'

-- Sixteen bits as four hexadecimal digits.
hex_group : ℕ → Text
unfolding hex_digit
hex_group n =
    hex_digit (n / 4096 % 16)
    ∷ hex_digit (n / 256 % 16)
    ∷ hex_digit (n / 16 % 16)
    ∷ hex_digit (n % 16)
    ∷ []

hex_groups : ℕ → ℕ → List Text
unfolding hex_group
hex_groups zero a = []
hex_groups (suc k) a = hex_group (a / 2 ^ (16 * k) % 65536) ∷ hex_groups k a

zone_suffix : Text → Text
zone_suffix [] = []
zone_suffix (c ∷ z) = b'%' ∷ c ∷ z

colon_to_hyphen : ℕ → ℕ
colon_to_hyphen c = if c == b':' then hyphen else c

-- `ip.StringExpanded()` with its dots or colons replaced by hyphens. The zero address panics.
hyphenated : Addr → Option Text
unfolding octet hex_groups zone_suffix join_hyphen colon_to_hyphen
hyphenated invalid = none
hyphenated (v4 a) = some (
    join_hyphen (
      octet (a / 2 ^ 24 % 256)
      ∷ octet (a / 2 ^ 16 % 256)
      ∷ octet (a / 2 ^ 8 % 256)
      ∷ octet (a % 256)
      ∷ []))
hyphenated (v6 a z) = some (join_hyphen (hex_groups 8 a) ++ map colon_to_hyphen (zone_suffix z))

unfoldable pub generate_hostname : Addr → Option Text
unfolding hyphenated
generate_hostname ip = hyphenated (unmap ip)

or_generated : Text → Addr → Option Text
or_generated [] ip = generate_hostname ip
or_generated (c ∷ cs) ip = some (c ∷ cs)

-- A failed normalisation leaves the empty name, and an invalid one is replaced by it. `none` is the
-- panic of `GenerateHostname` at the zero address.
unfoldable pub valid_hostname_for_client : Netutil → Text → Addr → Option Text
unfolding or_generated
valid_hostname_for_client u cli_hostname ip =
    let norm = Option.get_or (normalize_hostname u cli_hostname) [] in
    Option.map (λ h. if u.validate_hostname h then h else []) (or_generated norm ip)
