-- ===== src/Client/Persistent.antt =====
-- internal/client/persistent.go: a persistent client, and the parsing of its identifiers. A UID is a
-- number, 0 the zero value. What `Storage` never looks into (the safe-search filter, the schedule of
-- the blocked services) is left out of the record.
pub mod Order
use Prim.Native.Nat.{Ordering, compare}
use gdns_server.Base.{
  ℕ, ◌+◌, ◌≡◌, refl, ap, Bool, true, false, not, ◌&&◌, List, [], ◌∷◌, ◌++◌, map, Option, none, some,
  ◌==◌, ltb, if◌then◌else◌, ite, length, ℕ_discrete,
}
use gdns_server.Base.Dict.{Text, text_dec, list_dec}
use gdns_server.Net.{Addr, invalid, v4, v6, Prefix, addr_dec}

pub record Persistent : Type 0 where
  pub name : Text
  pub tags : List Text
  pub upstreams : List Text
  pub upstreams_cache_size : ℕ
  pub upstreams_cache_enabled : Bool
  pub ips : List Addr
  pub subnets : List Prefix
  pub macs : List Text
  pub client_ids : List Text
  pub uid : ℕ
  pub blocked_services : List Text
  pub use_own_settings : Bool
  pub filtering_enabled : Bool
  pub safe_browsing_enabled : Bool
  pub parental_enabled : Bool
  pub use_own_blocked_services : Bool
  pub safe_search_enabled : Bool

prefix_dec_parts : (p q : Prefix) → Dec (p.addr ≡ q.addr) → Dec (p.bits ≡ q.bits) → Dec (p ≡ q)
prefix_dec_parts p q (yes a) (yes b) = yes (λ i. record { addr = a i; bits = b i })
prefix_dec_parts p q (yes a) (no b) = no (λ e. b (ap (λ x. x.bits) e))
prefix_dec_parts p q (no a) d = no (λ e. a (ap (λ x. x.addr) e))

unfoldable pub prefix_dec : Discrete Prefix
unfolding prefix_dec_parts addr_dec ℕ_discrete
prefix_dec p q = prefix_dec_parts p q (addr_dec p.addr q.addr) (ℕ_discrete p.bits q.bits)

unfoldable pub compare_text : Text → Text → Ordering
compare_text [] [] = Ordering.eq
compare_text [] (y ∷ ys) = Ordering.lt
compare_text (x ∷ xs) [] = Ordering.gt
compare_text (x ∷ xs) (y ∷ ys) = elim (compare x y) [
  | Ordering.lt ↦ Ordering.lt
  | Ordering.eq ↦ compare_text xs ys
  | Ordering.gt ↦ Ordering.gt
]

-- `netip.Addr.Compare`: by the family, then the number, then the zone.
unfoldable pub compare_addr : Addr → Addr → Ordering
unfolding compare_text
compare_addr invalid invalid = Ordering.eq
compare_addr invalid (v4 b) = Ordering.lt
compare_addr invalid (v6 b w) = Ordering.lt
compare_addr (v4 a) invalid = Ordering.gt
compare_addr (v4 a) (v4 b) = compare a b
compare_addr (v4 a) (v6 b w) = Ordering.lt
compare_addr (v6 a z) invalid = Ordering.gt
compare_addr (v6 a z) (v4 b) = Ordering.gt
compare_addr (v6 a z) (v6 b w) = elim (compare a b) [
  | Ordering.lt ↦ Ordering.lt
  | Ordering.eq ↦ compare_text z w
  | Ordering.gt ↦ Ordering.gt
]

-- Longer prefixes come first.
unfoldable pub subnet_compare : Prefix → Prefix → Ordering
unfolding compare_addr
subnet_compare x y = ite (prefix_dec x y) Ordering.eq (
    if x.bits == y.bits
    then compare_addr x.addr y.addr
    else if ltb y.bits x.bits
    then Ordering.lt
    else Ordering.gt)

identifiers_len : Persistent → ℕ
identifiers_len c = length c.ips + length c.subnets + length c.macs + length c.client_ids

pub data ClientError : Type 0 where
  empty_name id_required uid_required invalid_upstreams invalid_tag : ClientError
  empty_client_id invalid_client_id same_uid same_name same_client_id same_ip : ClientError
  same_subnet same_mac not_found panicked : ClientError

-- What the code takes from other packages: the parsers of `net` and `net/netip`, the check of host
-- name labels, the parser of upstreams (does it accept them) and the sorted allowed tags.
pub record Parsers : Type 0 where
  pub parse_addr : Text → Option Addr
  pub parse_prefix : Text → Option Prefix
  pub parse_mac : Text → Option Text
  pub is_hostname_label : Text → Bool
  pub accepts_upstreams : List Text → Bool
  pub to_lower : Text → Text

tag_allowed : List Text → Text → Bool
tag_allowed [] t = false
tag_allowed (a ∷ tags) t = let rest = tag_allowed tags t in ite (text_dec a t) true rest

-- The sorting functions of package `slices`, for a total order: equal elements are identical.
insert_sorted {ℓ} : {A : Type ℓ} → (A → A → Ordering) → A → List A → List A
insert_sorted cmp a [] = a ∷ []
insert_sorted cmp a (b ∷ bs) =
    let rest = insert_sorted cmp a bs in
    elim (cmp a b) [ Ordering.lt ↦ a ∷ b ∷ bs | Ordering.eq ↦ a ∷ b ∷ bs | Ordering.gt ↦ b ∷ rest ]

unfoldable pub sort {ℓ} : {A : Type ℓ} → (A → A → Ordering) → List A → List A
unfolding insert_sorted
sort cmp [] = []
sort cmp (a ∷ as') = insert_sorted cmp a (sort cmp as')

all_allowed : List Text → List Text → Bool
unfolding tag_allowed
all_allowed allowed [] = true
all_allowed allowed (t ∷ ts) = tag_allowed allowed t && all_allowed allowed ts

is_empty_text : Text → Bool
is_empty_text [] = true
is_empty_text (c ∷ cs) = false

unfoldable pub validate : Parsers → List Text → Persistent → Option ClientError
unfolding is_empty_text identifiers_len all_allowed
validate u allowed c =
    if is_empty_text c.name
    then some empty_name
    else if identifiers_len c == 0
    then some id_required
    else if c.uid == 0
    then some uid_required
    else if not (u.accepts_upstreams c.upstreams)
    then some invalid_upstreams
    else if not (all_allowed allowed c.tags)
    then some invalid_tag
    else none

-- What `validate` does to a client that it accepts.
unfoldable pub with_sorted_tags : Persistent → Persistent
unfolding sort compare_text
with_sorted_tags c = record c { tags = sort compare_text c.tags }

set_client_id : Parsers → Text → Persistent → Persistent × Option ClientError
set_client_id u id c =
    if u.is_hostname_label id
    then (record c { client_ids = c.client_ids ++ u.to_lower id ∷ [] }, none)
    else (c, some invalid_client_id)

-- An address, else a prefix, else a MAC address, else a ClientID, appended to the list of its kind.
set_id : Parsers → Text → Persistent → Persistent × Option ClientError
unfolding set_client_id is_empty_text
set_id u id c = if is_empty_text id then (c, some empty_client_id) else elim (u.parse_addr id) [
  | some ip ↦ (record c { ips = c.ips ++ ip ∷ [] }, none)
  | none ↦ elim (u.parse_prefix id) [
    | some p ↦ (record c { subnets = c.subnets ++ p ∷ [] }, none)
    | none ↦ elim (u.parse_mac id) [
      | some m ↦ (record c { macs = c.macs ++ m ∷ [] }, none)
      | none ↦ set_client_id u id c
    ]
  ]
]

sort_ids : Persistent → Persistent
unfolding sort compare_addr subnet_compare compare_text
sort_ids c = record c {
  ips = sort compare_addr c.ips;
  subnets = sort subnet_compare c.subnets;
  macs = sort compare_text c.macs;
  client_ids = sort compare_text c.client_ids;
}

set_ids : Parsers → List Text → Persistent → Persistent × Option ClientError
unfolding set_id sort_ids
set_ids u [] c = (sort_ids c, none)
set_ids u (id ∷ ids) c =
    let next = λ (d : Persistent). set_ids u ids d in
    let (d, e) = set_id u id c in elim e [ none ↦ next d | some x ↦ (d, some x) ]
