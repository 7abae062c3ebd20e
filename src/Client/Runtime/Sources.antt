-- ===== src/Client/Runtime/Sources.antt =====
-- The runtime index of internal/client/runtimeindex.go: what each source is known to say of an
-- address after an update.
use mathlib.Core.Option
use gdns_server.Base.{
  ℕ, ◌≡◌, refl, ap, Bool, true, false, List, [], ◌∷◌, Option, none, some, if◌then◌else◌, arith, ite,
  ◌==◌, All, suc,
}
use gdns_server.Base.Dict.{Text, get, delete, get-put, get-delete}
use gdns_server.Net.{Addr, addr_dec}
use gdns_server.Client.Runtime.{
  Runtime, RuntimeIndex, Source, rank, client, new_runtime, set_info, unset, is_empty, is_nil,
  obtain, set_index_info, clear_source, remove_empty, proper, known_or_new, set_all_info, refresh,
  unknown, whois, arp, rdns, dhcp, hosts_file, persistent,
}

-- What a source says: names, or the WHOIS information.
names_from : Source → Runtime → Option (List Text)
names_from arp r = r.arp_names
names_from rdns r = r.rdns_names
names_from dhcp r = r.dhcp_names
names_from hosts_file r = r.hosts_file_names
names_from unknown r = none
names_from whois r = Option.map (λ w. w ∷ []) r.whois_info
names_from persistent r = none

unfoldable pub gives_names : Source → Bool
gives_names arp = true
gives_names rdns = true
gives_names dhcp = true
gives_names hosts_file = true
gives_names unknown = false
gives_names whois = false
gives_names persistent = false

unfoldable pub known : Source → Option Runtime → Option (List Text)
unfolding names_from
known s none = none
known s (some r) = names_from s r

-- What one update says of an address: its last entry counts, and a single empty name is no name.
unfoldable pub said : Addr → List (Addr × List Text) → Option (List Text) → Option (List Text)
said a [] before = before
said a ((b, names) ∷ es) before = said a es (ite (addr_dec b a) (some (proper names)) before)

names_from-set_info :
    (s src : Source) (names : List Text) (r : Runtime)
    → gives_names src ≡ true
    → names_from s (set_info src names r)
      ≡ (if rank src == rank s then some (proper names) else names_from s r)
unfolding names_from set_info gives_names
names_from-set_info s src names r h = ground arith

names_from-unset :
    (s src : Source) (r : Runtime)
    → gives_names src ≡ true
    → names_from s (unset src r) ≡ (if rank src == rank s then none else names_from s r)
unfolding names_from unset gives_names
names_from-unset s src r h = ground arith

known-obtain :
    (s : Source) (ri : RuntimeIndex) (a : Addr) → names_from s (obtain ri a) ≡ known s (client ri a)
unfolding known obtain known_or_new new_runtime names_from
known-obtain s ri a = ground arith

known-clear_source :
    (s src : Source) (ri : RuntimeIndex) (a : Addr)
    → gives_names src ≡ true
    → known s (client (clear_source src ri) a)
      ≡ (if rank src == rank s then none else known s (client ri a))
unfolding clear_source get known
known-clear_source s src [] a h = ground arith
known-clear_source s src ((b, r) ∷ ri) a h =
    ground (arith, known-clear_source s src ri a h, names_from-unset s src r h)

known-set_index_info :
    (s src : Source) (names : List Text) (ri : RuntimeIndex) (a b : Addr)
    → gives_names src ≡ true
    → known s (client (set_index_info b src names ri) a) ≡ (
        if rank src == rank s
        then ite (addr_dec b a) (some (proper names)) (known s (client ri a))
        else known s (client ri a))
unfolding set_index_info known
known-set_index_info s src names ri a b h = ground (
  arith,
  names_from-set_info s src names (obtain ri b) h,
  known-obtain s ri b,
  get-put addr_dec b a (set_info src names (obtain ri b)) ri,
  ap (λ x. known s (client ri x)),
)

known-set_all_info :
    (s src : Source) (es : List (Addr × List Text)) (ri : RuntimeIndex) (a : Addr)
    → gives_names src ≡ true
    → known s (client (set_all_info src es ri) a)
      ≡ (if rank src == rank s then said a es (known s (client ri a)) else known s (client ri a))
unfolding set_all_info said
known-set_all_info s src [] ri a h = ground arith
known-set_all_info s src ((b, names) ∷ es) ri a h = ground (
  arith,
  known-set_all_info s src es (set_index_info b src names ri) a h,
  known-set_index_info s src names ri a b h,
)

names_from-is_empty : (s : Source) (r : Runtime) → is_empty r ≡ true → names_from s r ≡ none
unfolding is_empty names_from is_nil
names_from-is_empty s r h = ground arith

known-remove_empty :
    (s : Source) (ri : RuntimeIndex) (a : Addr)
    → known s (client (remove_empty ri).0 a) ≡ known s (client ri a)
unfolding remove_empty known get
known-remove_empty s [] a = refl
known-remove_empty s ((b, r) ∷ ri) a = ground (
  arith,
  known-remove_empty s ri a,
  names_from-is_empty s r,
  get-delete addr_dec b a (remove_empty ri).0,
)

-- After an update from a source that gives names, the index knows of each address exactly what the
-- update says, and what the other sources said before, WHOIS included.
pub known-refresh :
    (s src : Source) (es : List (Addr × List Text)) (ri : RuntimeIndex) (a : Addr)
    → gives_names src ≡ true
    → known s (client (refresh src es ri).0 a)
      ≡ (if rank src == rank s then said a es none else known s (client ri a))
unfolding refresh
known-refresh s src es ri a h = ground (
  arith,
  known-remove_empty s (set_all_info src es (clear_source src ri)) a,
  known-set_all_info s src es (clear_source src ri) a h,
  known-clear_source s src ri a h,
)

All-delete :
    (P : Addr × Runtime → Type 0) (a : Addr) (ri : RuntimeIndex)
    → All P ri
    → All P (delete addr_dec a ri)
unfolding delete
All-delete P a [] h = tt
All-delete P a ((b, r) ∷ ri) h =
    elim (addr_dec b a)
      as (λ d. All P (ite d (delete addr_dec a ri) ((b, r) ∷ delete addr_dec a ri))) [
        | yes p ↦ All-delete P a ri h.1
        | no n ↦ (h.0, All-delete P a ri h.1)
      ]

abbrev IsKnown : Addr × Runtime → Type 0
IsKnown e = is_empty e.1 ≡ false

keep-IsKnown :
    (b : Addr) (r : Runtime) (rest : RuntimeIndex) (n : ℕ) (e : Bool)
    → is_empty r ≡ e
    → All IsKnown rest
    → All IsKnown
        (if◌then◌else◌ {A = RuntimeIndex × ℕ} e
          (delete addr_dec b rest, suc n)
          ((b, r) ∷ rest, n)).0
keep-IsKnown b r rest n true q h = All-delete IsKnown b rest h
keep-IsKnown b r rest n false q h = (q, h)

remove_empty-IsKnown : (ri : RuntimeIndex) → All IsKnown (remove_empty ri).0
unfolding remove_empty
remove_empty-IsKnown [] = tt
remove_empty-IsKnown ((b, r) ∷ ri) =
    keep-IsKnown b r _ _ (is_empty r) refl (remove_empty-IsKnown ri)

-- After an update, something is known of every client of the index.
pub refresh_nonempty :
    (src : Source) (es : List (Addr × List Text)) (ri : RuntimeIndex)
    → All (λ e. is_empty e.1 ≡ false) (refresh src es ri).0
unfolding refresh
refresh_nonempty src es ri = remove_empty-IsKnown (set_all_info src es (clear_source src ri))
