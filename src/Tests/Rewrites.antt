-- ===== src/Tests/Rewrites.antt =====
-- Runs of internal/filtering/rewrites.go: an address, a wildcard and a loop of CNAME records.
use gdns_server.Base.{◌≡◌, ◌≢◌, refl, ◌⊎◌, inl, inr, true, List, [], ◌∷◌, All, arith}
use gdns_server.Base.Dict.{Text, text_dec}
use gdns_server.Net.{v4, invalid}
use gdns_server.Filtering.Rewrites.{
  LegacyRewrite, Result, Reason, rewritten, type_a, type_aaaa, type_cname, find_rewrites,
  process_rewrites, compare_rewrites,
}
use gdns_server.Filtering.Rewrites.Matching.{Mem, Fits}
use gdns_server.Filtering.Rewrites.Order.{NotBehind, IsExact}
use gdns_server.Filtering.Rewrites.Priority.{find_rewrites-order, find_rewrites-IsExact}
use gdns_server.Filtering.Rewrites.Chain.{Returns, process_rewrites-Returns}
use gdns_server.Filtering.Rewrites.Answers.{AddressesOf, process_rewrites-AddressesOf}
use gdns_server.Filtering.Rewrites.Sorting.{insertion_sort, sort-keeps, insertion_sort-IsSort}

abbrev a_x : Text
a_x = b'a' ∷ b'.' ∷ b'x' ∷ []

abbrev all_x : Text
all_x = b'*' ∷ b'.' ∷ b'x' ∷ []

abbrev exact_rule : LegacyRewrite
exact_rule = record { domain = a_x; answer = []; ip = v4 7; rr_type = type_a; enabled = true }

abbrev wildcard_rule : LegacyRewrite
wildcard_rule = record { domain = all_x; answer = []; ip = v4 8; rr_type = type_a; enabled = true }

abbrev wildcard_cname : LegacyRewrite
wildcard_cname = record {
  domain = all_x;
  answer = b'y' ∷ [];
  ip = invalid;
  rr_type = type_cname;
  enabled = true;
}

abbrev cname_y_z : LegacyRewrite
cname_y_z = record {
  domain = b'y' ∷ [];
  answer = b'z' ∷ [];
  ip = invalid;
  rr_type = type_cname;
  enabled = true;
}

abbrev cname_z_y : LegacyRewrite
cname_z_y = record {
  domain = b'z' ∷ [];
  answer = b'y' ∷ [];
  ip = invalid;
  rr_type = type_cname;
  enabled = true;
}

abbrev rules : List LegacyRewrite
rules = wildcard_rule ∷ exact_rule ∷ []

abbrev loop : List LegacyRewrite
loop = wildcard_cname ∷ cname_y_z ∷ cname_z_y ∷ []

-- A wildcard of a CNAME record hides an exact address.
hidden_exact :
    (find_rewrites insertion_sort (exact_rule ∷ wildcard_cname ∷ []) a_x type_a).0
    ≡ wildcard_cname ∷ []
unfolding find_rewrites gdns_server.Filtering.Rewrites.collect text_dec
    gdns_server.Filtering.Rewrites.finalize_rewrites insertion_sort compare_rewrites
hidden_exact = refl

exact-Fits : Fits rules a_x type_a exact_rule
exact-Fits = (inr (inl refl), refl, inl refl, inr (inl refl, inl refl))

no_cname : (r : LegacyRewrite) → Fits rules a_x type_a r → r.rr_type ≢ type_cname
no_cname r f e = elim f.0 [
  | inl p ↦ absurd (cc)
  | inr m ↦ elim m [ inl p ↦ absurd (cc) | inr n ↦ elim n [ ] ]
]

find_rewrites-order_example :
    NotBehind exact_rule exact_rule
    × ((◌≡◌ {A = List LegacyRewrite} [] [])
        ⊎ All IsExact (find_rewrites insertion_sort rules a_x type_a).0)
unfolding find_rewrites gdns_server.Filtering.Rewrites.collect text_dec
    gdns_server.Filtering.Rewrites.finalize_rewrites insertion_sort compare_rewrites
find_rewrites-order_example =
    find_rewrites-order insertion_sort insertion_sort-IsSort rules a_x type_a exact_rule exact_rule
      [] refl exact-Fits

find_rewrites-IsExact_example :
    All IsExact (find_rewrites insertion_sort rules a_x type_a).0
    × Mem exact_rule (find_rewrites insertion_sort rules a_x type_a).0
unfolding gdns_server.Filtering.Rewrites.is_wildcard
find_rewrites-IsExact_example =
    find_rewrites-IsExact insertion_sort insertion_sort-IsSort rules a_x type_a exact_rule no_cname
      exact-Fits refl

process_rewrites-Returns_example :
    Returns insertion_sort sort-keeps loop type_a
      (process_rewrites insertion_sort 4 true loop a_x type_a)
process_rewrites-Returns_example =
    process_rewrites-Returns insertion_sort sort-keeps loop type_a 4 true a_x (omega arith)

abbrev answer_7 : Result
answer_7 = record { reason = rewritten; canon_name = []; ip_list = v4 7 ∷ [] }

process_rewrites-AddressesOf_example :
    (h : Text) × ((h ≡ a_x) ⊎ (h ≡ answer_7.canon_name))
    × AddressesOf insertion_sort sort-keeps rules type_a h answer_7.ip_list
unfolding process_rewrites find_rewrites gdns_server.Filtering.Rewrites.collect text_dec
    gdns_server.Filtering.Rewrites.handle_rewrite_loop
    gdns_server.Filtering.Rewrites.finalize_rewrites insertion_sort compare_rewrites
    gdns_server.Filtering.Rewrites.set_rewrite_result gdns_server.Net.addr_dec
process_rewrites-AddressesOf_example =
    process_rewrites-AddressesOf insertion_sort sort-keeps rules type_a 3 true a_x answer_7 refl
