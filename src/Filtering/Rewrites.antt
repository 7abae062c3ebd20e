-- ===== src/Filtering/Rewrites.antt =====
-- internal/filtering/rewrites.go, and the loop over CNAME records in internal/filtering/filtering.go.
-- `netip.ParseAddr`, `strings.ToLower` and `slices.SortFunc` are parameters. A record type is its
-- number, the log is left out, and the loop runs on fuel.
pub mod Matching
pub mod Order
pub mod Sorting
pub mod Priority
pub mod Chain
pub mod Answers
use Prim.Native.Nat.{max}
use gdns_server.Base.{
  ℕ, zero, suc, ◌+◌, ◌-◌, Bool, true, false, not, ◌&&◌, ◌||◌, Option, none, some, List, [], ◌∷◌,
  ◌++◌, if◌then◌else◌, leb, ◌==◌, ite, length, take, drop, map,
}
use gdns_server.Base.Dict.{Text, text_dec}
use gdns_server.Base.Int.{ℤ, pos, negsuc, sub_ℕ}
use gdns_server.Net.{Addr, Addr.invalid, addr_dec, is4}

abbrev pub type_a : ℕ
type_a = 1

abbrev pub type_cname : ℕ
type_cname = 5

abbrev pub type_aaaa : ℕ
type_aaaa = 28

pub record LegacyRewrite : Type 0 where
  pub domain : Text
  pub answer : Text
  pub ip : Addr
  pub rr_type : ℕ
  pub enabled : Bool

-- `==` on strings and on addresses.
abbrev pub text_eq : Text → Text → Bool
text_eq a b = ite (text_dec a b) true false

abbrev pub addr_eq : Addr → Addr → Bool
addr_eq a b = ite (addr_dec a b) true false

equal : LegacyRewrite → LegacyRewrite → Bool
equal rw other = text_eq rw.domain other.domain && text_eq rw.answer other.answer

unfoldable pub matches_qtype : LegacyRewrite → ℕ → Bool
matches_qtype rw qt =
    if rw.rr_type == type_cname
    then true
    else if not (qt == type_a) && not (qt == type_aaaa)
    then false
    else (rw.rr_type == qt) || addr_eq rw.ip invalid

abbrev aaaa_word : Text
aaaa_word = b'A' ∷ b'A' ∷ b'A' ∷ b'A' ∷ []

abbrev a_word : Text
a_word = b'A' ∷ []

-- `rw == nil` is `none`, and then there is an error.
normalize : (Text → Text) → (Text → Option Addr) → Option LegacyRewrite → Option LegacyRewrite
normalize to_lower parse_addr none = none
normalize to_lower parse_addr (some entry) =
    let rw = record entry { domain = to_lower entry.domain } in
    some (
      if text_eq rw.answer aaaa_word
      then record rw { ip = invalid; rr_type = type_aaaa }
      else if text_eq rw.answer a_word
      then record rw { ip = invalid; rr_type = type_a }
      else elim (parse_addr rw.answer) [
        | none ↦ record rw { rr_type = type_cname }
        | some ip ↦ record rw { ip = ip; rr_type = if is4 ip then type_a else type_aaaa }
      ])

-- The loop of `prepareRewrites` stops at the first error, with the entries that it leaves.
prepare_rewrites :
    (Text → Text)
    → (Text → Option Addr)
    → List (Option LegacyRewrite)
    → List (Option LegacyRewrite) × Bool
unfolding normalize
prepare_rewrites to_lower parse_addr [] = ([], true)
prepare_rewrites to_lower parse_addr (r ∷ rs) =
    let rest = prepare_rewrites to_lower parse_addr rs in
    elim (normalize to_lower parse_addr r) [
      | none ↦ (r ∷ rs, false)
      | some n ↦ (some n ∷ rest.0, rest.1)
    ]

unfoldable pub is_wildcard : Text → Bool
is_wildcard [] = false
is_wildcard (a ∷ []) = false
is_wildcard (a ∷ b ∷ rest) = (a == b'*') && (b == b'.')

-- `strings.HasSuffix`
unfoldable pub has_suffix : Text → Text → Bool
has_suffix s suffix =
    leb (length suffix) (length s) && text_eq (drop (length s - length suffix) s) suffix

unfoldable pub match_domain_wildcard : Text → Text → Bool
unfolding is_wildcard has_suffix
match_domain_wildcard host wildcard = is_wildcard wildcard && has_suffix host (drop 1 wildcard)

-- `(*LegacyRewrite).Compare`
unfoldable pub compare_rewrites : LegacyRewrite → LegacyRewrite → ℤ
unfolding is_wildcard
compare_rewrites rw b =
    if (rw.rr_type == type_cname) && not (b.rr_type == type_cname)
    then negsuc 0
    else if not (rw.rr_type == type_cname) && (b.rr_type == type_cname)
    then pos 1
    else if is_wildcard rw.domain && is_wildcard b.domain
    then sub_ℕ (length b.domain) (length rw.domain)
    else if is_wildcard rw.domain
    then pos 1
    else if is_wildcard b.domain
    then negsuc 0
    else sub_ℕ (length b.domain) (length rw.domain)

-- The loop of `finalizeRewrites` over the sorted entries `all`, from the index `i` on.
pub cut : ℕ → List LegacyRewrite → List LegacyRewrite → List LegacyRewrite
unfolding is_wildcard
cut i all [] = all
cut i all (r ∷ rs) =
    let rest = cut (i + 1) all rs in if is_wildcard r.domain then take (max 1 i) all else rest

unfoldable pub matches : Text → LegacyRewrite → Bool
unfolding match_domain_wildcard
matches host e =
    if not e.enabled then false else text_eq e.domain host || match_domain_wildcard host e.domain

-- The loop of `findRewrites`.
unfoldable pub collect : List LegacyRewrite → Text → ℕ → List LegacyRewrite × Bool
unfolding matches matches_qtype
collect [] host qtype = ([], false)
collect (e ∷ es) host qtype =
    let (found, matched) = collect es host qtype in
    if not (matches host e)
    then (found, matched)
    else (if matches_qtype e qtype then e ∷ found else found, true)

clone_rewrites : List LegacyRewrite → List LegacyRewrite
clone_rewrites entries =
    map
      (λ rw. record {
        domain = rw.domain;
        answer = rw.answer;
        ip = rw.ip;
        rr_type = rw.rr_type;
        enabled = rw.enabled;
      })
      entries

-- Of the reasons, those that a rewrite gives.
pub data Reason : Type 0 where
  not_filtered_not_found : Reason
  rewritten : Reason

pub record Result : Type 0 where
  pub reason : Reason
  pub canon_name : Text
  pub ip_list : List Addr

-- `Result{}`
abbrev pub no_result : Result
no_result = record { reason = not_filtered_not_found; canon_name = []; ip_list = [] }

unfoldable pub set_rewrite_result : Result → List LegacyRewrite → ℕ → Result
set_rewrite_result res [] qtype = res
set_rewrite_result res (rw ∷ rest) qtype =
    let next = set_rewrite_result (record res { ip_list = res.ip_list ++ rw.ip ∷ [] }) rest qtype in
    let skip = set_rewrite_result res rest qtype in
    if (rw.rr_type == qtype) && ((qtype == type_a) || (qtype == type_aaaa))
    then if addr_eq rw.ip invalid then record res { reason = not_filtered_not_found } else next
    else skip

-- `MapSet.Has`
abbrev pub has : Text → List Text → Bool
has t [] = false
has t (x ∷ xs) = let rest = has t xs in text_eq x t || rest

module _ (sort : List LegacyRewrite → List LegacyRewrite) where
  unfoldable pub finalize_rewrites : List LegacyRewrite → List LegacyRewrite
  unfolding cut
  finalize_rewrites rewrites = cut 0 (sort rewrites) (sort rewrites)

  unfoldable pub find_rewrites : List LegacyRewrite → Text → ℕ → List LegacyRewrite × Bool
  find_rewrites entries host qtype =
      let (rewrites, matched) = collect entries host qtype in
      (if length rewrites == 0 then [] else finalize_rewrites rewrites, matched)

  -- `cnames` are the names that the loop has gone to.
  unfoldable pub handle_rewrite_loop :
      ℕ
      → List LegacyRewrite
      → ℕ
      → Text
      → Text
      → List LegacyRewrite × Bool
      → List Text
      → Result
      → Option Result
  handle_rewrite_loop zero entries qtype orig host found cnames res = none
  handle_rewrite_loop (suc fuel) entries qtype orig host ([], matched) cnames res =
      some (set_rewrite_result res [] qtype)
  handle_rewrite_loop (suc fuel) entries qtype orig host (rw ∷ rest, matched) cnames res =
      let next =
        handle_rewrite_loop fuel entries qtype orig rw.answer
          (find_rewrites entries rw.answer qtype) (rw.answer ∷ cnames)
          (record res { canon_name = rw.answer }) in
      if not (matched && (rw.rr_type == type_cname))
      then some (set_rewrite_result res (rw ∷ rest) qtype)
      else if text_eq orig rw.answer || text_eq rw.domain rw.answer
      then some no_result
      else if text_eq host rw.answer && is_wildcard rw.domain
      then some (set_rewrite_result (record res { canon_name = host }) (rw ∷ rest) qtype)
      else if has rw.answer cnames
      then some res
      else next

  -- `rewrites_enabled` and `entries` are of the configuration.
  unfoldable pub process_rewrites : ℕ → Bool → List LegacyRewrite → Text → ℕ → Option Result
  process_rewrites fuel rewrites_enabled entries host qtype =
      let (rewrites, matched) = find_rewrites entries host qtype in
      if not rewrites_enabled
      then some no_result
      else if not matched
      then some no_result
      else handle_rewrite_loop fuel entries qtype host host (rewrites, matched) []
          (record no_result { reason = rewritten })
