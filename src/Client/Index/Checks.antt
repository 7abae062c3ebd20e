-- ===== src/Client/Index/Checks.antt =====
-- The checks of internal/client/index.go for a client that is to be stored: what a report means, and
-- that the nil pointers that they could meet are never met.
use mathlib.Core.Path.{fun_ext}
use gdns_server.Base.{
  ℕ, ◌≡◌, ◌≢◌, refl, sym, ap, subst, ◌∙◌, true, List, [], ◌∷◌, Option, none, some, arith,
  Option-cases, inl, inr, ◌⊎◌,
}
use gdns_server.Base.Dict.{Text, text_dec, get}
use gdns_server.Net.{addr_dec}
use gdns_server.SortedMap.Order.{has}
use gdns_server.SortedMap.Ranges.{range_first-key}
use gdns_server.Client.Persistent.{
  Persistent, ClientError, same_client_id, same_ip, same_subnet, same_mac, prefix_dec,
  subnet_compare,
}
use gdns_server.Client.Index.Ownership.{Owns, clash_in-none, clash_in-owner}
use gdns_server.Client.Index.{
  Index, client_of, clashes, clashes_name, clash_in, reported, reported_or_panic, first_error,
  uid_by_subnet, find_by_name, clash_mac, reported_mac, has_keys, mac_to_key,
}
use gdns_server.Client.Index.Soundness.{IsSound, IsFree}

-- Where every UID that a check finds has a client, no report means that the check found none.
abbrev HasClient : Index → Option ℕ → Type 0
HasClient ci o = (u : ℕ) → o ≡ some u → (p : Persistent) × (client_of ci u ≡ some p)

reported-none :
    (ci : Index) (o : Option ℕ) (e : ClientError) (next : Option ClientError)
    → HasClient ci o
    → reported ci o e next ≡ none
    → (o ≡ none) × (next ≡ none)
unfolding reported
reported-none ci none e next h r = (refl, r)
reported-none ci (some u) e next h r = let (p, c) = h u refl in ground (arith, c)

reported_or_panic-none :
    (ci : Index) (o : Option ℕ) (e : ClientError) (next : Option ClientError)
    → HasClient ci o
    → reported_or_panic ci o e next ≡ none
    → (o ≡ none) × (next ≡ none)
unfolding reported_or_panic
reported_or_panic-none ci none e next h r = (refl, r)
reported_or_panic-none ci (some u) e next h r = let (p, c) = h u refl in ground (arith, c)

first_error-none : (a b : Option ClientError) → first_error a b ≡ none → (a ≡ none) × (b ≡ none)
unfolding first_error
first_error-none none b h = (refl, h)
first_error-none (some e) b h = cc

Owns-HasClient :
    {K : Type 0} (dec : Discrete K) (keys : Persistent → List K) (ci : Index) (owner : K → Option ℕ)
    → Owns dec keys owner (client_of ci)
    → (uid : ℕ) (ks : List K) → HasClient ci (clash_in owner uid ks)
Owns-HasClient dec keys ci owner o uid ks u e =
    let (k, ek) = clash_in-owner owner uid ks u e in let (c, ec, _) = o.sound k u ek in (c, ec)

clashes_name-none :
    (ci : Index) (c : Persistent) (k : Text) (u : ℕ)
    → IsSound ci
    → clashes_name ci c ≡ none
    → has text_dec k (c.name ∷ []) ≡ true
    → get text_dec k ci.name_to_uid ≡ some u
    → u ≡ c.uid
unfolding clashes_name find_by_name has
clashes_name-none ci c k u s h e g =
    let (d, ed, _) = s.names.sound k u g in
    let same : c.name ≡ k = ground arith in
    ground (arith, ap (λ n. get text_dec n ci.name_to_uid) same, s.uids u d)

-- The walk over the subnets finds what the map has.
pub uid_by_subnet-eq :
    (ci : Index) → IsSound ci → uid_by_subnet ci ≡ (λ p. get prefix_dec p ci.subnet_to_uid.vals)
uid_by_subnet-eq ci s =
    fun_ext (λ p. range_first-key prefix_dec subnet_compare p ci.subnet_to_uid s.ordered)

owner_of_mac : Index → Text → Option ℕ
owner_of_mac ci m = get text_dec m ci.mac_to_uid

-- The loop over the MAC addresses that comes to its end does what the other loops do.
clash_mac-some :
    (ci : Index) (uid : ℕ) (ms : List Text) (o : Option ℕ)
    → clash_mac ci uid ms ≡ some o
    → clash_in (owner_of_mac ci) uid ms ≡ o
unfolding clash_mac clash_in mac_to_key owner_of_mac
clash_mac-some ci uid [] o h = grind arith
clash_mac-some ci uid (m ∷ ms) o h = grind (arith, clash_mac-some ci uid ms o)

-- A loop over the MAC addresses that finds nothing has seen a key of each.
clash_mac-has_keys :
    (ci : Index) (uid : ℕ) (ms : List Text) → clash_mac ci uid ms ≡ some none → has_keys ms ≡ true
unfolding clash_mac has_keys mac_to_key
clash_mac-has_keys ci uid [] h = refl
clash_mac-has_keys ci uid (m ∷ ms) h = grind (arith, clash_mac-has_keys ci uid ms)

clash_mac-no_panic :
    (ci : Index) (uid : ℕ) (ms : List Text) → has_keys ms ≡ true → clash_mac ci uid ms ≢ none
unfolding clash_mac has_keys mac_to_key
clash_mac-no_panic ci uid [] h e = grind arith
clash_mac-no_panic ci uid (m ∷ ms) h e = grind (arith, clash_mac-no_panic ci uid ms)

reported_mac-none :
    (ci : Index) (uid : ℕ) (ms : List Text) (o : Option (Option ℕ))
    → clash_mac ci uid ms ≡ o
    → HasClient ci (clash_in (owner_of_mac ci) uid ms)
    → reported_mac ci o ≡ none
    → (clash_in (owner_of_mac ci) uid ms ≡ none) × (has_keys ms ≡ true)
unfolding reported_mac
reported_mac-none ci uid ms none e h r = absurd (ground arith)
reported_mac-none ci uid ms (some o) e h r =
    let same = clash_mac-some ci uid ms o e in
    let (n, _) = reported-none ci o same_mac none (subst (HasClient ci) same h) r in
    (same ∙ n, clash_mac-has_keys ci uid ms (e ∙ ap some n))

-- In a sound index, a client that passes the checks has no identifier of another client, and each of
-- its MAC addresses has a key.
pub clashes-IsFree :
    (ci : Index) (c : Persistent)
    → IsSound ci
    → clashes ci c ≡ none
    → IsFree ci c × (has_keys c.macs ≡ true)
unfolding clashes owner_of_mac
clashes-IsFree ci c s h =
    let (e1, h1) = first_error-none _ _ h in
    let (e2, h2) =
      reported_or_panic-none ci _ _ _
        (Owns-HasClient text_dec _ ci _ s.client_ids c.uid c.client_ids) h1 in
    let (e3, h3) = reported-none ci _ _ _ (Owns-HasClient addr_dec _ ci _ s.ips c.uid c.ips) h2 in
    let walk = uid_by_subnet-eq ci s in
    let owns =
      subst (λ f. Owns prefix_dec (λ d. d.subnets) f (client_of ci)) (sym walk) s.subnets in
    let (e4, h4) =
      reported-none ci _ _ _ (Owns-HasClient prefix_dec _ ci _ owns c.uid c.subnets) h3 in
    let (e5, k) =
      reported_mac-none ci c.uid c.macs _ refl (Owns-HasClient text_dec _ ci _ s.macs c.uid c.macs)
        h4 in
    (
      record {
        names = λ k u. clashes_name-none ci c k u s e1;
        client_ids = λ k u. clash_in-none text_dec _ c.uid c.client_ids k u e2;
        ips = λ k u. clash_in-none addr_dec _ c.uid c.ips k u e3;
        macs = λ k u. clash_in-none text_dec _ c.uid c.macs k u e5;
        subnets = λ k u.
            clash_in-none prefix_dec _ c.uid c.subnets k u
              (subst (λ f. clash_in f c.uid c.subnets ≡ none) walk e4);
      },
      k,
    )

clashes_name-no_panic :
    (ci : Index) (c : Persistent) → IsSound ci → clashes_name ci c ≢ some ClientError.panicked
unfolding clashes_name find_by_name
clashes_name-no_panic ci c s h = elim (Option-cases (get text_dec c.name ci.name_to_uid)) [
  | inl e ↦ ground arith
  | inr (u, e) ↦ let (d, ed, _) = s.names.sound c.name u e in ground (arith, ed)
]

first_error-no_panic :
    (a b : Option ClientError)
    → a ≢ some ClientError.panicked
    → b ≢ some ClientError.panicked
    → first_error a b ≢ some ClientError.panicked
unfolding first_error
first_error-no_panic none b h k = k
first_error-no_panic (some e) b h k = h

reported_or_panic-no_panic :
    (ci : Index) (o : Option ℕ) (e : ClientError) (next : Option ClientError)
    → HasClient ci o
    → some e ≢ some ClientError.panicked
    → next ≢ some ClientError.panicked
    → reported_or_panic ci o e next ≢ some ClientError.panicked
unfolding reported_or_panic
reported_or_panic-no_panic ci none e next h ne k = k
reported_or_panic-no_panic ci (some u) e next h ne k =
    let (p, c) = h u refl in λ q. ground (arith, c, ne, q)

reported-no_panic :
    (ci : Index) (o : Option ℕ) (e : ClientError) (next : Option ClientError)
    → some e ≢ some ClientError.panicked
    → next ≢ some ClientError.panicked
    → reported ci o e next ≢ some ClientError.panicked
unfolding reported
reported-no_panic ci none e next ne k = k
reported-no_panic ci (some u) e next ne k = λ q. ground (arith, ne, k, q)

reported_mac-no_panic :
    (ci : Index) (o : Option (Option ℕ)) → o ≢ none → reported_mac ci o ≢ some ClientError.panicked
unfolding reported_mac
reported_mac-no_panic ci none h = absurd (h refl)
reported_mac-no_panic ci (some o) h =
    reported-no_panic ci o same_mac none (λ (e : some same_mac ≡ some ClientError.panicked). cc)
      (λ (e : none ≡ some ClientError.panicked). cc)

-- The checks of a sound index do not panic where each MAC address has a key.
pub clashes-no_panic :
    (ci : Index) (c : Persistent)
    → IsSound ci
    → has_keys c.macs ≡ true
    → clashes ci c ≢ some ClientError.panicked
unfolding clashes
clashes-no_panic ci c s keys = first_error-no_panic _ _ (clashes_name-no_panic ci c s) (
    reported_or_panic-no_panic ci _ _ _
      (Owns-HasClient text_dec _ ci _ s.client_ids c.uid c.client_ids)
      (λ (e : some same_client_id ≡ some ClientError.panicked). cc)
      (reported-no_panic ci _ _ _ (λ (e : some same_ip ≡ some ClientError.panicked). cc)
        (reported-no_panic ci _ _ _ (λ (e : some same_subnet ≡ some ClientError.panicked). cc)
          (reported_mac-no_panic ci _ (clash_mac-no_panic ci c.uid c.macs keys)))))

-- A name that is found has a stored client of that name.
pub find_by_name-stored :
    (ci : Index) (n : Text)
    → IsSound ci
    → (find_by_name ci n ≡ none)
      ⊎ ((p : Persistent) × (find_by_name ci n ≡ some (some p))
          × (client_of ci p.uid ≡ some p)
          × (p.name ≡ n))
unfolding find_by_name has
find_by_name-stored ci n s = elim (Option-cases (get text_dec n ci.name_to_uid)) [
  | inl e ↦ inl (ground (arith, e))
  | inr (u, e) ↦
      let (d, ed, hd) = s.names.sound n u e in
      let own = s.uids u d ed in
      inr (d, ground (arith, e, ed), ap (client_of ci) own ∙ ed, ground (arith, hd))
]
