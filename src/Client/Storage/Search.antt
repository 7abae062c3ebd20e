-- ===== src/Client/Storage/Search.antt =====
-- The searches of internal/client/index.go and internal/client/storage.go: which client they find.
use gdns_server.Base.{
  ℕ, ◌≤◌, ◌≡◌, ◌≢◌, ◌↔◌, ◌⊎◌, refl, sym, ap, subst, ◌∙◌, Bool, true, false, List, [], ◌∷◌, Option,
  none, some, ℕ_discrete, arith, Option-cases, inl, inr, if_pos, Bool-cases,
}
use mathlib.Core.Option.{some-injective}
use gdns_server.Base.Dict.{Text, text_dec, get}
use gdns_server.Net.{Addr, Prefix, addr_dec, contains, without_zone}
use gdns_server.SortedMap.{range_first, first_of_keys}
use gdns_server.SortedMap.Order.{has}
use gdns_server.SortedMap.Ranges.{is_some, first_of_keys-first, first_of_keys-passes}
use gdns_server.Client.Persistent.{
  Persistent, Parsers, ClientError, not_found, prefix_dec, subnet_compare, with_sorted_tags,
  validate,
}
use gdns_server.Client.Persistent.Order.{subnet_compare-bits}
use gdns_server.Client.Index.{
  Index, Lookup, client_of, resolve, find_by_client_id, find_by_mac, find_by_ip, find_by_cidr,
  uid_by_subnet, uid_by_ip, clashes, clashes_uid, enter, find_by_name, has_keys, mac_to_key,
}
use gdns_server.Client.Index
use gdns_server.Client.Index.Ownership.{Owns}
use gdns_server.Client.Index.Soundness.{IsSound, clients-enter}
use gdns_server.Client.Index.Checks.{find_by_name-stored, uid_by_subnet-eq}
use gdns_server.Client.Storage.{Storage, add, stored, enter_unless, add_valid, update, update_found}
use gdns_server.Client.Storage.Soundness.{
  IsValid, add-some, remove-some, validate-uid, add-IsValid, update-IsValid, stored-uid,
}

-- The client that is found lists the key, and the other way round.
module _ {K : Type 0} (dec : Discrete K) (keys : Persistent → List K) where
  resolve_iff :
      (ci : Index) (owner : K → Option ℕ) (k : K) (c : Persistent)
      → Owns dec keys owner (client_of ci)
      → IsSound ci
      → (resolve ci (owner k) ≡ some (some c))
        ↔ ((client_of ci c.uid ≡ some c) × (has dec k (keys c) ≡ true))
  unfolding resolve
  resolve_iff ci owner k c o s = (
    (λ h. elim (Option-cases (owner k)) [
      | inl e ↦ absurd (ground arith)
      | inr (u, e) ↦
          let (d, ed, hd) = o.sound k u e in
          let found : client_of ci u ≡ some c = ground arith in
          let same : d ≡ c = some-injective _ _ (sym ed ∙ found) in
          (
            ap (client_of ci) (s.uids u c found) ∙ found,
            subst (λ x. has dec k (keys x) ≡ true) same hd,
          )
    ]),
    (λ h. ap (resolve ci) (o.complete k c.uid c h.0 h.1) ∙ ap some h.0),
  )

-- In a sound index, a search by ClientID finds exactly the stored client that lists the ClientID.
pub find_by_client_id_iff :
    (ci : Index) (id : Text) (c : Persistent)
    → IsSound ci
    → (find_by_client_id ci id ≡ some (some c))
      ↔ ((client_of ci c.uid ≡ some c) × (has text_dec id c.client_ids ≡ true))
unfolding find_by_client_id
find_by_client_id_iff ci id c s = resolve_iff text_dec _ ci _ id c s.client_ids s

mac_to_key-some :
    (mac : Text) (ms : List Text)
    → has_keys ms ≡ true
    → has text_dec mac ms ≡ true
    → mac_to_key mac ≡ some mac
unfolding has_keys mac_to_key has
mac_to_key-some mac [] k h = grind arith
mac_to_key-some mac (m ∷ ms) k h = grind (arith, mac_to_key-some mac ms)

-- A search by MAC address finds the stored client that lists the address.
stored-by_mac :
    (ci : Index) (mac : Text) (c : Persistent)
    → IsSound ci
    → client_of ci c.uid ≡ some c
    → has_keys c.macs ≡ true
    → has text_dec mac c.macs ≡ true
    → find_by_mac ci mac ≡ some (some (some c))
unfolding find_by_mac
stored-by_mac ci mac c s st k h =
    rw (find_by_mac, mac_to_key-some mac c.macs k h)
      (ap some ((resolve_iff text_dec (λ d. d.macs) ci _ mac c s.macs s).1 (st, h)))

-- In a sound index, a search by subnet finds exactly the stored client that lists this subnet.
pub find_by_cidr_iff :
    (ci : Index) (p : Prefix) (c : Persistent)
    → IsSound ci
    → (find_by_cidr ci p ≡ some (some c))
      ↔ ((client_of ci c.uid ≡ some c) × (has prefix_dec p c.subnets ≡ true))
unfolding find_by_cidr
find_by_cidr_iff ci p c s =
    resolve_iff prefix_dec _ ci (uid_by_subnet ci) p c
      (subst (λ f. Owns prefix_dec (λ d. d.subnets) f (client_of ci)) (sym (uid_by_subnet-eq ci s))
        s.subnets)
      s

-- The client has a subnet that contains the address, and no stored client has a longer one.
pub record Longest (ci : Index) (ip : Addr) (c : Persistent) : Type 0 where
  pub subnet : Prefix
  pub listed : has prefix_dec subnet c.subnets ≡ true
  pub hit : contains subnet (without_zone ip) ≡ true
  pub longest :
      (d : Persistent) (q : Prefix)
      → client_of ci d.uid ≡ some d
      → has prefix_dec q d.subnets ≡ true
      → contains q (without_zone ip) ≡ true
      → q.bits ≤ subnet.bits

-- No stored client lists the address itself.
abbrev pub Unlisted : Index → Addr → Type 0
Unlisted ci ip = (d : Persistent) → client_of ci d.uid ≡ some d → has addr_dec ip d.ips ≡ false

abbrev hits : Addr → Prefix → Bool
hits ip p = contains p (without_zone ip)

-- A subnet of a stored client is a key of the sorted map.
subnet-key :
    (ci : Index) (d : Persistent) (q : Prefix)
    → IsSound ci
    → client_of ci d.uid ≡ some d
    → has prefix_dec q d.subnets ≡ true
    → has prefix_dec q ci.subnet_to_uid.keys ≡ true
subnet-key ci d q s e h = s.ordered.same_keys q ∙ ap is_some (s.subnets.complete q d.uid d e h)

by_subnet :
    (ci : Index) (ip : Addr) (c : Persistent) (p : Prefix)
    → IsSound ci
    → first_of_keys (hits ip) ci.subnet_to_uid.keys ≡ some p
    → resolve ci (get prefix_dec p ci.subnet_to_uid.vals) ≡ some (some c)
    → (client_of ci c.uid ≡ some c) × Longest ci ip c
by_subnet ci ip c p s f e =
    let (stored, listed) = (resolve_iff prefix_dec _ ci _ p c s.subnets s).0 e in
    (
      stored,
      record {
        subnet = p;
        listed = listed;
        hit = (first_of_keys-passes prefix_dec subnet_compare (hits ip) _ p f).0;
        longest = λ d q ed hq cq. elim (prefix_dec q p) [
          | yes same ↦ omega (arith, ap (λ x. x.bits) same)
          | no ne ↦ subnet_compare-bits p q (
              first_of_keys-first prefix_dec subnet_compare (hits ip) _ p q s.ordered.sorted f
                (subnet-key ci d q s ed hq) cq ne)
        ];
      },
    )

-- In a sound index, a client that a search by address finds is stored, and lists the address, or,
-- where no client does, has a subnet that contains it and is the longest of all such subnets.
pub find_by_ip_longest :
    (ci : Index) (ip : Addr) (c : Persistent)
    → IsSound ci
    → find_by_ip ci ip ≡ some (some c)
    → (client_of ci c.uid ≡ some c)
      × ((has addr_dec ip c.ips ≡ true) ⊎ (Unlisted ci ip × Longest ci ip c))
unfolding find_by_ip uid_by_ip range_first resolve
find_by_ip_longest ci ip c s e = elim (Option-cases (get addr_dec ip ci.ip_to_uid)) [
  | inr (u, eu) ↦
      let (st, h) =
        (resolve_iff addr_dec (λ d. d.ips) ci _ ip c s.ips s).0
          (ap (resolve ci) eu ∙ rw (find_by_ip, uid_by_ip, eu) at e) in
      (st, inl h)
  | inl en ↦ elim (Option-cases (first_of_keys (hits ip) ci.subnet_to_uid.keys)) [
    | inl f ↦ absurd (ground (arith, rw (find_by_ip, uid_by_ip, en, range_first, f) at e))
    | inr (p, f) ↦
        let (st, l) =
          by_subnet ci ip c p s f (rw (find_by_ip, uid_by_ip, en, range_first, f) at e) in
        (
          st,
          inr (
            (λ d ed.
                ground
                  (arith, λ (h : has addr_dec ip d.ips ≡ true). s.ips.complete ip d.uid d ed h)),
            l,
          ),
        )
  ]
]

-- Each identifier of the client finds it.
pub record Findable (ci : Index) (c : Persistent) : Type 0 where
  pub by_name : find_by_name ci c.name ≡ some (some c)
  pub by_client_ids :
      (id : Text) → has text_dec id c.client_ids ≡ true → find_by_client_id ci id ≡ some (some c)
  pub by_ips : (ip : Addr) → has addr_dec ip c.ips ≡ true → find_by_ip ci ip ≡ some (some c)
  pub by_subnets :
      (p : Prefix) → has prefix_dec p c.subnets ≡ true → find_by_cidr ci p ≡ some (some c)
  pub by_macs :
      (mac : Text) → has text_dec mac c.macs ≡ true → find_by_mac ci mac ≡ some (some (some c))

-- A stored client of a sound index is found by each of its identifiers.
stored-Findable :
    (ci : Index) (c : Persistent)
    → IsSound ci
    → client_of ci c.uid ≡ some c
    → has_keys c.macs ≡ true
    → Findable ci c
unfolding find_by_name find_by_ip uid_by_ip has
stored-Findable ci c s st keys = record {
  by_name =
      (resolve_iff text_dec (λ d. d.name ∷ []) ci (λ k. get text_dec k ci.name_to_uid) c.name c
          s.names s).1
        (st, if_pos (text_dec c.name c.name) refl _ _);
  by_client_ids = λ id h. (find_by_client_id_iff ci id c s).1 (st, h);
  by_ips =
      λ ip h. rw (find_by_ip, uid_by_ip, s.ips.complete ip c.uid c st h) (rw (resolve, st) refl);
  by_subnets = λ p h. (find_by_cidr_iff ci p c s).1 (st, h);
  by_macs = λ mac h. stored-by_mac ci mac c s st keys h;
}

enter-stored : (p : Persistent) (ci ci' : Index) → ci' ≡ enter p ci → client_of ci' p.uid ≡ some p
enter-stored p ci ci' h =
    ap (λ x. client_of x p.uid) h
    ∙ clients-enter p ci p.uid
    ∙ if_pos (ℕ_discrete p.uid p.uid) refl _ _

module _ {P C : Type 0} where
  enter_unless-client :
      (o : Option ClientError) (p : Persistent) (ci : Index) (s s' : Storage P C)
      → p.uid ≢ 0
      → enter_unless o p (some ci) s ≡ (s', none)
      → (has_keys p.macs ≡ true) × (s'.index ≡ enter p ci)
  unfolding enter_unless stored Index.add
  enter_unless-client (some e) p ci s s' nz h = let q : some e ≡ none = ap (λ r. r.1) h in cc
  enter_unless-client none p ci s s' nz h = elim (Bool-cases (has_keys p.macs)) [
    | inl k ↦ (k, ap (λ r. r.0.index) (sym (rw (add-some p ci nz k) at h)))
    | inr k ↦ absurd (grind (arith, ap (λ r. r.1) h))
  ]

  -- After a client is added to a valid storage, each of its identifiers finds it.
  pub add-Findable :
      (u : Parsers) (p : Persistent) (s s' : Storage P C)
      → IsValid s
      → add u p s ≡ (s', none)
      → Findable s'.index (with_sorted_tags p)
  unfolding add add_valid with_sorted_tags
  add-Findable u p s s' v h =
      let q = with_sorted_tags p in
      let v' = subst (λ r. IsValid r.0) h (add-IsValid u p s v).0 in
      elim (Option-cases (validate u s.allowed_tags p)) [
        | inr (x, e) ↦ (let z : some x ≡ none = ap (λ r. r.1) (rw (add, e) at h) in cc)
        | inl e ↦ elim (Option-cases (clashes_uid s.index q)) [
          | inr (x, e') ↦
              (let z : some x ≡ none = ap (λ r. r.1) (rw (add, e, add_valid, e') at h) in cc)
          | inl e' ↦
              let (k, eq) =
                enter_unless-client (clashes s.index q) q s.index s s'
                  (validate-uid u s.allowed_tags p e) (rw (add, e, add_valid, e') at h) in
              stored-Findable s'.index q v'.index (enter-stored q s.index s'.index eq) k
        ]
      ]

  -- After a client of a valid storage is updated, each of its new identifiers finds it, under the UID
  -- of the client that had the name.
  pub update-Findable :
      (u : Parsers) (n : Text) (p : Persistent) (s s' : Storage P C)
      → IsValid s
      → update u n p s ≡ (s', none)
      → (old : Persistent) × (find_by_name s.index n ≡ some (some old))
        × Findable s'.index (record (with_sorted_tags p) { uid = old.uid })
  unfolding update update_found with_sorted_tags
  update-Findable u n p s s' v h =
      let v' = subst (λ r. IsValid r.0) h (update-IsValid u n p s v).0 in
      elim (Option-cases (validate u s.allowed_tags p)) [
        | inr (x, e) ↦ (let z : some x ≡ none = ap (λ r. r.1) (rw (update, e) at h) in cc)
        | inl e ↦ elim (find_by_name-stored s.index n v.index) [
          | inl e' ↦
              (let z : some not_found ≡ none =
                  ap (λ r. r.1) (rw (update, e, e', update_found) at h) in
                cc)
          | inr (old, e', st, _) ↦
              let q = record (with_sorted_tags p) { uid = old.uid } in
              let left = Index.leave old s.index in
              let (k, eq) =
                enter_unless-client (clashes s.index q) q left s s' (stored-uid s old v st)
                  (rw (update, e, e', update_found, remove-some old s v st) at h) in
              (old, e', stored-Findable s'.index q v'.index (enter-stored q left s'.index eq) k)
        ]
      ]
