-- ===== src/Dnsforward/Access/Settings.antt =====
-- internal/dnsforward/access.go and dnsforward.go: which clients are blocked, in terms of the strings
-- of the settings.
use gdns_server.Base.{
  ◌≡◌, ◌≢◌, refl, sym, ap, ◌∙◌, ◌⊎◌, inl, inr, ◌↔◌, Bool, true, false, not, ◌&&◌, ◌||◌, List, [],
  ◌∷◌, Bool-cases, arith,
}
use gdns_server.Base.Dict.{Text, text_dec}
use gdns_server.Base.Sets.{has}
use gdns_server.Net.{Addr, Addr.invalid, Prefix, addr_dec, contains, without_zone}
use gdns_server.Dnsforward.{Parsers, Engine}
use gdns_server.Dnsforward.Access.{
  ClientSet, no_clients, AccessManager, processed, process_access_clients, made, new_access_ctx,
  allowlist_mode, is_blocked_client_id, no_rule, net_rule, first_net, covering, decided,
  is_blocked_ip, is_blocked_client,
}
use gdns_server.Dnsforward.Access.Lists.{Covered, InNets, IsAddrOf, IsIdOf, is_empty_set}
use gdns_server.Dnsforward.Access.Strings.{Any, process-AddedAll, process-not_empty}

-- The address or the ClientID is listed by one of the strings.
pub IsListed : Parsers → List Text → Addr → Text → Type 0
IsListed u strs ip id = Any (IsAddrOf u ip) strs ⊎ ((id ≢ []) × Any (IsIdOf u id) strs)

-- With no allowed string, one of the disallowed strings lists the client; with allowed strings, none
-- of them does.
abbrev pub IsBlockedBy : Parsers → List Text → List Text → Addr → Text → Type 0
IsBlockedBy u [] blocked ip id = IsListed u blocked ip id
IsBlockedBy u (c ∷ allowed) blocked ip id = ¬ IsListed u (c ∷ allowed) ip id

first_net-InNets :
    (ip : Addr) (nets : List Prefix)
    → ((first_net ip nets ≡ no_rule) × ¬ InNets nets ip)
      ⊎ ((n : Prefix) × (first_net ip nets ≡ net_rule n) × InNets nets ip)
unfolding first_net
first_net-InNets ip [] = inl (refl, λ h. let (n, m, c) = h in elim m [ ])
first_net-InNets ip (n ∷ nets) = elim (Bool-cases (contains n (without_zone ip))) [
  | inl c ↦ inr (n, rw (first_net, c) refl, (n, inl refl, c))
  | inr c ↦ elim (first_net-InNets ip nets) [
    | inl (e, f) ↦ inl (
      rw (first_net, c) e,
      λ h. let (m, k, d) = h in elim k [ inl q ↦ absurd (cc) | inr r ↦ f (m, r, d) ],
    )
    | inr (m, e, (x, k, d)) ↦ inr (m, rw (first_net, c) e, (x, inr k, d))
  ]
]

-- A rule is found exactly for the addresses that a set covers.
covering-cases :
    (set : ClientSet) (ip : Addr) (b : Bool)
    → (Covered set ip × ((decided b (covering set ip)).0 ≡ b))
      ⊎ ((¬ Covered set ip) × (decided b (covering set ip) ≡ (not b, no_rule)))
unfolding covering
covering-cases set ip b = elim (Bool-cases (has addr_dec ip set.ips)) [
  | inl h ↦ inl (inl h, rw (covering, h) refl)
  | inr h ↦ elim (first_net-InNets ip set.nets) [
    | inr (n, e, k) ↦ inl (inr k, rw (covering, h, e) refl)
    | inl (e, f) ↦
        inr ((λ c. elim c [ inl k ↦ absurd (cc) | inr k ↦ f k ]), rw (covering, h, e) refl)
  ]
]

-- A set has the ClientID, which is not empty.
abbrev HasId : ClientSet → Text → Type 0
HasId set id = (id ≢ []) × (has text_dec id set.client_ids ≡ true)

-- The test of the ClientID, in each of the two modes.
client_id-cases :
    {H : Type 0} (a : AccessManager H) (id : Text)
    → (allowlist_mode a ≡ false → (is_blocked_client_id a id ≡ true) ↔ HasId a.blocked id)
      × (allowlist_mode a ≡ true → (is_blocked_client_id a id ≡ true) ↔ (¬ HasId a.allowed id))
unfolding is_blocked_client_id
client_id-cases a [] =
    (λ m. (λ h. absurd (cc), λ h. absurd (h.0 refl)), λ m. (λ h k. k.0 refl, λ h. m))
client_id-cases a (c ∷ id) = (
  λ m. (λ h. ((λ e. cc), ground arith), λ h. ground (arith, h.1)),
  λ m. (
    λ h k. ground (arith, h, k.1),
    λ h. elim (Bool-cases (has text_dec (c ∷ id) a.allowed.client_ids)) [
      | inl e ↦ absurd (h ((λ q. cc), e))
      | inr e ↦ ground arith
    ],
  ),
)

module _ {H : Type 0} (a : AccessManager H) (ip : Addr) (id : Text) (v : ip ≢ invalid) where
  client_in_blocklist :
      allowlist_mode a ≡ false
      → (is_blocked_client a ip id).0
        ≡ ((decided true (covering a.blocked ip)).0 || is_blocked_client_id a id)
  unfolding is_blocked_client is_blocked_ip
  client_in_blocklist m = grind (arith, v, m)

  client_in_allowlist :
      allowlist_mode a ≡ true
      → ((is_blocked_client a ip id).0
          ≡ ((decided false (covering a.allowed ip)).0 && is_blocked_client_id a id))
        × ((is_blocked_client a ip id).1 ≡ (decided false (covering a.allowed ip)).1)
  unfolding is_blocked_client is_blocked_ip
  client_in_allowlist m = (grind (arith, v, m), grind (arith, v, m))

  -- A client is blocked, in each of the two modes, by what the sets have of it.
  client-blocked :
      allowlist_mode a ≡ false
      → ((is_blocked_client a ip id).0 ≡ true) ↔ (Covered a.blocked ip ⊎ HasId a.blocked id)
  client-blocked m =
      let e = client_in_blocklist m in
      let (f, g) = (client_id-cases a id).0 m in
      elim (covering-cases a.blocked ip true) [
        | inl (c, d) ↦ (λ h. inl c, λ h. grind arith)
        | inr (c, d) ↦
            let q : (is_blocked_client a ip id).0 ≡ is_blocked_client_id a id =
              e ∙ ap (λ x. x.0 || is_blocked_client_id a id) d in
            (λ h. inr (f (sym q ∙ h)), λ h. elim h [ inl k ↦ absurd (c k) | inr k ↦ q ∙ g k ])
      ]

  client-allowed :
      allowlist_mode a ≡ true
      → (((is_blocked_client a ip id).0 ≡ true) ↔ (¬ (Covered a.allowed ip ⊎ HasId a.allowed id)))
        × ((is_blocked_client a ip id).0 ≡ true → (is_blocked_client a ip id).1 ≡ no_rule)
  client-allowed m =
      let (e, r) = client_in_allowlist m in
      let (f, g) = (client_id-cases a id).1 m in
      elim (covering-cases a.allowed ip false) [
        | inl (c, d) ↦ ((λ h k. grind arith, λ h. absurd (h (inl c))), λ h. absurd (grind arith))
        | inr (c, d) ↦
            let q : (is_blocked_client a ip id).0 ≡ is_blocked_client_id a id =
              e ∙ ap (λ x. x.0 && is_blocked_client_id a id) d in
            (
              (
                λ h k. elim k [ inl x ↦ c x | inr x ↦ f (sym q ∙ h) x ],
                λ h. q ∙ g (λ x. h (inr x)),
              ),
              λ h. r ∙ ap (λ x. x.1) d,
            )
      ]

module _ {H : Type 0} (u : Parsers) (engine : Engine H) where
  -- The two lists of an access manager that was made.
  lists_of_made :
      (allowed blocked hosts : List Text) (a : AccessManager H)
      → new_access_ctx u engine allowed blocked hosts ≡ made a
      → (process_access_clients u 0 allowed no_clients ≡ processed a.allowed)
        × (process_access_clients u 0 blocked no_clients ≡ processed a.blocked)
  unfolding new_access_ctx
  lists_of_made allowed blocked hosts a h = (grind arith, grind arith)

  IsListed-of_set :
      (strs : List Text) (set : ClientSet) (ip : Addr) (id : Text)
      → process_access_clients u 0 strs no_clients ≡ processed set
      → (Covered set ip ⊎ HasId set id) ↔ IsListed u strs ip id
  unfolding IsListed has
  IsListed-of_set strs set ip id h =
      let (f, g, n) = process-AddedAll u 0 strs no_clients set h in
      (
        λ k. elim k [
          | inl c ↦ elim ((f ip).0 c) [
            | inl x ↦ elim x [ inl y ↦ absurd (cc) | inr y ↦ let (z, w, t) = y in elim w [ ] ]
            | inr x ↦ inl x
          ]
          | inr (e, c) ↦ elim ((g id).0 c) [ inl x ↦ absurd (cc) | inr x ↦ inr (e, x) ]
        ],
        λ k. elim k [ inl x ↦ inl ((f ip).1 (inr x)) | inr (e, x) ↦ inr (e, (g id).1 (inr x)) ],
      )

  empty_of_process :
      (strs : List Text) (set : ClientSet)
      → process_access_clients u 0 strs no_clients ≡ processed set
      → (strs ≡ [] → is_empty_set set ≡ true) × (strs ≢ [] → is_empty_set set ≡ false)
  unfolding process_access_clients
  empty_of_process [] set h = (λ e. ground arith, λ n. absurd (n refl))
  empty_of_process (s ∷ strs) set h =
      (λ e. absurd (cc), λ n. process-not_empty u 0 s strs no_clients set h)

  mode_of_made : (a : AccessManager H) → allowlist_mode a ≡ not (is_empty_set a.allowed)
  unfolding allowlist_mode
  mode_of_made a = ground arith

  allowlist_of_made :
      (c : Text) (allowed blocked hosts : List Text) (a : AccessManager H)
      → new_access_ctx u engine (c ∷ allowed) blocked hosts ≡ made a
      → allowlist_mode a ≡ true
  allowlist_of_made c allowed blocked hosts a h =
      let (p, q) = lists_of_made (c ∷ allowed) blocked hosts a h in
      mode_of_made a ∙ ap not (process-not_empty u 0 c allowed no_clients a.allowed p)

  -- With access settings that are accepted, a client with a valid address is blocked exactly as the
  -- strings of the settings say.
  pub is_blocked_client-IsBlockedBy :
      (allowed blocked hosts : List Text) (a : AccessManager H) (ip : Addr) (id : Text)
      → new_access_ctx u engine allowed blocked hosts ≡ made a
      → ip ≢ invalid
      → ((is_blocked_client a ip id).0 ≡ true) ↔ IsBlockedBy u allowed blocked ip id
  is_blocked_client-IsBlockedBy [] blocked hosts a ip id h v =
      let (p, q) = lists_of_made [] blocked hosts a h in
      let (e, n) = empty_of_process [] a.allowed p in
      let (f, g) = client-blocked a ip id v (mode_of_made a ∙ ap not (e refl)) in
      let (x, y) = IsListed-of_set blocked a.blocked ip id q in (λ t. x (f t), λ t. g (y t))
  is_blocked_client-IsBlockedBy (c ∷ allowed) blocked hosts a ip id h v =
      let ((f, g), r) = client-allowed a ip id v (allowlist_of_made c allowed blocked hosts a h) in
      let (p, q) = lists_of_made (c ∷ allowed) blocked hosts a h in
      let (x, y) = IsListed-of_set (c ∷ allowed) a.allowed ip id p in
      (λ t l. f t (y l), λ t. g (λ l. t (x l)))

  -- Where there are allowed clients, a client with a valid address that is blocked is blocked by no
  -- rule.
  is_blocked_client-no_rule :
      (c : Text) (allowed blocked hosts : List Text) (a : AccessManager H) (ip : Addr) (id : Text)
      → new_access_ctx u engine (c ∷ allowed) blocked hosts ≡ made a
      → ip ≢ invalid
      → (is_blocked_client a ip id).0 ≡ true
      → (is_blocked_client a ip id).1 ≡ no_rule
  is_blocked_client-no_rule c allowed blocked hosts a ip id h v =
      (client-allowed a ip id v (allowlist_of_made c allowed blocked hosts a h)).1
