-- ===== src/Dnsforward/Access/Lists.antt =====
-- internal/dnsforward/access.go: the sets of clients, and the strings that they were made from.
use mathlib.Core.Option.{some-injective}
use gdns_server.Base.{
  ◌≡◌, refl, sym, subst, ◌∙◌, ◌⊎◌, inl, inr, ◌↔◌, Bool, true, false, not, ◌||◌, none, some, List,
  [], ◌∷◌, ◌++◌, Option-cases, arith,
}
use gdns_server.Base.Dict.{Text, text_dec}
use gdns_server.Base.Sets.{
  Mem, Mem-append, has, has-add, add, add-not_empty, append-not_empty, is_empty_list,
}
use gdns_server.Net.{Addr, Prefix, addr_dec, contains, without_zone}
use gdns_server.Dnsforward.{Parsers}
use gdns_server.Dnsforward.Access.{ClientSet, process_client}

-- A prefix of a set has the address.
abbrev pub InNets : List Prefix → Addr → Type 0
InNets nets ip = (n : Prefix) × Mem n nets × (contains n (without_zone ip) ≡ true)

-- The address is in a set, or in one of its prefixes.
abbrev pub Covered : ClientSet → Addr → Type 0
Covered set ip = (has addr_dec ip set.ips ≡ true) ⊎ InNets set.nets ip

-- The string is an address that is `ip`, or else a prefix that has `ip`.
unfoldable pub IsAddrOf : Parsers → Addr → Text → Type 0
IsAddrOf u ip s =
    (u.parse_addr s ≡ some ip)
    ⊎ ((n : Prefix) × (u.parse_addr s ≡ none)
        × (u.parse_prefix s ≡ some n)
        × (contains n (without_zone ip) ≡ true))

-- The string is neither an address nor a prefix, and it is the ClientID.
unfoldable pub IsIdOf : Parsers → Text → Text → Type 0
IsIdOf u id s = (u.parse_addr s ≡ none) × (u.parse_prefix s ≡ none) × (id ≡ s)

abbrev pub is_empty_set : ClientSet → Bool
is_empty_set set = not (
    not (is_empty_list set.ips)
    || not (is_empty_list set.client_ids)
    || not (is_empty_list set.nets))

InNets-add :
    (nets : List Prefix) (m : Prefix) (ip : Addr)
    → InNets (nets ++ m ∷ []) ip ↔ (InNets nets ip ⊎ (contains m (without_zone ip) ≡ true))
InNets-add nets m ip = (
  λ h.
      let (n, k, c) = h in
      elim ((Mem-append n nets (m ∷ [])).0 k) [
        | inl a ↦ inl (n, a, c)
        | inr b ↦ elim b [
          | inl e ↦ inr (subst (λ x. contains x (without_zone ip) ≡ true) e c)
          | inr f ↦ elim f [ ]
        ]
      ],
  λ h. elim h [
    | inl a ↦ let (n, k, c) = a in (n, (Mem-append n nets (m ∷ [])).1 (inl k), c)
    | inr c ↦ (m, (Mem-append m nets (m ∷ [])).1 (inr (inl refl)), c)
  ],
)

-- What one string adds to a set.
abbrev pub Added : Parsers → Text → ClientSet → ClientSet → Type 0
Added u s set set' =
    ((ip : Addr) → Covered set' ip ↔ (Covered set ip ⊎ IsAddrOf u ip s))
    × ((id : Text)
        → (has text_dec id set'.client_ids ≡ true)
          ↔ ((has text_dec id set.client_ids ≡ true) ⊎ IsIdOf u id s))
    × (is_empty_set set' ≡ false)

add_ip :
    (u : Parsers) (s : Text) (set : ClientSet) (a : Addr)
    → u.parse_addr s ≡ some a
    → Added u s set (record set { ips = add addr_dec a set.ips })
unfolding IsAddrOf IsIdOf
add_ip u s set a e = (
  λ ip.
      let (f, g) = has-add addr_dec ip a set.ips in
      (
        λ h. elim h [
          | inl k ↦ elim (f k) [
            | inl p ↦ inr (inl (subst (λ x. u.parse_addr s ≡ some x) (sym p) e))
            | inr m ↦ inl (inl m)
          ]
          | inr n ↦ inl (inr n)
        ],
        λ h. elim h [
          | inl k ↦ elim k [ inl m ↦ inl (g (inr m)) | inr n ↦ inr n ]
          | inr k ↦ elim k [
            | inl p ↦ inl (g (inl (some-injective _ _ (sym p ∙ e))))
            | inr (n, q, r, c) ↦ absurd (cc)
          ]
        ],
      ),
  λ id. (λ h. inl h, λ h. elim h [ inl k ↦ k | inr k ↦ absurd (let (x, y, z) = k in cc) ]),
  grind (arith, add-not_empty addr_dec a set.ips),
)

add_net :
    (u : Parsers) (s : Text) (set : ClientSet) (m : Prefix)
    → u.parse_addr s ≡ none
    → u.parse_prefix s ≡ some m
    → Added u s set (record set { nets = set.nets ++ m ∷ [] })
unfolding IsAddrOf IsIdOf
add_net u s set m e q = (
  λ ip.
      let (f, g) = InNets-add set.nets m ip in
      (
        λ h. elim h [
          | inl k ↦ inl (inl k)
          | inr k ↦ elim (f k) [ inl a ↦ inl (inr a) | inr c ↦ inr (inr (m, e, q, c)) ]
        ],
        λ h. elim h [
          | inl k ↦ elim k [ inl a ↦ inl a | inr b ↦ inr (g (inl b)) ]
          | inr k ↦ elim k [
            | inl p ↦ absurd (cc)
            | inr (n, a, r, c) ↦
                let d : n ≡ m = some-injective _ _ (sym r ∙ q) in
                inr (g (inr (subst (λ x. contains x (without_zone ip) ≡ true) d c)))
          ]
        ],
      ),
  λ id. (λ h. inl h, λ h. elim h [ inl k ↦ k | inr k ↦ absurd (let (x, y, z) = k in cc) ]),
  grind (arith, append-not_empty set.nets m),
)

add_id :
    (u : Parsers) (s : Text) (set : ClientSet)
    → u.parse_addr s ≡ none
    → u.parse_prefix s ≡ none
    → Added u s set (record set { client_ids = add text_dec s set.client_ids })
unfolding IsAddrOf IsIdOf
add_id u s set e q = (
  λ ip. (
    λ h. inl h,
    λ h. elim h [
      | inl k ↦ k
      | inr k ↦ elim k [ inl p ↦ absurd (cc) | inr (n, a, r, c) ↦ absurd (cc) ]
    ],
  ),
  λ id.
      let (f, g) = has-add text_dec id s set.client_ids in
      (
        λ h. elim (f h) [ inl p ↦ inr (e, q, p) | inr m ↦ inl m ],
        λ h. elim h [ inl m ↦ g (inr m) | inr k ↦ let (x, y, p) = k in g (inl p) ],
      ),
  grind (arith, add-not_empty text_dec s set.client_ids),
)

pub process_client-Added :
    (u : Parsers) (s : Text) (set set' : ClientSet)
    → process_client u s set ≡ some set'
    → Added u s set set'
unfolding process_client
process_client-Added u s set set' h = elim (Option-cases (u.parse_addr s)) [
  | inr (a, e) ↦ subst (Added u s set) (grind arith) (add_ip u s set a e)
  | inl e ↦ elim (Option-cases (u.parse_prefix s)) [
    | inr (m, q) ↦ subst (Added u s set) (grind arith) (add_net u s set m e q)
    | inl q ↦ subst (Added u s set) (grind arith) (add_id u s set e q)
  ]
]
