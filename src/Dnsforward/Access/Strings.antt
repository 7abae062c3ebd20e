-- ===== src/Dnsforward/Access/Strings.antt =====
-- internal/dnsforward/access.go, `processAccessClients`: what a whole list of strings adds.
use gdns_server.Base.{
  ℕ, suc, ◌+◌, ◌≡◌, refl, subst, ◌⊎◌, inl, inr, ◌↔◌, true, false, none, some, List, [], ◌∷◌,
  get_elem?, Option-cases, arith,
}
use gdns_server.Base.Dict.{Text, text_dec}
use gdns_server.Base.Sets.{Mem, has}
use gdns_server.Net.{Addr}
use gdns_server.Dnsforward.{Parsers}
use gdns_server.Dnsforward.Access.{
  ClientSet, processed, bad_at, process_client, process_access_clients,
}
use gdns_server.Dnsforward.Access.Lists.{
  Covered, IsAddrOf, IsIdOf, is_empty_set, process_client-Added,
}

-- One of the strings fits.
abbrev pub Any : (Text → Type 0) → List Text → Type 0
Any P strs = (s : Text) × Mem s strs × P s

either_of : {A B C D E : Type 0} → A ↔ (B ⊎ C) → B ↔ (D ⊎ E) → A ↔ (D ⊎ (E ⊎ C))
either_of (f, g) (h, k) = (
  λ a. elim (f a) [
    | inl b ↦ elim (h b) [ inl d ↦ inl d | inr e ↦ inr (inl e) ]
    | inr c ↦ inr (inr c)
  ],
  λ x. elim x [
    | inl d ↦ g (inl (k (inl d)))
    | inr y ↦ elim y [ inl e ↦ g (inl (k (inr e))) | inr c ↦ g (inr c) ]
  ],
)

Any-cons : {P : Text → Type 0} (s : Text) (strs : List Text) → (P s ⊎ Any P strs) ↔ Any P (s ∷ strs)
Any-cons {P} s strs = (
  λ h. elim h [ inl p ↦ (s, inl refl, p) | inr a ↦ let (t, m, p) = a in (t, inr m, p) ],
  λ a. let (t, m, p) = a in elim m [ inl e ↦ inl (subst P e p) | inr k ↦ inr (t, k, p) ],
)

Any-nil : {A : Type 0} {P : Text → Type 0} → A ↔ (A ⊎ Any P [])
Any-nil = (λ a. inl a, λ h. elim h [ inl a ↦ a | inr b ↦ let (t, m, p) = b in elim m [ ] ])

through :
    {A B : Type 0} {P : Text → Type 0} (s : Text) (strs : List Text)
    → A ↔ (B ⊎ (P s ⊎ Any P strs))
    → A ↔ (B ⊎ Any P (s ∷ strs))
through s strs (f, g) =
    let (h, k) = Any-cons s strs in
    (
      λ a. elim (f a) [ inl b ↦ inl b | inr c ↦ inr (h c) ],
      λ x. elim x [ inl b ↦ g (inl b) | inr c ↦ g (inr (k c)) ],
    )

-- What a list of strings adds to a set.
abbrev pub AddedAll : Parsers → List Text → ClientSet → ClientSet → Type 0
AddedAll u strs set out =
    ((ip : Addr) → Covered out ip ↔ (Covered set ip ⊎ Any (IsAddrOf u ip) strs))
    × ((id : Text)
        → (has text_dec id out.client_ids ≡ true)
          ↔ ((has text_dec id set.client_ids ≡ true) ⊎ Any (IsIdOf u id) strs))
    × (is_empty_set set ≡ false → is_empty_set out ≡ false)

pub process-AddedAll :
    (u : Parsers) (i : ℕ) (strs : List Text) (set out : ClientSet)
    → process_access_clients u i strs set ≡ processed out
    → AddedAll u strs set out
unfolding process_access_clients
process-AddedAll u i [] set out h =
    let e : set ≡ out = cc in subst (AddedAll u [] set) e (λ ip. Any-nil, λ id. Any-nil, λ k. k)
process-AddedAll u i (s ∷ strs) set out h = elim (Option-cases (process_client u s set)) [
  | inl e ↦ absurd (grind arith)
  | inr (set', e) ↦
      let (a, b, n) = process_client-Added u s set set' e in
      let (f, g, m) = process-AddedAll u (i + 1) strs set' out (grind arith) in
      (
        λ ip. through s strs (either_of (f ip) (a ip)),
        λ id. through s strs (either_of (g id) (b id)),
        λ k. m n,
      )
]

-- A list that is not empty does not leave a set empty.
pub process-not_empty :
    (u : Parsers) (i : ℕ) (s : Text) (strs : List Text) (set out : ClientSet)
    → process_access_clients u i (s ∷ strs) set ≡ processed out
    → is_empty_set out ≡ false
unfolding process_access_clients
process-not_empty u i s strs set out h = elim (Option-cases (process_client u s set)) [
  | inl e ↦ absurd (grind arith)
  | inr (set', e) ↦
      (process-AddedAll u (i + 1) strs set' out (grind arith)).2
        (process_client-Added u s set set' e).2
]

-- A string that is neither an address, nor a prefix, nor a ClientID.
abbrev IsBad : Parsers → Text → Type 0
IsBad u s = (u.parse_addr s ≡ none) × (u.parse_prefix s ≡ none) × (u.is_hostname_label s ≡ false)

client-IsBad :
    (u : Parsers) (s : Text) (set : ClientSet) → process_client u s set ≡ none → IsBad u s
unfolding process_client
client-IsBad u s set h = (grind arith, grind arith, grind arith)

-- The error of a list has the index of a bad string, counted from `i`.
process-bad_at :
    (u : Parsers) (i k : ℕ) (strs : List Text) (set : ClientSet)
    → process_access_clients u i strs set ≡ bad_at k
    → (j : ℕ) × (s : Text) × (k ≡ i + j) × (get_elem? strs j ≡ some s) × IsBad u s
unfolding process_access_clients
process-bad_at u i k [] set h = cc
process-bad_at u i k (s ∷ strs) set h = elim (Option-cases (process_client u s set)) [
  | inl e ↦ (0, s, grind arith, refl, client-IsBad u s set e)
  | inr (set', e) ↦
      let (j, t, q, g, b) = process-bad_at u (i + 1) k strs set' (grind arith) in
      (suc j, t, omega (arith, q), g, b)
]
