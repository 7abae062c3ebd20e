-- ===== src/Filtering/Rewrites/Matching.antt =====
-- internal/filtering/rewrites.go: which entries are found for a host and a type.
pub use gdns_server.Base.Sets.{Mem}
use gdns_server.Base.{
  ℕ, zero, suc, ◌+◌, ◌-◌, ◌≡◌, refl, sym, subst, ap, ◌∙◌, ◌++◌, drop, length-append, arith, ◌↔◌,
  ◌⊎◌, inl, inr, true, List, [], ◌∷◌, length, take, All, ◌==◌, Bool-cases,
}
use Prim.Native.Nat.{max}
use mathlib.Core.Path.{ap₂}
use gdns_server.Base.Dict.{Text, text_dec}
use gdns_server.Net.{Addr.invalid}
use gdns_server.Filtering.Rewrites.{
  LegacyRewrite, matches, matches_qtype, collect, cut, is_wildcard, finalize_rewrites,
  find_rewrites, has_suffix, match_domain_wildcard, type_a, type_aaaa, type_cname,
}

pub All-Mem : {A : Type 0} (P : A → Type 0) (xs : List A) → All P xs → (x : A) → Mem x xs → P x
All-Mem P [] h x m = elim m [ ]
All-Mem P (y ∷ ys) h x (inl e) = subst P (sym e) h.0
All-Mem P (y ∷ ys) h x (inr m) = All-Mem P ys h.1 x m

pub Mem-All : {A : Type 0} (P : A → Type 0) (xs : List A) → ((x : A) → Mem x xs → P x) → All P xs
Mem-All P [] h = tt
Mem-All P (y ∷ ys) h = (h y (inl refl), Mem-All P ys (λ x m. h x (inr m)))

All-take {ℓ κ} : {A : Type ℓ} (P : A → Type κ) (n : ℕ) (xs : List A) → All P xs → All P (take n xs)
All-take P zero xs h = tt
All-take P (suc n) [] h = tt
All-take P (suc n) (x ∷ xs) h = (h.0, All-take P n xs h.1)

-- What is relied on of `slices.SortFunc`: the same elements.
abbrev pub KeepsElements : (List LegacyRewrite → List LegacyRewrite) → Type 0
KeepsElements sort = (l : List LegacyRewrite) (x : LegacyRewrite) → Mem x (sort l) ↔ Mem x l

-- The host is a name under the domain of the wildcard `*.domain`.
abbrev pub Under : Text → Text → Type 0
Under host pattern =
    (name : Text) × (domain : Text) × (pattern ≡ b'*' ∷ b'.' ∷ domain)
    × (host ≡ name ++ b'.' ∷ domain)

-- CNAME records fit each type of question, and address records the questions for addresses of their
-- type, or for all addresses where the address is the invalid one.
abbrev pub FitsType : ℕ → LegacyRewrite → Type 0
FitsType qtype e =
    (e.rr_type ≡ type_cname)
    ⊎ (((qtype ≡ type_a) ⊎ (qtype ≡ type_aaaa)) × ((e.rr_type ≡ qtype) ⊎ (e.ip ≡ invalid)))

-- `e` is an entry that is enabled, whose pattern is the host or a wildcard above it, and whose type
-- fits the question.
abbrev pub Fits : List LegacyRewrite → Text → ℕ → LegacyRewrite → Type 0
Fits entries host qtype e =
    Mem e entries
    × (e.enabled ≡ true)
    × ((e.domain ≡ host) ⊎ Under host e.domain)
    × FitsType qtype e

drop-append : (p s : Text) → drop (length (p ++ s) - length s) (p ++ s) ≡ s
drop-append p s = subst (λ n. drop n (p ++ s) ≡ s) (omega (arith, length-append p s)) (drop_all p)
  where
    drop_all : (p : Text) → drop (length p) (p ++ s) ≡ s
    drop_all [] = refl
    drop_all (x ∷ p) = drop_all p

take-drop : (n : ℕ) (s : Text) → take n s ++ drop n s ≡ s
take-drop zero s = refl
take-drop (suc n) [] = refl
take-drop (suc n) (x ∷ s) = ap (λ l. x ∷ l) (take-drop n s)

has_suffix-append : (p s : Text) → has_suffix (p ++ s) s ≡ true
unfolding has_suffix
has_suffix-append p s = grind (arith, drop-append p s, length-append p s)

has_suffix-split : (h s : Text) → has_suffix h s ≡ true → h ≡ take (length h - length s) h ++ s
unfolding has_suffix
has_suffix-split h s e =
    let same : drop (length h - length s) h ≡ s = grind arith in
    sym (take-drop (length h - length s) h) ∙ ap (λ l. take (length h - length s) h ++ l) same

match_domain_wildcard-Under :
    (host pattern : Text) → match_domain_wildcard host pattern ≡ true → Under host pattern
unfolding match_domain_wildcard is_wildcard
match_domain_wildcard-Under host [] h = absurd (grind arith)
match_domain_wildcard-Under host (a ∷ []) h = absurd (grind arith)
match_domain_wildcard-Under host (a ∷ b ∷ domain) h =
    let star : a ≡ b'*' = grind arith in
    let dot : b ≡ b'.' = grind arith in
    let s : has_suffix host (b ∷ domain) ≡ true = grind arith in
    (
      take (length host - length (b ∷ domain)) host,
      domain,
      ap₂ (λ x y. x ∷ y ∷ domain) star dot,
      has_suffix-split host (b ∷ domain) s
          ∙ ap (λ y. take (length host - length (b ∷ domain)) host ++ y ∷ domain) dot,
    )

Under-match_domain_wildcard :
    (host pattern : Text) → Under host pattern → match_domain_wildcard host pattern ≡ true
unfolding match_domain_wildcard is_wildcard
Under-match_domain_wildcard host pattern (name, domain, p, h) =
    subst (λ x. match_domain_wildcard host x ≡ true) (sym p)
      (subst (λ x. match_domain_wildcard x (b'*' ∷ b'.' ∷ domain) ≡ true) (sym h)
        (has_suffix-append name (b'.' ∷ domain)))

-- What the code tests is what `Fits` says.
matches_iff :
    (host : Text) (e : LegacyRewrite)
    → (matches host e ≡ true) ↔ ((e.enabled ≡ true) × ((e.domain ≡ host) ⊎ Under host e.domain))
unfolding matches
matches_iff host e = (
  λ h. (
    grind arith,
    elim (text_dec e.domain host) [
      | yes p ↦ inl p
      | no n ↦ inr (match_domain_wildcard-Under host e.domain (grind (arith, n)))
    ],
  ),
  λ (on, o). elim o [
    | inl p ↦ grind (arith, p, on)
    | inr w ↦ grind (arith, on, Under-match_domain_wildcard host e.domain w)
  ],
)

matches_qtype_iff :
    (qtype : ℕ) (e : LegacyRewrite) → (matches_qtype e qtype ≡ true) ↔ FitsType qtype e
unfolding matches_qtype
matches_qtype_iff qtype e = (λ h. grind arith, λ h. grind arith)

pub collect-Fits :
    (entries es : List LegacyRewrite) (host : Text) (qtype : ℕ)
    → ((x : LegacyRewrite) → Mem x es → Mem x entries)
    → All (Fits entries host qtype) (collect es host qtype).0
unfolding collect
collect-Fits entries [] host qtype h = tt
collect-Fits entries (e ∷ es) host qtype h =
    let ih = collect-Fits entries es host qtype (λ x m. h x (inr m)) in
    elim (Bool-cases (matches host e)) [
      | inr f ↦ rw (collect, f) ih
      | inl f ↦ elim (Bool-cases (matches_qtype e qtype)) [
        | inr g ↦ rw (collect, f, g) ih
        | inl g ↦
            let (on, p) = (matches_iff host e).0 f in
            rw (collect, f, g) ((h e (inl refl), on, p, (matches_qtype_iff qtype e).0 g), ih)
      ]
    ]

pub collect-Mem :
    (es : List LegacyRewrite) (host : Text) (qtype : ℕ) (e : LegacyRewrite)
    → Fits es host qtype e
    → Mem e (collect es host qtype).0
unfolding collect
collect-Mem [] host qtype e (m, f, g, k) = elim m [ ]
collect-Mem (x ∷ es) host qtype e (inl p, on, d, g) =
    let f' = subst (λ y. matches host y ≡ true) p ((matches_iff host e).1 (on, d)) in
    let g' = subst (λ y. matches_qtype y qtype ≡ true) p ((matches_qtype_iff qtype e).1 g) in
    rw (collect, f', g') (inl p)
collect-Mem (x ∷ es) host qtype e (inr m, f, g, k) =
    let ih = collect-Mem es host qtype e (m, f, g, k) in
    elim (Bool-cases (matches host x)) [
      | inr h ↦ rw (collect, h) ih
      | inl h ↦ elim (Bool-cases (matches_qtype x qtype)) [
        | inr k ↦ rw (collect, h, k) ih
        | inl k ↦ rw (collect, h, k) (inr ih)
      ]
    ]

cut-All :
    (P : LegacyRewrite → Type 0) (i : ℕ) (all xs : List LegacyRewrite)
    → All P all
    → All P (cut i all xs)
unfolding cut
cut-All P i all [] h = h
cut-All P i all (r ∷ rs) h = elim (Bool-cases (is_wildcard r.domain)) [
  | inl e ↦ rw (cut, e) (All-take P (max 1 i) all h)
  | inr e ↦ rw (cut, e) (cut-All P (i + 1) all rs h)
]

module _ (sort : List LegacyRewrite → List LegacyRewrite) (keeps : KeepsElements sort) where
  -- Each entry that is found is enabled and fits the host and the type.
  pub find_rewrites-Fits :
      (entries : List LegacyRewrite) (host : Text) (qtype : ℕ)
      → All (Fits entries host qtype) (find_rewrites sort entries host qtype).0
  unfolding find_rewrites finalize_rewrites
  find_rewrites-Fits entries host qtype =
      let found = (collect entries host qtype).0 in
      let f = collect-Fits entries entries host qtype (λ x m. m) in
      let s =
        Mem-All (Fits entries host qtype) (sort found)
          (λ x m. All-Mem (Fits entries host qtype) found f x ((keeps found x).0 m)) in
      elim (Bool-cases (length found == 0)) [
        | inl e ↦ rw (find_rewrites, e) tt
        | inr e ↦
            rw (find_rewrites, e) (cut-All (Fits entries host qtype) 0 (sort found) (sort found) s)
      ]
