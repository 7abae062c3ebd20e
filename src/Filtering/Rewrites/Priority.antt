-- ===== src/Filtering/Rewrites/Priority.antt =====
-- internal/filtering/rewrites.go: which of the entries that fit a host are answered with.
use gdns_server.Base.{
  ℕ, suc, arith, ◌≡◌, ◌≢◌, refl, sym, subst, ◌⊎◌, inl, inr, true, false, if◌then◌else◌, List, [],
  ◌∷◌, length, All, ◌==◌,
}
use gdns_server.Base.Dict.{Text}
use gdns_server.Base.Int.{pos, ◌≤ℤ◌}
use gdns_server.Filtering.Rewrites.{
  LegacyRewrite, collect, compare_rewrites, is_wildcard, type_cname, cut, finalize_rewrites,
  find_rewrites,
}
use gdns_server.Filtering.Rewrites.Matching.{
  Mem, All-Mem, Mem-All, KeepsElements, Fits, collect-Fits, collect-Mem,
}
use gdns_server.Filtering.Rewrites.Order.{
  IsAscending, IsExact, exact_prefix, exact_prefix-IsExact, cut_all, compare_self, compare_wildcard,
  exact_prefix-Mem, exact_prefix_head, NotBehind, compare-NotBehind,
}

-- What is relied on of `slices.SortFunc`: the same elements, in ascending order.
pub record IsSort (sort : List LegacyRewrite → List LegacyRewrite) : Type 0 where
  pub keeps : KeepsElements sort
  pub ascends : (l : List LegacyRewrite) → IsAscending (sort l)

module _ (sort : List LegacyRewrite → List LegacyRewrite) (s : IsSort sort) where
  -- No entry is found, or the found ones are the first entry in order, a wildcard, alone, or the
  -- exact entries that stand first in order.
  data Shape (c found : List LegacyRewrite) : Type 0 where
    nothing : c ≡ [] → found ≡ [] → Shape c found
    one_wildcard :
        (r : LegacyRewrite) (rs : List LegacyRewrite)
        → sort c ≡ r ∷ rs
        → is_wildcard r.domain ≡ true
        → found ≡ r ∷ []
        → Shape c found
    exact_entries :
        (r : LegacyRewrite) (rs : List LegacyRewrite)
        → sort c ≡ r ∷ rs
        → IsExact r
        → found ≡ exact_prefix (r ∷ rs)
        → Shape c found

  finalize-Shape :
      (x : LegacyRewrite) (xs l : List LegacyRewrite)
      → sort (x ∷ xs) ≡ l
      → Shape (x ∷ xs) (cut 0 l l)
  finalize-Shape x xs [] e = absurd (subst (Mem x) e ((s.keeps (x ∷ xs) x).1 (inl refl)))
  finalize-Shape x xs (r ∷ rs) e = elim (cut_all r rs) [
    | inl (w, q) ↦ one_wildcard r rs e w q
    | inr (w, q) ↦ exact_entries r rs e w q
  ]

  suc_test : (n : ℕ) → (suc n == 0) ≡ false
  suc_test n = ground arith

  Shape-of :
      (c : List LegacyRewrite) → Shape c (if length c == 0 then [] else finalize_rewrites sort c)
  unfolding finalize_rewrites
  Shape-of [] = nothing refl refl
  Shape-of (x ∷ xs) = rw (suc_test (length xs)) (finalize-Shape x xs (sort (x ∷ xs)) refl)

  find_rewrites-Shape :
      (entries : List LegacyRewrite) (host : Text) (qtype : ℕ)
      → Shape (collect entries host qtype).0 (find_rewrites sort entries host qtype).0
  unfolding find_rewrites
  find_rewrites-Shape entries host qtype = Shape-of (collect entries host qtype).0

  order_of_Shape :
      {c found : List LegacyRewrite}
      → Shape c found
      → (found ≡ [] → c ≡ [])
        × ((r : LegacyRewrite) (rest : List LegacyRewrite)
            → found ≡ r ∷ rest
            → ((rs : List LegacyRewrite) × (sort c ≡ r ∷ rs)) × ((rest ≡ []) ⊎ All IsExact found))
  order_of_Shape (nothing n q) = (λ e. n, λ r rest e. cc)
  order_of_Shape (one_wildcard r rs e w q) = (λ f. cc, λ x rest f. ((rs, cc), inl (cc)))
  order_of_Shape (exact_entries r rs e w q) =
      let h = exact_prefix_head r rs w in
      (
        λ f. cc,
        λ x rest f. ((rs, cc), inr (subst (All IsExact) (sym q) (exact_prefix-IsExact (r ∷ rs)))),
      )

  least :
      (c : List LegacyRewrite) (r : LegacyRewrite) (rs : List LegacyRewrite)
      → sort c ≡ r ∷ rs
      → (e : LegacyRewrite) → Mem e c
      → compare_rewrites r e ≤ℤ pos 0
  least c r rs q e m =
      let a = subst IsAscending q (s.ascends c) in
      elim (subst (Mem e) q ((s.keeps c e).1 m)) [
        | inl p ↦ subst (λ x. compare_rewrites r x ≤ℤ pos 0) (sym p) (compare_self r)
        | inr k ↦ All-Mem _ rs a.0 e k
      ]

  IsExact-of_Shape :
      {c found : List LegacyRewrite}
      → Shape c found
      → All (λ r. r.rr_type ≢ type_cname) (sort c)
      → (e : LegacyRewrite) → IsExact e
      → Mem e c
      → All IsExact found × Mem e found
  IsExact-of_Shape (nothing n q) a e x m = absurd (subst (Mem e) n m)
  IsExact-of_Shape {c = c} (one_wildcard r rs p w q) a e x m =
      absurd ((subst (All _) p a).0 (compare_wildcard r e w x (least c r rs p e m)).0)
  IsExact-of_Shape {c = c} (exact_entries r rs p w q) a e x m = (
    subst (All IsExact) (sym q) (exact_prefix-IsExact (r ∷ rs)),
    subst (Mem e) (sym q) (
        exact_prefix-Mem (r ∷ rs) e (subst IsAscending p (s.ascends c)) (subst (All _) p a) x
          (subst (Mem e) p ((s.keeps c e).1 m))),
  )

  -- No entry is found only when no entry fits.
  find_rewrites-none :
      (entries : List LegacyRewrite) (host : Text) (qtype : ℕ) (e : LegacyRewrite)
      → (find_rewrites sort entries host qtype).0 ≡ []
      → ¬ Fits entries host qtype e
  find_rewrites-none entries host qtype e q f =
      let o = order_of_Shape (find_rewrites-Shape entries host qtype) in
      subst (Mem e) (o.0 q) (collect-Mem entries host qtype e f)

  -- With a sort by `Compare`, the first entry that is found is not behind any entry that fits, where
  -- CNAME records come before others, among these exact patterns before wildcards, and among these
  -- longer patterns before shorter ones. It is the only one found, or none of those is a wildcard.
  pub find_rewrites-order :
      (entries : List LegacyRewrite) (host : Text) (qtype : ℕ) (r e : LegacyRewrite)
      (rest : List LegacyRewrite)
      → (find_rewrites sort entries host qtype).0 ≡ r ∷ rest
      → Fits entries host qtype e
      → NotBehind r e × ((rest ≡ []) ⊎ All IsExact (find_rewrites sort entries host qtype).0)
  find_rewrites-order entries host qtype r e rest q f =
      let c = (collect entries host qtype).0 in
      let o = order_of_Shape (find_rewrites-Shape entries host qtype) in
      let ((rs, p), k) = o.1 r rest q in
      (compare-NotBehind r e (least c r rs p e (collect-Mem entries host qtype e f)), k)

  -- With a sort by `Compare`, when no entry that fits is a CNAME record, an exact entry that fits
  -- hides every wildcard: all the entries found are exact, and all the exact entries that fit are
  -- found.
  pub find_rewrites-IsExact :
      (entries : List LegacyRewrite) (host : Text) (qtype : ℕ) (e : LegacyRewrite)
      → ((r : LegacyRewrite) → Fits entries host qtype r → r.rr_type ≢ type_cname)
      → Fits entries host qtype e
      → IsExact e
      → All IsExact (find_rewrites sort entries host qtype).0
        × Mem e (find_rewrites sort entries host qtype).0
  find_rewrites-IsExact entries host qtype e n f x =
      let c = (collect entries host qtype).0 in
      let fits = collect-Fits entries entries host qtype (λ y m. m) in
      IsExact-of_Shape (find_rewrites-Shape entries host qtype)
        (Mem-All _ (sort c) (λ y m. n y (All-Mem _ c fits y ((s.keeps c y).0 m)))) e x
        (collect-Mem entries host qtype e f)
