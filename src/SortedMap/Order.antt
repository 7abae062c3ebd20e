-- ===== src/SortedMap/Order.antt =====
-- The keys of a map of internal/aghalg/sortedmap.go stay sorted and are the keys of its values.
use Prim.Native.Nat.{Ordering}
use gdns_server.Base.{
  ◌≡◌, ◌≢◌, ◌↔◌, refl, sym, ap, List, [], ◌∷◌, Bool, true, false, subst, if_neg, All, All-map,
  arith, ite, inl, inr, ◌⊎◌,
}
use gdns_server.SortedMap.{insert_key, delete_key}

-- What a comparison function must be: a total order whose equality is that of the keys.
pub record IsTotalOrder {ℓ} {K : Type ℓ} (cmp : K → K → Ordering) : Type ℓ where
  pub eq_iff : (a b : K) → (cmp a b ≡ Ordering.eq) ↔ (a ≡ b)
  pub gt_iff : (a b : K) → (cmp a b ≡ Ordering.gt) ↔ (cmp b a ≡ Ordering.lt)
  pub lt_trans : (a b c : K) → cmp a b ≡ Ordering.lt → cmp b c ≡ Ordering.lt → cmp a c ≡ Ordering.lt

module _ {ℓ} {K : Type ℓ} (cmp : K → K → Ordering) where
  abbrev pub Above : K → K → Type 0
  Above a b = cmp a b ≡ Ordering.lt

  abbrev pub Sorted : List K → Type 0
  Sorted [] = Unit
  Sorted (k ∷ ks) = All (Above k) ks × Sorted ks

module _ {ℓ} {K : Type ℓ} (dec : Discrete K) where
  unfoldable pub has : K → List K → Bool
  has k [] = false
  has k (j ∷ js) = let rest = has k js in ite (dec j k) true rest

pub All-has {ℓ κ} :
    {K : Type ℓ} (dec : Discrete K) (P : K → Type κ) (ks : List K) (k : K)
    → All P ks
    → has dec k ks ≡ true
    → P k
unfolding has
All-has dec P [] k a h = cc
All-has dec P (j ∷ js) k a h = elim (dec j k) [
  | yes e ↦ subst P e a.0
  | no ne ↦ All-has dec P js k a.1 (rw (if_neg _ ne) at h)
]

module _ {ℓ} {K : Type ℓ} (dec : Discrete K) (cmp : K → K → Ordering) (o : IsTotalOrder cmp) where
  Ordering-cases : (c : Ordering) → (c ≡ Ordering.lt) ⊎ ((c ≡ Ordering.eq) ⊎ (c ≡ Ordering.gt))
  Ordering-cases Ordering.lt = inl refl
  Ordering-cases Ordering.eq = inr (inl refl)
  Ordering-cases Ordering.gt = inr (inr refl)

  not-Above_self : (k : K) → ¬ Above cmp k k
  not-Above_self k h = ground (arith, (o.eq_iff k k).1 refl)

  has-Above : (k : K) (js : List K) → All (Above cmp k) js → has dec k js ≡ false
  unfolding has
  has-Above k [] h = refl
  has-Above k (j ∷ js) h = elim (dec j k) [
    | yes e ↦ absurd (not-Above_self k (subst (Above cmp k) e h.0))
    | no ne ↦ rw (if_neg _ ne) (has-Above k js h.1)
  ]

  pub has-insert_key :
      (k j : K) (ks : List K) → has dec j (insert_key cmp k ks) ≡ ite (dec k j) true (has dec j ks)
  unfolding has insert_key
  has-insert_key k j [] = ground arith
  has-insert_key k j (i ∷ is) = ground (arith, (o.eq_iff i k).0, has-insert_key k j is)

  Above-insert_key :
      (a k : K) (ks : List K)
      → Above cmp a k
      → All (Above cmp a) ks
      → All (Above cmp a) (insert_key cmp k ks)
  unfolding insert_key
  Above-insert_key a k [] h hs = (h, tt)
  Above-insert_key a k (i ∷ is) h hs = ground (arith, Above-insert_key a k is h hs.1)

  pub Sorted-insert_key : (k : K) (ks : List K) → Sorted cmp ks → Sorted cmp (insert_key cmp k ks)
  unfolding insert_key
  Sorted-insert_key k [] s = (tt, tt)
  Sorted-insert_key k (i ∷ is) s = elim (Ordering-cases (cmp i k)) [
    | inl e ↦ rw (e, insert_key) (Above-insert_key i k is e s.0, Sorted-insert_key k is s.1)
    | inr (inl e) ↦
        rw (e, insert_key) (subst (λ x. All (Above cmp x) is) ((o.eq_iff i k).0 e) s.0, s.1)
    | inr (inr e) ↦
        let below = (o.gt_iff i k).0 e in
        rw (e, insert_key) ((below, All-map _ _ is s.0 (λ x h. o.lt_trans k i x below h)), s)
  ]

  pub has-delete_key :
      (k j : K) (ks : List K)
      → Sorted cmp ks
      → has dec k ks ≡ true
      → has dec j (delete_key cmp k ks) ≡ ite (dec k j) false (has dec j ks)
  unfolding has delete_key
  has-delete_key k j [] s h = cc
  has-delete_key k j (i ∷ is) s h = elim (Ordering-cases (cmp i k)) [
    | inl e ↦
        let ne : i ≢ k = λ q. not-Above_self k (subst (λ x. Above cmp x k) q e) in
        ground (arith, ne, has-delete_key k j is s.1)
    | inr (inl e) ↦
        let same = (o.eq_iff i k).0 e in
        let gone = has-Above k is (subst (λ x. All (Above cmp x) is) same s.0) in
        ground (arith, same, gone, ap (λ x. has dec x is) (sym same))
    | inr (inr e) ↦
        let below = (o.gt_iff i k).0 e in
        let gone = has-Above k is (All-map _ _ is s.0 (λ x q. o.lt_trans k i x below q)) in
        ground (arith, gone, (o.eq_iff i k).1)
  ]

  Above-delete_key :
      (a k : K) (ks : List K) → All (Above cmp a) ks → All (Above cmp a) (delete_key cmp k ks)
  unfolding delete_key
  Above-delete_key a k [] h = tt
  Above-delete_key a k (i ∷ is) h = ground (arith, Above-delete_key a k is h.1)

  pub Sorted-delete_key : (k : K) (ks : List K) → Sorted cmp ks → Sorted cmp (delete_key cmp k ks)
  unfolding delete_key
  Sorted-delete_key k [] s = tt
  Sorted-delete_key k (i ∷ is) s =
      ground (arith, Above-delete_key i k is s.0, Sorted-delete_key k is s.1)
