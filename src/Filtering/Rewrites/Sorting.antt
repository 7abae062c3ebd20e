-- ===== src/Filtering/Rewrites/Sorting.antt =====
-- internal/filtering/rewrites.go, `Compare`: an order of ranks and lengths, for which sorting by
-- insertion does what is relied on of `slices.SortFunc`.
use gdns_server.Base.{
  ℕ, ◌+◌, ◌≤◌, ◌<◌, ◌≡◌, refl, sym, subst, ◌⊎◌, inl, inr, ◌↔◌, Bool, true, false, if◌then◌else◌,
  List, [], ◌∷◌, length, ◌==◌, All-map, Bool-cases, arith,
}
use gdns_server.Base.Int.{ℤ, pos, negsuc, ◌≤ℤ◌}
use gdns_server.Filtering.Rewrites.{LegacyRewrite, compare_rewrites, is_wildcard, type_cname}
use gdns_server.Filtering.Rewrites.Matching.{Mem, All-Mem, Mem-All, KeepsElements}
use gdns_server.Filtering.Rewrites.Order.{IsAscending}
use gdns_server.Filtering.Rewrites.Priority.{IsSort}

-- CNAME records first, and exact patterns before wildcards.
rank : LegacyRewrite → ℕ
rank r = (if r.rr_type == type_cname then 0 else 2) + (if is_wildcard r.domain then 1 else 0)

abbrev Before : LegacyRewrite → LegacyRewrite → Type 0
Before x y = (rank x < rank y) ⊎ ((rank x ≡ rank y) × (length y.domain ≤ length x.domain))

-- `Compare` goes by the rank, and longer patterns come first among equals.
compare-Before : (x y : LegacyRewrite) → (compare_rewrites x y ≤ℤ pos 0) ↔ Before x y
unfolding compare_rewrites rank
compare-Before x y = (λ h. grind arith, λ h. grind arith)

Before-total : (x y : LegacyRewrite) → Before x y ⊎ Before y x
Before-total x y = omega arith

Before-trans : (x y z : LegacyRewrite) → Before x y → Before y z → Before x z
Before-trans x y z h k = omega arith

leb_0 : ℤ → Bool
leb_0 (pos n) = n == 0
leb_0 (negsuc n) = true

insert : LegacyRewrite → List LegacyRewrite → List LegacyRewrite
unfolding leb_0
insert x [] = x ∷ []
insert x (y ∷ ys) =
    let rest = insert x ys in if leb_0 (compare_rewrites x y) then x ∷ y ∷ ys else y ∷ rest

unfoldable pub insertion_sort : List LegacyRewrite → List LegacyRewrite
unfolding insert
insertion_sort [] = []
insertion_sort (x ∷ xs) = insert x (insertion_sort xs)

leb_0_iff : (n : ℤ) → (leb_0 n ≡ true) ↔ (n ≤ℤ pos 0)
unfolding leb_0
leb_0_iff (pos n) = (λ h. ground arith, λ h. ground arith)
leb_0_iff (negsuc n) = (λ h. omega arith, λ h. refl)

insert-Mem :
    (x z : LegacyRewrite) (l : List LegacyRewrite) → Mem z (insert x l) ↔ ((z ≡ x) ⊎ Mem z l)
unfolding insert
insert-Mem x z [] = (λ h. h, λ h. h)
insert-Mem x z (y ∷ ys) =
    let (f, g) = insert-Mem x z ys in
    elim (Bool-cases (leb_0 (compare_rewrites x y))) [
      | inl e ↦ rw (insert, e) (λ h. h, λ h. h)
      | inr e ↦
          rw (insert, e)
            (
              λ h. elim h [
                | inl p ↦ inr (inl p)
                | inr m ↦ elim (f m) [ inl p ↦ inl p | inr n ↦ inr (inr n) ]
              ],
              λ h. elim h [
                | inl p ↦ inr (g (inl p))
                | inr m ↦ elim m [ inl p ↦ inl p | inr n ↦ inr (g (inr n)) ]
              ],
            )
    ]

pub sort-keeps : KeepsElements insertion_sort
unfolding insertion_sort
sort-keeps [] z = (λ h. h, λ h. h)
sort-keeps (x ∷ xs) z =
    let (f, g) = insert-Mem x z (insertion_sort xs) in
    let (h, k) = sort-keeps xs z in
    (
      λ m. elim (f m) [ inl p ↦ inl p | inr n ↦ inr (h n) ],
      λ m. elim m [ inl p ↦ g (inl p) | inr n ↦ g (inr (k n)) ],
    )

abbrev AtMost : LegacyRewrite → LegacyRewrite → Type 0
AtMost x y = compare_rewrites x y ≤ℤ pos 0

AtMost-trans : (x y z : LegacyRewrite) → AtMost x y → AtMost y z → AtMost x z
AtMost-trans x y z h k =
    (compare-Before x z).1
      (Before-trans x y z ((compare-Before x y).0 h) ((compare-Before y z).0 k))

AtMost-other : (x y : LegacyRewrite) → leb_0 (compare_rewrites x y) ≡ false → AtMost y x
AtMost-other x y h = elim (Before-total x y) [
  | inl b ↦ absurd (grind (arith, (leb_0_iff (compare_rewrites x y)).1 ((compare-Before x y).1 b)))
  | inr b ↦ (compare-Before y x).1 b
]

insert-IsAscending :
    (x : LegacyRewrite) (l : List LegacyRewrite) → IsAscending l → IsAscending (insert x l)
unfolding insert
insert-IsAscending x [] h = (tt, tt)
insert-IsAscending x (y ∷ ys) h = elim (Bool-cases (leb_0 (compare_rewrites x y))) [
  | inl e ↦
      let a = (leb_0_iff (compare_rewrites x y)).0 e in
      rw (insert, e) ((a, All-map _ _ ys h.0 (λ z k. AtMost-trans x y z a k)), h)
  | inr e ↦
      rw (insert, e)
        (
          Mem-All (AtMost y) (insert x ys) (λ z m. elim ((insert-Mem x z ys).0 m) [
            | inl p ↦ subst (AtMost y) (sym p) (AtMost-other x y e)
            | inr n ↦ All-Mem (AtMost y) ys h.0 z n
          ]),
          insert-IsAscending x ys h.1,
        )
]

sort-ascends : (l : List LegacyRewrite) → IsAscending (insertion_sort l)
unfolding insertion_sort
sort-ascends [] = tt
sort-ascends (x ∷ xs) = insert-IsAscending x (insertion_sort xs) (sort-ascends xs)

pub insertion_sort-IsSort : IsSort insertion_sort
insertion_sort-IsSort = record { keeps = sort-keeps; ascends = sort-ascends }
