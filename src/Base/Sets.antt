-- ===== src/Base/Sets.antt =====
-- `container.MapSet` of golibs, as Go's map of its elements: a list, with its test and its addition.
use mathlib.Core.Path.{◌≡◌, refl, sym, subst}
use mathlib.Core.Logic.{◌↔◌, ◌⊎◌, inl, inr, ite}
use mathlib.Core.Bool.{Bool, true, false}
use mathlib.Core.List.{List, [], ◌∷◌, ◌++◌}
use native.Mathlib.Omega.{arith}
use gdns_server.Base.Tests.{if◌then◌else◌, Bool-cases}

abbrev pub Mem : {A : Type 0} → A → List A → Type 0
Mem x [] = ⊥
Mem x (y ∷ ys) = (x ≡ y) ⊎ Mem x ys

-- `len(xs) == 0`
abbrev pub is_empty_list : {A : Type 0} → List A → Bool
is_empty_list [] = true
is_empty_list (x ∷ xs) = false

module _ {A : Type 0} (dec : Discrete A) where
  -- `Has`
  unfoldable pub has : A → List A → Bool
  has x [] = false
  has x (y ∷ ys) = let rest = has x ys in ite (dec y x) true rest

  -- `Add`
  unfoldable pub add : A → List A → List A
  unfolding has
  add x xs = if has x xs then xs else x ∷ xs

  pub has-Mem : (x : A) (xs : List A) → (has x xs ≡ true) ↔ Mem x xs
  unfolding has
  has-Mem x [] = (λ h. cc, λ h. elim h [ ])
  has-Mem x (y ∷ ys) =
      let (f, g) = has-Mem x ys in
      elim (dec y x) [
        | yes p ↦ (λ h. inl (sym p), λ h. ground arith)
        | no n ↦ (
          λ h. inr (f (ground arith)),
          λ h. elim h [ inl e ↦ absurd (n (sym e)) | inr m ↦ ground (arith, (g m)) ],
        )
      ]

  pub has-add : (x y : A) (xs : List A) → (has x (add y xs) ≡ true) ↔ ((x ≡ y) ⊎ (has x xs ≡ true))
  unfolding has add
  has-add x y xs = elim (Bool-cases (has y xs)) [
    | inl h ↦ (
      λ k. inr (ground arith),
      λ k. elim k [
        | inl e ↦ subst (λ z. has z (add y xs) ≡ true) (sym e) (ground arith)
        | inr m ↦ ground arith
      ],
    )
    | inr h ↦ elim (dec y x) [
      | yes p ↦ (λ k. inl (sym p), λ k. ground arith)
      | no n ↦ (
        λ k. inr (ground arith),
        λ k. elim k [ inl e ↦ absurd (n (sym e)) | inr m ↦ ground arith ],
      )
    ]
  ]

  pub add-not_empty : (x : A) (xs : List A) → is_empty_list (add x xs) ≡ false
  unfolding add has
  add-not_empty x [] = refl
  add-not_empty x (y ∷ ys) = ground arith

pub append-not_empty : {A : Type 0} (xs : List A) (x : A) → is_empty_list (xs ++ x ∷ []) ≡ false
append-not_empty [] x = refl
append-not_empty (y ∷ ys) x = refl

-- Membership of the elements of two lists, one after the other.
pub Mem-append : {A : Type 0} (x : A) (xs ys : List A) → Mem x (xs ++ ys) ↔ (Mem x xs ⊎ Mem x ys)
Mem-append x [] ys = (λ m. inr m, λ m. elim m [ inl k ↦ elim k [ ] | inr k ↦ k ])
Mem-append x (y ∷ xs) ys =
    let (f, g) = Mem-append x xs ys in
    (
      λ m. elim m [
        | inl e ↦ inl (inl e)
        | inr k ↦ elim (f k) [ inl a ↦ inl (inr a) | inr b ↦ inr b ]
      ],
      λ m. elim m [
        | inl k ↦ elim k [ inl e ↦ inl e | inr a ↦ inr (g (inl a)) ]
        | inr b ↦ inr (g (inr b))
      ],
    )
