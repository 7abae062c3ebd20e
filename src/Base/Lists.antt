-- ===== src/Base/Lists.antt =====
-- Lists measured and indexed by native numbers, under the library's names.
use Prim.Native.Nat.{ℕ, zero, suc, ◌+◌, ◌-◌, ◌<◌, min}
use mathlib.Core.Path.{◌≡◌, refl, ap, sym, subst}
use mathlib.Core.Logic.{◌≢◌}
use mathlib.Core.List.{List, [], ◌∷◌, ◌++◌, map}
use mathlib.Core.Option.{Option, none, some, some-injective}
use native.Mathlib.Omega.{arith}

module _ {ℓ} {A : Type ℓ} where
  abbrev pub length : List A → ℕ
  length [] = 0
  length (x ∷ xs) = suc (length xs)

  abbrev pub get_elem? : List A → ℕ → Option A
  get_elem? [] i = none
  get_elem? (x ∷ xs) zero = some x
  get_elem? (x ∷ xs) (suc i) = get_elem? xs i

  -- A write out of bounds changes nothing.
  abbrev pub set : List A → ℕ → A → List A
  set [] i v = []
  set (x ∷ xs) zero v = v ∷ xs
  set (x ∷ xs) (suc i) v = x ∷ set xs i v

  pub length-append : (xs ys : List A) → length (xs ++ ys) ≡ length xs + length ys
  length-append [] ys = omega arith
  length-append (x ∷ xs) ys = omega (arith, length-append xs ys)

module _ {ℓ} {A : Type ℓ} where
  length-set : (xs : List A) (i : ℕ) (v : A) → length (set xs i v) ≡ length xs
  length-set [] i v = refl
  length-set (x ∷ xs) zero v = refl
  length-set (x ∷ xs) (suc i) v = ap suc (length-set xs i v)

  get_elem?-set_self :
      (xs : List A) (i : ℕ) (v : A) → i < length xs → get_elem? (set xs i v) i ≡ some v
  get_elem?-set_self [] i v h = elim h [ ]
  get_elem?-set_self (x ∷ xs) zero v h = refl
  get_elem?-set_self (x ∷ xs) (suc i) v h = get_elem?-set_self xs i v (omega arith)

  get_elem?-set_ne :
      (xs : List A) {i j : ℕ} (v : A) → i ≢ j → get_elem? (set xs i v) j ≡ get_elem? xs j
  get_elem?-set_ne [] v h = refl
  get_elem?-set_ne (x ∷ xs) {i = zero} {j = zero} v h = absurd (h refl)
  get_elem?-set_ne (x ∷ xs) {i = zero} {j = suc j} v h = refl
  get_elem?-set_ne (x ∷ xs) {i = suc i} {j = zero} v h = refl
  get_elem?-set_ne (x ∷ xs) {i = suc i} {j = suc j} v h = get_elem?-set_ne xs v (λ e. h (ap suc e))

module _ {ℓ} {A : Type ℓ} where
  abbrev pub get_or : List A → ℕ → A → A
  get_or [] i d = d
  get_or (x ∷ xs) zero d = x
  get_or (x ∷ xs) (suc i) d = get_or xs i d

  abbrev pub take : ℕ → List A → List A
  take zero xs = []
  take (suc n) [] = []
  take (suc n) (x ∷ xs) = x ∷ take n xs

  abbrev pub drop : ℕ → List A → List A
  drop zero xs = xs
  drop (suc n) [] = []
  drop (suc n) (x ∷ xs) = drop n xs

  abbrev pub replicate : ℕ → A → List A
  replicate zero a = []
  replicate (suc n) a = a ∷ replicate n a

  take-append-drop : (n : ℕ) (xs : List A) → take n xs ++ drop n xs ≡ xs
  take-append-drop zero xs = refl
  take-append-drop (suc n) [] = refl
  take-append-drop (suc n) (x ∷ xs) = rw (take-append-drop n xs)

  length-take : (n : ℕ) (xs : List A) → length (take n xs) ≡ min n (length xs)
  length-take zero xs = omega arith
  length-take (suc n) [] = omega arith
  length-take (suc n) (x ∷ xs) = omega (arith, length-take n xs)

  length-drop : (n : ℕ) (xs : List A) → length (drop n xs) ≡ length xs - n
  length-drop zero xs = omega arith
  length-drop (suc n) [] = omega arith
  length-drop (suc n) (x ∷ xs) = omega (arith, length-drop n xs)

  length-replicate : (n : ℕ) (a : A) → length (replicate n a) ≡ n
  length-replicate zero a = refl
  length-replicate (suc n) a = ap suc (length-replicate n a)

  length-map {κ} : {B : Type κ} (xs : List A) (f : A → B) → length (map f xs) ≡ length xs
  length-map [] f = refl
  length-map (x ∷ xs) f = ap suc (length-map xs f)

-- A predicate on every element, by recursion, so that it computes to a product.
abbrev pub All {ℓ κ} : {A : Type ℓ} → (A → Type κ) → List A → Type κ
All P [] = Unit
All P (x ∷ xs) = P x × All P xs

-- No element twice.
abbrev pub Distinct {ℓ} : {A : Type ℓ} → List A → Type ℓ
Distinct [] = Unit
Distinct (x ∷ xs) = All (λ y. x ≢ y) xs × Distinct xs

-- `append(xs[:n], xs[n+1:]...)`: the list without its element at `n`.
abbrev pub remove_at {ℓ} : {A : Type ℓ} → List A → ℕ → List A
remove_at [] n = []
remove_at (x ∷ xs) zero = xs
remove_at (x ∷ xs) (suc n) = x ∷ remove_at xs n

module _ {ℓ κ} {A : Type ℓ} (P : A → Type κ) where
  pub All-append : (xs ys : List A) → All P xs → All P ys → All P (xs ++ ys)
  All-append [] ys h k = k
  All-append (x ∷ xs) ys h k = (h.0, All-append xs ys h.1 k)

  pub All-remove_at : (xs : List A) (n : ℕ) → All P xs → All P (remove_at xs n)
  All-remove_at [] n h = tt
  All-remove_at (x ∷ xs) zero h = h.1
  All-remove_at (x ∷ xs) (suc n) h = (h.0, All-remove_at xs n h.1)

  pub All-get_elem? : (xs : List A) (n : ℕ) (x : A) → All P xs → get_elem? xs n ≡ some x → P x
  All-get_elem? [] n x h e = cc
  All-get_elem? (y ∷ xs) zero x h e = subst P (some-injective _ _ e) h.0
  All-get_elem? (y ∷ xs) (suc n) x h e = All-get_elem? xs n x h.1 e

pub All-map {ℓ κ μ} :
    {A : Type ℓ} (P : A → Type κ) (Q : A → Type μ) (xs : List A)
    → All P xs
    → ((x : A) → P x → Q x)
    → All Q xs
All-map P Q [] h f = tt
All-map P Q (x ∷ xs) h f = (f x h.0, All-map P Q xs h.1 f)

pub All-map₂ {ℓ κ μ ν} :
    {A : Type ℓ} (P : A → Type κ) (R : A → Type ν) (Q : A → Type μ) (xs : List A)
    → All P xs
    → All R xs
    → ((x : A) → P x → R x → Q x)
    → All Q xs
All-map₂ P R Q [] h k f = tt
All-map₂ P R Q (x ∷ xs) h k f = (f x h.0 k.0, All-map₂ P R Q xs h.1 k.1 f)

-- Lists with no repetition.
module _ {ℓ} {A : Type ℓ} where
  pub Distinct-append :
      (xs : List A) (y : A) → Distinct xs → All (λ x. x ≢ y) xs → Distinct (xs ++ y ∷ [])
  Distinct-append [] y d h = (tt, tt)
  Distinct-append (x ∷ xs) y d h =
      (All-append (λ z. x ≢ z) xs (y ∷ []) d.0 (h.0, tt), Distinct-append xs y d.1 h.1)

  pub Distinct-remove_at : (xs : List A) (n : ℕ) → Distinct xs → Distinct (remove_at xs n)
  Distinct-remove_at [] n d = tt
  Distinct-remove_at (x ∷ xs) zero d = d.1
  Distinct-remove_at (x ∷ xs) (suc n) d =
      (All-remove_at (λ y. x ≢ y) xs n d.0, Distinct-remove_at xs n d.1)

  -- What is left differs from what was taken out.
  pub remove_at-ne :
      (xs : List A) (n : ℕ) (x : A)
      → Distinct xs
      → get_elem? xs n ≡ some x
      → All (λ y. x ≢ y) (remove_at xs n)
  remove_at-ne [] n x d e = tt
  remove_at-ne (y ∷ xs) zero x d e = subst (λ z. All (λ w. z ≢ w) xs) (some-injective _ _ e) d.0
  remove_at-ne (y ∷ xs) (suc n) x d e =
      ((λ q. All-get_elem? (λ w. y ≢ w) xs n x d.0 e (sym q)), remove_at-ne xs n x d.1 e)
