-- ===== src/Base/Dict.antt =====
-- Go's maps as association lists with decidable keys: a lookup, an assignment, `delete`, and a
-- `range` loop that deletes. Keys are distinct, which `put` and the deletions keep.
use Prim.Native.Nat.{ℕ}
use mathlib.Core.Path.{◌≡◌, refl, ap₂}
use mathlib.Core.Logic.{ite, ◌≢◌}
use mathlib.Core.List.{List, [], ◌∷◌}
use mathlib.Core.Option.{Option, none, some}
use native.Mathlib.Decide.{ℕ_discrete}
use native.Mathlib.Omega.{arith}

abbrev pub Dict {ℓ} : Type ℓ → Type ℓ → Type ℓ
Dict K V = List (K × V)

-- A Go string, as its bytes.
abbrev pub Text : Type 0
Text = List ℕ

module _ {ℓ} {A : Type ℓ} (dec : Discrete A) where
  cons_dec : (x y : A) (xs ys : List A) → Dec (x ≡ y) → Dec (xs ≡ ys) → Dec ((x ∷ xs) ≡ (y ∷ ys))
  cons_dec x y xs ys (yes p) (yes q) = yes (ap₂ ◌∷◌ p q)
  cons_dec x y xs ys (yes p) (no q) = no (λ e. q (cc))
  cons_dec x y xs ys (no p) d = no (λ e. p (cc))

  -- Equality of lists, element by element, in a form that evaluates.
  unfoldable pub list_dec : Discrete (List A)
  unfolding cons_dec
  list_dec [] [] = yes refl
  list_dec [] (y ∷ ys) = no (λ e. cc)
  list_dec (x ∷ xs) [] = no (λ e. cc)
  list_dec (x ∷ xs) (y ∷ ys) = cons_dec x y xs ys (dec x y) (list_dec xs ys)

unfoldable pub text_dec : Discrete Text
unfolding list_dec ℕ_discrete
text_dec = list_dec ℕ_discrete

module _ {ℓ} {K V : Type ℓ} (dec : Discrete K) where
  unfoldable pub get : K → Dict K V → Option V
  get k [] = none
  get k ((j, v) ∷ m) = ite (dec j k) (some v) (get k m)

  -- `delete(m, k)`
  unfoldable pub delete : K → Dict K V → Dict K V
  delete k [] = []
  delete k ((j, v) ∷ m) = let rest = delete k m in ite (dec j k) rest ((j, v) ∷ rest)

  -- `m[k] = v`
  unfoldable pub put : K → V → Dict K V → Dict K V
  put k v m = (k, v) ∷ delete k m

  pub get-delete : (k j : K) (m : Dict K V) → get j (delete k m) ≡ ite (dec k j) none (get j m)
  unfolding get delete
  get-delete k j [] = ground arith
  get-delete k j ((i, v) ∷ m) = ground (arith, get-delete k j m)

  pub get-put :
      (k j : K) (v : V) (m : Dict K V) → get j (put k v m) ≡ ite (dec k j) (some v) (get j m)
  unfolding get put
  get-put k j v m = ground (arith, get-delete k j m)

  pub get-put_self : (k : K) (v : V) (m : Dict K V) → get k (put k v m) ≡ some v
  get-put_self k v m = ground (arith, get-put k k v m)

  pub get-put_ne : {k j : K} (v : V) (m : Dict K V) → k ≢ j → get j (put k v m) ≡ get j m
  get-put_ne {k} {j} v m h = ground (arith, get-put k j v m)

  pub get-delete_self : (k : K) (m : Dict K V) → get k (delete k m) ≡ none
  get-delete_self k m = ground (arith, get-delete k k m)

  pub get-delete_ne : {k j : K} (m : Dict K V) → k ≢ j → get j (delete k m) ≡ get j m
  get-delete_ne {k} {j} m h = ground (arith, get-delete k j m)
