-- ===== src/SortedMap.antt =====
-- internal/aghalg/sortedmap.go: a map with its keys in order. Of a sorted slice
-- `slices.BinarySearchFunc` gives the first index whose key is not below the one sought, and
-- whether the two are equal: that is what the walks over the keys do here.
pub mod Order
pub mod Ranges
use Prim.Native.Nat.{Ordering}
use gdns_server.Base.{Option, none, some, List, [], ◌∷◌, Bool, if◌then◌else◌}
use gdns_server.Base.Dict.{Dict, get, put, delete}

pub record SortedMap {ℓ} (K V : Type ℓ) : Type ℓ where
  pub vals : Dict K V
  pub keys : List K

module _ {ℓ} {K : Type ℓ} (cmp : K → K → Ordering) where
  -- `m.keys[i] = key` where the key is found, else `slices.Insert(m.keys, i, key)`.
  unfoldable pub insert_key : K → List K → List K
  insert_key k [] = k ∷ []
  insert_key k (j ∷ js) = elim (cmp j k) [
    | Ordering.lt ↦ j ∷ insert_key k js
    | Ordering.eq ↦ k ∷ js
    | Ordering.gt ↦ k ∷ j ∷ js
  ]

  -- `slices.Delete(m.keys, i, i+1)`, whether or not the key at `i` is the one sought.
  unfoldable pub delete_key : K → List K → List K
  delete_key k [] = []
  delete_key k (j ∷ js) = elim (cmp j k) [
    | Ordering.lt ↦ j ∷ delete_key k js
    | Ordering.eq ↦ js
    | Ordering.gt ↦ js
  ]

module _ {ℓ} {K V : Type ℓ} (dec : Discrete K) (cmp : K → K → Ordering) where
  unfoldable pub set : K → V → SortedMap K V → SortedMap K V
  unfolding insert_key
  set k v m = record { vals = put dec k v m.vals; keys = insert_key cmp k m.keys }

  unfoldable pub del : K → SortedMap K V → SortedMap K V
  unfolding delete_key
  del k m = elim (get dec k m.vals) [
    | none ↦ m
    | some v ↦ record { vals = delete dec k m.vals; keys = delete_key cmp k m.keys }
  ]

module _ {ℓ} {K : Type ℓ} where
  unfoldable pub first_of_keys : (K → Bool) → List K → Option K
  first_of_keys p [] = none
  first_of_keys p (k ∷ ks) = let rest = first_of_keys p ks in if p k then some k else rest

module _ {ℓ} {K V : Type ℓ} (dec : Discrete K) where
  -- `Range` with a callback that stops at the first key that passes a test: the value there.
  unfoldable pub range_first : (K → Bool) → SortedMap K V → Option V
  unfolding first_of_keys
  range_first p m = elim (first_of_keys p m.keys) [ none ↦ none | some k ↦ get dec k m.vals ]
