-- ===== src/SortedMap/Ranges.antt =====
-- What a walk over a sorted map of internal/aghalg/sortedmap.go finds.
use Prim.Native.Nat.{Ordering}
use gdns_server.Base.{
  ◌≡◌, ◌≢◌, sym, ap, ◌∙◌, subst, Option, none, some, List, [], ◌∷◌, Bool, true, false, arith, ite,
  Option-cases, Bool-cases, inl, inr,
}
use gdns_server.Base.Dict.{get, delete, get-put, get-delete}
use gdns_server.SortedMap.{SortedMap, delete_key, set, del, first_of_keys, range_first}
use gdns_server.SortedMap.Order.{
  IsTotalOrder, Above, Sorted, has, has-insert_key, has-delete_key, Sorted-insert_key,
  Sorted-delete_key, All-has,
}

abbrev pub is_some {ℓ} : {A : Type ℓ} → Option A → Bool
is_some none = false
is_some (some a) = true

-- The keys are sorted, and are those that have a value.
pub record IsOrdered {ℓ} {K V : Type ℓ} (dec : Discrete K) (cmp : K → K → Ordering)
    (m : SortedMap K V) : Type ℓ where
  pub sorted : Sorted cmp m.keys
  pub same_keys : (k : K) → has dec k m.keys ≡ is_some (get dec k m.vals)

module _ {ℓ} {K V : Type ℓ} (dec : Discrete K) (cmp : K → K → Ordering) (o : IsTotalOrder cmp) where
  -- Setting a key keeps the keys of an ordered map sorted and the keys of its values.
  pub set-IsOrdered :
      (k : K) (v : V) (m : SortedMap K V)
      → IsOrdered dec cmp m
      → IsOrdered dec cmp (set dec cmp k v m)
  unfolding set
  set-IsOrdered k v m h = record {
    sorted = Sorted-insert_key dec cmp o k m.keys h.sorted;
    same_keys = λ j.
        ground
          (arith, has-insert_key dec cmp o k j m.keys, get-put dec k j v m.vals, h.same_keys j);
  }

  del_found-IsOrdered :
      (k : K) (v : V) (m : SortedMap K V)
      → IsOrdered dec cmp m
      → get dec k m.vals ≡ some v
      → IsOrdered dec cmp (record m { vals = delete dec k m.vals; keys = delete_key cmp k m.keys })
  del_found-IsOrdered k v m h e = record {
    sorted = Sorted-delete_key dec cmp o k m.keys h.sorted;
    same_keys = λ j. ground (
      arith,
      has-delete_key dec cmp o k j m.keys h.sorted (h.same_keys k ∙ ap is_some e),
      get-delete dec k j m.vals,
      h.same_keys j,
    );
  }

  -- Deleting a key keeps the keys of an ordered map sorted and the keys of its values.
  pub del-IsOrdered :
      (k : K) (m : SortedMap K V) → IsOrdered dec cmp m → IsOrdered dec cmp (del dec cmp k m)
  unfolding del
  del-IsOrdered k m h = elim (Option-cases (get dec k m.vals)) [
    | inl e ↦ rw (e, del) h
    | inr (v, e) ↦ rw (e, del) (del_found-IsOrdered k v m h e)
  ]

  pub get-set :
      (k j : K) (v : V) (m : SortedMap K V)
      → get dec j (set dec cmp k v m).vals ≡ ite (dec k j) (some v) (get dec j m.vals)
  unfolding set
  get-set k j v m = get-put dec k j v m.vals

  pub get-del :
      (k j : K) (m : SortedMap K V)
      → get dec j (del dec cmp k m).vals ≡ ite (dec k j) none (get dec j m.vals)
  unfolding del
  get-del k j m = ground (arith, get-delete dec k j m.vals)

-- The walk over the keys.
module _ {ℓ} {K : Type ℓ} (dec : Discrete K) (cmp : K → K → Ordering) where
  -- The first key of a sorted list that passes a test comes before every other key of the list that
  -- passes it.
  pub first_of_keys-first :
      (p : K → Bool) (ks : List K) (k j : K)
      → Sorted cmp ks
      → first_of_keys p ks ≡ some k
      → has dec j ks ≡ true
      → p j ≡ true
      → j ≢ k
      → Above cmp k j
  unfolding first_of_keys has
  first_of_keys-first p [] k j s e h q ne = cc
  first_of_keys-first p (i ∷ is) k j s e h q ne = elim (Bool-cases (p i)) [
    | inl hit ↦
        let same : i ≡ k = ground arith in
        let later : has dec j is ≡ true = ground arith in
        subst (λ x. Above cmp x j) same (All-has dec (Above cmp i) is j s.0 later)
    | inr miss ↦
        let other : i ≢ j = λ x. absurd (subst (λ y. p y ≡ false → ⊥) (sym x) (λ z. cc) miss) in
        first_of_keys-first p is k j s.1 (ground arith) (ground arith) q ne
  ]

  first_of_keys-none :
      (p : K → Bool) (ks : List K) (j : K)
      → first_of_keys p ks ≡ none
      → has dec j ks ≡ true
      → p j ≡ false
  unfolding first_of_keys has
  first_of_keys-none p [] j e h = cc
  first_of_keys-none p (i ∷ is) j e h =
      ground (arith, first_of_keys-none p is j, ap p {x = i} {y = j})

  pub first_of_keys-passes :
      (p : K → Bool) (ks : List K) (k : K)
      → first_of_keys p ks ≡ some k
      → (p k ≡ true) × (has dec k ks ≡ true)
  unfolding first_of_keys has
  first_of_keys-passes p [] k e = cc
  first_of_keys-passes p (i ∷ is) k e = ground (arith, first_of_keys-passes p is k)

module _ {ℓ} {K V : Type ℓ} (dec : Discrete K) (cmp : K → K → Ordering) where
  -- A walk that looks for one key finds the value of that key.
  pub range_first-key :
      (k : K) (m : SortedMap K V)
      → IsOrdered dec cmp m
      → range_first dec (λ j. ite (dec k j) true false) m ≡ get dec k m.vals
  unfolding range_first
  range_first-key k m h =
      elim (Option-cases (first_of_keys (λ j. ite (dec k j) true false) m.keys)) [
        | inl e ↦ ground (
          arith,
          e,
          h.same_keys k,
          λ (g : has dec k m.keys ≡ true).
              first_of_keys-none dec cmp (λ j. ite (dec k j) true false) m.keys k e g,
        )
        | inr (j, e) ↦
            let (hit, _) =
              first_of_keys-passes dec cmp (λ j. ite (dec k j) true false) m.keys j e in
            let same : k ≡ j = ground arith in
            rw (e, range_first) (ap (λ x. get dec x m.vals) (sym same))
      ]
