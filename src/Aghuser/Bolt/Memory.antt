-- ===== src/Aghuser/Bolt/Memory.antt =====
-- A database in memory, whose transactions do not fail: the laws of `Bolt` can hold.
use mathlib.Core.Option.{some-injective}
use gdns_server.Base.{
  ◌≡◌, ◌≢◌, refl, sym, ap, ◌∙◌, true, some, List, [], ◌∷◌, map, ite, All, Distinct, arith,
}
use gdns_server.Base.Dict.{Dict, Text, text_dec, get, put, delete, get-put, get-delete}
use gdns_server.Aghuser.Bolt.{Bolt, BoltLaws}

keys : Dict Text Text → List Text
keys m = map (λ e. e.0) m

-- The entries with each key once.
unfoldable pub once : Dict Text Text → Dict Text Text
once [] = []
once ((k, v) ∷ m) = (k, v) ∷ delete text_dec k (once m)

get-once : (j : Text) (m : Dict Text Text) → get text_dec j (once m) ≡ get text_dec j m
unfolding once get
get-once j [] = refl
get-once j ((k, v) ∷ m) = grind (arith, get-delete text_dec k j (once m), get-once j m)

kept_or_not :
    (P : Dict Text Text → Type 0) {A : Type 0} (d : Dec A) (rest more : Dict Text Text)
    → P rest
    → (¬ A → P more)
    → P (ite d rest more)
kept_or_not P (yes a) rest more h k = h
kept_or_not P (no n) rest more h k = k n

absent-delete :
    (P : Text → Type 0) (k : Text) (m : Dict Text Text)
    → All P (keys m)
    → All P (keys (delete text_dec k m))
unfolding keys delete
absent-delete P k [] h = tt
absent-delete P k ((j, v) ∷ m) h =
    let ih = absent-delete P k m h.1 in
    kept_or_not (λ l. All P (keys l)) (text_dec j k) _ _ ih (λ n. (h.0, ih))

deleted : (k : Text) (m : Dict Text Text) → All (λ j. k ≢ j) (keys (delete text_dec k m))
unfolding keys delete
deleted k [] = tt
deleted k ((j, v) ∷ m) =
    kept_or_not (λ l. All (λ i. k ≢ i) (keys l)) (text_dec j k) _ _ (deleted k m)
      (λ n. ((λ e. n (sym e)), deleted k m))

Distinct-delete :
    (k : Text) (m : Dict Text Text) → Distinct (keys m) → Distinct (keys (delete text_dec k m))
unfolding keys delete
Distinct-delete k [] h = tt
Distinct-delete k ((j, v) ∷ m) h =
    let ih = Distinct-delete k m h.1 in
    kept_or_not (λ l. Distinct (keys l)) (text_dec j k) _ _ ih
      (λ n. (absent-delete (λ i. j ≢ i) k m h.0, ih))

once-Distinct : (m : Dict Text Text) → Distinct (keys (once m))
unfolding keys once
once-Distinct [] = tt
once-Distinct ((k, v) ∷ m) = (deleted k (once m), Distinct-delete k (once m) (once-Distinct m))

abbrev pub memory : Bolt (Dict Text Text) (Dict Text Text)
memory = record {
  begin = some;
  has_bucket = λ x. true;
  create_bucket = some;
  put_key = λ x k v. some (put text_dec k v x);
  delete_key = λ x k. some (delete text_dec k x);
  entries = once;
  commit = λ d x. (x, true);
  rollback = λ d x. (d, true);
}

pub memory-BoltLaws : BoltLaws memory
unfolding keys
memory-BoltLaws = record {
  stored = λ d k. get text_dec k d;
  pending = λ x k. get text_dec k x;
  entries_distinct = once-Distinct;
  begin_view = λ d x e k. ap (get text_dec k) (sym (some-injective _ _ e));
  create_view = λ x y e k. ap (get text_dec k) (sym (some-injective _ _ e));
  put_view =
      λ x y k v e j. ap (get text_dec j) (sym (some-injective _ _ e)) ∙ get-put text_dec k j v x;
  delete_view =
      λ x y k e j. ap (get text_dec j) (sym (some-injective _ _ e)) ∙ get-delete text_dec k j x;
  no_bucket_view = λ x e k. cc;
  entries_view = λ x e k. get-once k x;
  commit_view = λ d x e k. refl;
  commit_failed = λ d x e k. cc;
  rollback_view = λ d x k. refl;
}

pub memory-stored : (d : Dict Text Text) (k : Text) → memory-BoltLaws.stored d k ≡ get text_dec k d
unfolding memory-BoltLaws
memory-stored d k = refl
