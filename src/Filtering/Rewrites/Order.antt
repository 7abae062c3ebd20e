-- ===== src/Filtering/Rewrites/Order.antt =====
-- internal/filtering/rewrites.go: the order of the entries found for a host, and what is cut off.
use Prim.Native.Nat.{max}
use mathlib.Core.Path.{ap₂}
use gdns_server.Base.{
  ℕ, suc, ◌+◌, ◌≡◌, ◌≢◌, refl, sym, ap, subst, ◌∙◌, ◌⊎◌, inl, inr, true, false, if◌then◌else◌, List,
  ◌≤◌, ◌↔◌, ℕ_discrete, ◌==◌, [], ◌∷◌, ◌++◌, length, length-append, take, All, Bool-cases, arith,
}
use gdns_server.Base.Int.{pos, ◌≤ℤ◌}
use gdns_server.Filtering.Rewrites.{LegacyRewrite, compare_rewrites, is_wildcard, type_cname, cut}
use gdns_server.Filtering.Rewrites.Matching.{Mem, All-Mem}

-- No entry comes after one that `Compare` puts behind it.
abbrev pub IsAscending : List LegacyRewrite → Type 0
IsAscending [] = Unit
IsAscending (x ∷ xs) = All (λ y. compare_rewrites x y ≤ℤ pos 0) xs × IsAscending xs

abbrev pub IsExact : LegacyRewrite → Type 0
IsExact r = is_wildcard r.domain ≡ false

-- The entries before the first wildcard.
pub exact_prefix : List LegacyRewrite → List LegacyRewrite
exact_prefix [] = []
exact_prefix (r ∷ rs) = let rest = exact_prefix rs in if is_wildcard r.domain then [] else r ∷ rest

pub exact_prefix-IsExact : (l : List LegacyRewrite) → All IsExact (exact_prefix l)
unfolding exact_prefix
exact_prefix-IsExact [] = tt
exact_prefix-IsExact (r ∷ rs) = elim (Bool-cases (is_wildcard r.domain)) [
  | inl e ↦ rw (exact_prefix, e) tt
  | inr e ↦ rw (exact_prefix, e) (e, exact_prefix-IsExact rs)
]

pub exact_prefix_head :
    (r : LegacyRewrite) (rs : List LegacyRewrite)
    → IsExact r
    → exact_prefix (r ∷ rs) ≡ r ∷ exact_prefix rs
unfolding exact_prefix
exact_prefix_head r rs e = rw (exact_prefix, e) refl

take_pre : (pre xs : List LegacyRewrite) → take (length pre) (pre ++ xs) ≡ pre
take_pre [] xs = refl
take_pre (p ∷ pre) xs = ap (λ l. p ∷ l) (take_pre pre xs)

append_nil : (l : List LegacyRewrite) → l ++ [] ≡ l
append_nil [] = refl
append_nil (x ∷ xs) = ap (λ l. x ∷ l) (append_nil xs)

append_one :
    (pre : List LegacyRewrite) (r : LegacyRewrite) (rs : List LegacyRewrite)
    → (pre ++ r ∷ []) ++ rs ≡ pre ++ r ∷ rs
append_one [] r rs = refl
append_one (p ∷ pre) r rs = ap (λ l. p ∷ l) (append_one pre r rs)

max_one : (n : ℕ) → max 1 (suc n) ≡ suc n
max_one n = omega arith

-- The loop after an exact entry keeps the entries before the first wildcard.
cut_prefix :
    (p : LegacyRewrite) (pre xs : List LegacyRewrite)
    → cut (suc (length pre)) (p ∷ pre ++ xs) xs ≡ p ∷ pre ++ exact_prefix xs
unfolding cut exact_prefix
cut_prefix p pre [] = refl
cut_prefix p pre (r ∷ rs) = elim (Bool-cases (is_wildcard r.domain)) [
  | inl e ↦
      rw (cut, exact_prefix, e, max_one (length pre))
        (ap (λ l. p ∷ l) (take_pre pre (r ∷ rs) ∙ sym (append_nil pre)))
  | inr e ↦
      let i : suc (length pre) + 1 ≡ suc (length (pre ++ r ∷ [])) =
        omega (arith, length-append pre (r ∷ [])) in
      rw (cut, exact_prefix, e)
        (ap₂ (λ n l. cut n (p ∷ l) rs) i (sym (append_one pre r rs))
          ∙ cut_prefix p (pre ++ r ∷ []) rs
          ∙ ap (λ l. p ∷ l) (append_one pre r (exact_prefix rs)))
]

pub cut_all :
    (r : LegacyRewrite) (rs : List LegacyRewrite)
    → ((is_wildcard r.domain ≡ true) × (cut 0 (r ∷ rs) (r ∷ rs) ≡ r ∷ []))
      ⊎ (IsExact r × (cut 0 (r ∷ rs) (r ∷ rs) ≡ exact_prefix (r ∷ rs)))
unfolding cut exact_prefix
cut_all r rs = elim (Bool-cases (is_wildcard r.domain)) [
  | inl e ↦ inl (e, rw (cut, e) refl)
  | inr e ↦ inr (e, rw (cut, exact_prefix, e) (cut_prefix r [] rs))
]

-- `r` is not behind `e`: CNAME records come before others, exact patterns before wildcards, and longer
-- patterns before shorter ones.
abbrev pub NotBehind : LegacyRewrite → LegacyRewrite → Type 0
NotBehind r e =
    ((r.rr_type ≡ type_cname) × (e.rr_type ≢ type_cname))
    ⊎ (((r.rr_type ≡ type_cname) ↔ (e.rr_type ≡ type_cname))
        × ((IsExact r × (is_wildcard e.domain ≡ true))
            ⊎ ((is_wildcard r.domain ≡ is_wildcard e.domain)
                × (length e.domain ≤ length r.domain))))

pub compare-NotBehind : (r e : LegacyRewrite) → compare_rewrites r e ≤ℤ pos 0 → NotBehind r e
unfolding compare_rewrites
compare-NotBehind r e h = elim (ℕ_discrete r.rr_type type_cname) [
  | yes p ↦ elim (ℕ_discrete e.rr_type type_cname) [
    | yes q ↦ inr (((λ _. q), (λ _. p)), same_kind r e h (grind (arith, p, q)))
    | no n ↦ inl (p, n)
  ]
  | no n ↦ elim (ℕ_discrete e.rr_type type_cname) [
    | yes q ↦ absurd (grind (arith, n, q, h))
    | no k ↦ inr (((λ p. absurd (n p)), (λ p. absurd (k p))), same_kind r e h (grind (arith, n, k)))
  ]
]
  where
    same_kind :
        (r e : LegacyRewrite)
        → compare_rewrites r e ≤ℤ pos 0
        → (r.rr_type == type_cname) ≡ (e.rr_type == type_cname)
        → (IsExact r × (is_wildcard e.domain ≡ true))
          ⊎ ((is_wildcard r.domain ≡ is_wildcard e.domain) × (length e.domain ≤ length r.domain))
    same_kind r e h c = grind arith

pub compare_self : (r : LegacyRewrite) → compare_rewrites r r ≤ℤ pos 0
unfolding compare_rewrites
compare_self r = grind arith

-- A wildcard that is put before an exact entry is a CNAME record, and the entry is not.
pub compare_wildcard :
    (r e : LegacyRewrite)
    → is_wildcard r.domain ≡ true
    → IsExact e
    → compare_rewrites r e ≤ℤ pos 0
    → (r.rr_type ≡ type_cname) × (e.rr_type ≢ type_cname)
unfolding compare_rewrites
compare_wildcard r e w x h = (grind arith, λ q. grind arith)

-- In an ascending list, an exact entry stands before the first wildcard, unless a wildcard of a
-- CNAME record and an entry of another type are there.
pub exact_prefix-Mem :
    (l : List LegacyRewrite) (e : LegacyRewrite)
    → IsAscending l
    → All (λ r. r.rr_type ≢ type_cname) l
    → IsExact e
    → Mem e l
    → Mem e (exact_prefix l)
unfolding exact_prefix
exact_prefix-Mem [] e a n x m = m
exact_prefix-Mem (r ∷ rs) e a n x (inl p) = rw (exact_prefix, subst IsExact p x) (inl p)
exact_prefix-Mem (r ∷ rs) e a n x (inr m) = elim (Bool-cases (is_wildcard r.domain)) [
  | inl w ↦ absurd (n.0 (compare_wildcard r e w x (All-Mem _ rs a.0 e m)).0)
  | inr w ↦ rw (exact_prefix, w) (inr (exact_prefix-Mem rs e a.1 n.1 x m))
]
