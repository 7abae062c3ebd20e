-- ===== src/Client/Index/Ownership.antt =====
-- One map of the index of internal/client/index.go against the clients: a key leads to the client
-- that lists it, and each client is found by all of its keys.
use mathlib.Core.Option.{some-injective}
use gdns_server.Base.{
  ℕ, ◌≡◌, ◌≢◌, refl, sym, ap, ◌∙◌, subst, true, List, [], ◌∷◌, Option, none, some, ◌==◌,
  if◌then◌else◌, ite, if_neg, ℕ_discrete, arith, Bool-cases, Option-cases, inl, inr,
}
use gdns_server.Base.Dict.{Dict, get, put, delete, get-put, get-delete}
use gdns_server.SortedMap.Order.{has}
use gdns_server.Client.Persistent.{Persistent}
use gdns_server.Client.Index.{put_all, delete_all, clash_in}

module _ {K : Type 0} (dec : Discrete K) where
  pub get-put_all :
      (ks : List K) (u : ℕ) (m : Dict K ℕ) (j : K)
      → get dec j (put_all dec ks u m) ≡ (if has dec j ks then some u else get dec j m)
  unfolding put_all has
  get-put_all [] u m j = refl
  get-put_all (k ∷ ks) u m j =
      ground (arith, get-put_all ks u (put dec k u m) j, get-put dec k j u m)

  pub get-delete_all :
      (ks : List K) (m : Dict K ℕ) (j : K)
      → get dec j (delete_all dec ks m) ≡ (if has dec j ks then none else get dec j m)
  unfolding delete_all has
  get-delete_all [] m j = refl
  get-delete_all (k ∷ ks) m j =
      ground (arith, get-delete_all ks (delete dec k m) j, get-delete dec k j m)

  -- Without a clash, a key that has an owner belongs to the client itself.
  pub clash_in-none :
      (owner : K → Option ℕ) (uid : ℕ) (ks : List K) (k : K) (u : ℕ)
      → clash_in owner uid ks ≡ none
      → has dec k ks ≡ true
      → owner k ≡ some u
      → u ≡ uid
  unfolding clash_in has
  clash_in-none owner uid [] k u c h e = cc
  clash_in-none owner uid (j ∷ js) k u c h e = elim (dec j k) [
    | yes same ↦ ground (arith, ap owner same)
    | no ne ↦ ground (arith, clash_in-none owner uid js k u)
  ]

pub clash_in-owner :
    {K : Type 0} (owner : K → Option ℕ) (uid : ℕ) (ks : List K) (u : ℕ)
    → clash_in owner uid ks ≡ some u
    → (k : K) × (owner k ≡ some u)
unfolding clash_in
clash_in-owner owner uid [] u c = cc
clash_in-owner owner uid (j ∷ js) u c = elim (Option-cases (owner j)) [
  | inl e ↦ clash_in-owner owner uid js u (ground arith)
  | inr (v, e) ↦ elim (Bool-cases (v == uid)) [
    | inl own ↦ clash_in-owner owner uid js u (ground arith)
    | inr other ↦ (j, ground arith)
  ]
]

-- `owner` leads from keys to UIDs, `clients` from UIDs to clients.
module _ {K : Type 0} (dec : Discrete K) (keys : Persistent → List K) where
  pub record Owns (owner : K → Option ℕ) (clients : ℕ → Option Persistent) : Type 0 where
    pub sound :
        (k : K) (u : ℕ)
        → owner k ≡ some u
        → (c : Persistent) × (clients u ≡ some c) × (has dec k (keys c) ≡ true)
    pub complete :
        (k : K) (u : ℕ) (c : Persistent)
        → clients u ≡ some c
        → has dec k (keys c) ≡ true
        → owner k ≡ some u

  pub Owns-enter :
      (owner owner' : K → Option ℕ) (clients clients' : ℕ → Option Persistent) (c : Persistent)
      → Owns owner clients
      → clients c.uid ≡ none
      → ((k : K) (u : ℕ) → has dec k (keys c) ≡ true → owner k ≡ some u → u ≡ c.uid)
      → ((k : K) → owner' k ≡ (if has dec k (keys c) then some c.uid else owner k))
      → ((u : ℕ) → clients' u ≡ ite (ℕ_discrete c.uid u) (some c) (clients u))
      → Owns owner' clients'
  Owns-enter owner owner' clients clients' c o new free eo ec = record {
    sound = λ k u e. elim (Bool-cases (has dec k (keys c))) [
      | inl mine ↦ (c, ground (arith, eo k, ec u), mine)
      | inr other ↦
          let (d, cd, hd) = o.sound k u (ground (arith, eo k)) in
          let ne : c.uid ≢ u = λ q. absurd (subst (λ x. clients x ≡ some d → ⊥) q (λ z. cc) cd) in
          (d, rw (ec u, if_neg (ℕ_discrete c.uid u) ne) cd, hd)
    ];
    complete = λ k u d e h. elim (ℕ_discrete c.uid u) [
      | yes q ↦
          let same : c ≡ d = ground (arith, ec u) in
          ground (arith, eo k, ap (λ x. has dec k (keys x)) same)
      | no ne ↦
          let old : clients u ≡ some d = ground (arith, ec u) in
          ground (arith, eo k, free k u, o.complete k u d old h)
    ];
  }

  pub Owns-remove :
      (owner owner' : K → Option ℕ) (clients clients' : ℕ → Option Persistent) (c : Persistent)
      → Owns owner clients
      → clients c.uid ≡ some c
      → ((k : K) → owner' k ≡ (if has dec k (keys c) then none else owner k))
      → ((u : ℕ) → clients' u ≡ ite (ℕ_discrete c.uid u) none (clients u))
      → Owns owner' clients'
  Owns-remove owner owner' clients clients' c o stored eo ec = record {
    sound = λ k u e.
        let (d, cd, hd) = o.sound k u (ground (arith, eo k)) in
        let ne : c.uid ≢ u = λ q.
          let same : c ≡ d = some-injective _ _ (sym stored ∙ ap clients q ∙ cd) in
          ground (arith, eo k, ap (λ x. has dec k (keys x)) same) in
        (d, rw (ec u, if_neg (ℕ_discrete c.uid u) ne) cd, hd);
    complete = λ k u d e h.
        let ne : c.uid ≢ u = λ q. ground (arith, ec u) in
        let old : clients u ≡ some d = ground (arith, ec u) in
        ground (
          arith,
          eo k,
          o.complete k u d old h,
          λ (mine : has dec k (keys c) ≡ true). o.complete k c.uid c stored mine,
        );
  }
