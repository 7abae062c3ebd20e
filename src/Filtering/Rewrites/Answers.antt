-- ===== src/Filtering/Rewrites/Answers.antt =====
-- internal/filtering/filtering.go, `processRewrites`: where the addresses of a result come from.
use mathlib.Core.Option.{some-injective}
use gdns_server.Base.{
  ℕ, zero, suc, ◌≡◌, refl, sym, subst, ◌⊎◌, inl, inr, Bool, true, ◌&&◌, ◌||◌, Option, some, List,
  [], ◌∷◌, ◌++◌, ◌==◌, All, All-append, Bool-cases, arith,
}
use gdns_server.Base.Dict.{Text}
use gdns_server.Net.{Addr, Addr.invalid}
use gdns_server.Filtering.Rewrites.{
  LegacyRewrite, Result, no_result, rewritten, addr_eq, type_a, type_aaaa, set_rewrite_result,
  find_rewrites, handle_rewrite_loop, process_rewrites,
}
use gdns_server.Filtering.Rewrites.Matching.{KeepsElements, Fits, find_rewrites-Fits}
use gdns_server.Filtering.Rewrites.Chain.{
  Turn, finished, excepted, wildcard, repeated, followed, run, turn,
}

module _ (sort : List LegacyRewrite → List LegacyRewrite) (keeps : KeepsElements sort)
    (entries : List LegacyRewrite) (qtype : ℕ) where
  -- The addresses are of entries that fit the host `h` and have the type of the question.
  abbrev pub AddressesOf : Text → List Addr → Type 0
  AddressesOf h ips =
      All (λ ip. (e : LegacyRewrite) × Fits entries h qtype e × (e.rr_type ≡ qtype) × (e.ip ≡ ip))
        ips

  set_rewrite_result-AddressesOf :
      (h : Text) (found : List LegacyRewrite) (res : Result)
      → All (Fits entries h qtype) found
      → AddressesOf h res.ip_list
      → AddressesOf h (set_rewrite_result res found qtype).ip_list
        × ((set_rewrite_result res found qtype).canon_name ≡ res.canon_name)
  unfolding set_rewrite_result
  set_rewrite_result-AddressesOf h [] res f a = (a, refl)
  set_rewrite_result-AddressesOf h (e ∷ found) res f a =
      elim (Bool-cases ((e.rr_type == qtype) && ((qtype == type_a) || (qtype == type_aaaa)))) [
        | inr b ↦ rw (set_rewrite_result, b) (set_rewrite_result-AddressesOf h found res f.1 a)
        | inl b ↦ elim (Bool-cases (addr_eq e.ip invalid)) [
          | inl c ↦ rw (set_rewrite_result, b, c) (a, refl)
          | inr c ↦
              let one : AddressesOf h (e.ip ∷ []) = ((e, f.0, ground arith, refl), tt) in
              rw (set_rewrite_result, b, c)
                (set_rewrite_result-AddressesOf h found
                  (record res { ip_list = res.ip_list ++ e.ip ∷ [] }) f.1
                  (All-append _ res.ip_list (e.ip ∷ []) a one))
        ]
      ]

  -- The host that a result answers for.
  abbrev Answers : Text → Option Result → Type 0
  Answers orig o =
      (r : Result)
      → o ≡ some r
      → (h : Text) × ((h ≡ orig) ⊎ (h ≡ r.canon_name)) × AddressesOf h r.ip_list

  Answers-some :
      (orig h : Text) (res : Result)
      → AddressesOf h res.ip_list
      → (h ≡ orig) ⊎ (h ≡ res.canon_name)
      → Answers orig (some res)
  Answers-some orig h res a k r e =
      subst (λ x. (y : Text) × ((y ≡ orig) ⊎ (y ≡ x.canon_name)) × AddressesOf y x.ip_list)
        (some-injective _ _ e) (h, k, a)

  none_yet : (h : Text) (ips : List Addr) → ips ≡ [] → AddressesOf h ips
  none_yet h ips n = subst (AddressesOf h) (sym n) tt

  Answers-set :
      (orig h : Text) (found : List LegacyRewrite) (res : Result)
      → All (Fits entries h qtype) found
      → res.ip_list ≡ []
      → (h ≡ orig) ⊎ (h ≡ res.canon_name)
      → Answers orig (some (set_rewrite_result res found qtype))
  Answers-set orig h found res f n k =
      let (a, c) = set_rewrite_result-AddressesOf h found res f (none_yet h res.ip_list n) in
      Answers-some orig h _ a (subst (λ x. (h ≡ orig) ⊎ (h ≡ x)) (sym c) k)

  Turn-Answers :
      {fuel : ℕ} {orig host : Text} {e : LegacyRewrite} {cnames : List Text}
      {found : List LegacyRewrite × Bool} {res : Result} {o : Option Result}
      → Turn sort keeps entries qtype fuel orig host e cnames found res o
      → All (Fits entries host qtype) found.0
      → res.ip_list ≡ []
      → (host ≡ orig) ⊎ (host ≡ res.canon_name)
      → Answers orig (
          run sort keeps entries qtype fuel orig e.answer
            (find_rewrites sort entries e.answer qtype)
            (e.answer ∷ cnames)
            (record res { canon_name = e.answer }))
      → Answers orig o
  Turn-Answers finished f n k ih = Answers-set _ _ _ _ f n k
  Turn-Answers {orig = orig} excepted f n k ih = Answers-some orig orig no_result tt (inl refl)
  Turn-Answers wildcard f n k ih = Answers-set _ _ _ _ f n (inr refl)
  Turn-Answers {orig = orig} {host = host} {res = res} repeated f n k ih =
      Answers-some orig host res (none_yet host res.ip_list n) k
  Turn-Answers (followed d) f n k ih = ih

  run-Answers :
      (fuel : ℕ) (orig host : Text) (found : List LegacyRewrite × Bool) (cnames : List Text)
      (res : Result)
      → All (Fits entries host qtype) found.0
      → res.ip_list ≡ []
      → (host ≡ orig) ⊎ (host ≡ res.canon_name)
      → Answers orig (run sort keeps entries qtype fuel orig host found cnames res)
  unfolding handle_rewrite_loop
  run-Answers zero orig host found cnames res f n k = λ r e. cc
  run-Answers (suc fuel) orig host ([], matched) cnames res f n k =
      Answers-set orig host [] res f n k
  run-Answers (suc fuel) orig host (e ∷ rest, matched) cnames res f n k =
      Turn-Answers (turn sort keeps entries qtype fuel orig host e rest matched cnames res) f n k (
        run-Answers fuel orig e.answer (find_rewrites sort entries e.answer qtype)
          (e.answer ∷ cnames) (record res { canon_name = e.answer })
          (find_rewrites-Fits sort keeps entries e.answer qtype) n (inr refl))

  Answers-of :
      (fuel : ℕ) (rewrites_enabled : Bool) (host : Text)
      → Answers host (process_rewrites sort fuel rewrites_enabled entries host qtype)
  unfolding process_rewrites
  Answers-of fuel enabled host = elim (Bool-cases enabled) [
    | inr a ↦ rw (process_rewrites, a) (Answers-some host host no_result tt (inl refl))
    | inl a ↦ elim (Bool-cases (find_rewrites sort entries host qtype).1) [
      | inr b ↦ rw (process_rewrites, a, b) (Answers-some host host no_result tt (inl refl))
      | inl b ↦
          rw (process_rewrites, a, b)
            (run-Answers fuel host host ((find_rewrites sort entries host qtype).0, true) []
              (record no_result { reason = rewritten })
              (find_rewrites-Fits sort keeps entries host qtype) refl (inl refl))
    ]
  ]

  -- With a sort that keeps the elements, the addresses of a result are those of enabled entries of
  -- the type of the question whose pattern fits one host: the one that was asked for, or the
  -- canonical name of the result.
  pub process_rewrites-AddressesOf :
      (fuel : ℕ) (rewrites_enabled : Bool) (host : Text) (r : Result)
      → process_rewrites sort fuel rewrites_enabled entries host qtype ≡ some r
      → (h : Text) × ((h ≡ host) ⊎ (h ≡ r.canon_name)) × AddressesOf h r.ip_list
  process_rewrites-AddressesOf fuel enabled host = Answers-of fuel enabled host
