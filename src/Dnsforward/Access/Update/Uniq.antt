-- ===== src/Dnsforward/Access/Update/Uniq.antt =====
-- internal/dnsforward/access.go, `validateStrUniq`: the strings that occur twice.
use gdns_server.Base.{
  ◌≡◌, ◌≢◌, refl, sym, ◌⊎◌, inl, inr, ◌↔◌, true, false, none, some, List, [], ◌∷◌, ◌++◌,
  if◌then◌else◌, All, All-map, All-map₂, Distinct, Bool-cases, arith,
}
use gdns_server.Base.Dict.{Text, text_dec}
use gdns_server.Base.Sets.{Mem, has, has-add, add, is_empty_list, append-not_empty}
use gdns_server.Dnsforward.Access.Update.{uniq_loop, validate_str_uniq}

-- The set has the strings that it had and the new ones.
uniq_loop-has :
    (cs m dup : List Text) (x : Text)
    → (has text_dec x (uniq_loop cs m dup).0 ≡ true) ↔ ((has text_dec x m ≡ true) ⊎ Mem x cs)
unfolding uniq_loop
uniq_loop-has [] m dup x = (λ h. inl h, λ h. elim h [ inl k ↦ k | inr k ↦ elim k [ ] ])
uniq_loop-has (c ∷ cs) m dup x =
    let (f, g) =
      uniq_loop-has cs (add text_dec c m) (if has text_dec c m then dup ++ c ∷ [] else dup) x in
    let (p, q) = has-add text_dec x c m in
    (
      λ h. elim (f h) [
        | inl k ↦ elim (p k) [ inl e ↦ inr (inl e) | inr n ↦ inl n ]
        | inr k ↦ inr (inr k)
      ],
      λ h. elim h [
        | inl k ↦ g (inl (q (inr k)))
        | inr k ↦ elim k [ inl e ↦ g (inl (q (inl e))) | inr n ↦ g (inr n) ]
      ],
    )

abbrev NoneIn : List Text → List Text → Type 0
NoneIn m cs = All (λ c. has text_dec c m ≡ false) cs

not_added :
    (c d : Text) (m : List Text)
    → (has text_dec d (add text_dec c m) ≡ false) ↔ ((c ≢ d) × (has text_dec d m ≡ false))
not_added c d m =
    let (p, q) = has-add text_dec d c m in
    (
      λ h. (
        λ e. grind (arith, q (inl (sym e))),
        elim (Bool-cases (has text_dec d m)) [
          | inl t ↦ absurd (grind (arith, q (inr t)))
          | inr f ↦ f
        ],
      ),
      λ h. elim (Bool-cases (has text_dec d (add text_dec c m))) [
        | inr f ↦ f
        | inl t ↦ elim (p t) [ inl e ↦ absurd (h.0 (sym e)) | inr k ↦ absurd (grind (arith, h.1)) ]
      ],
    )

-- There are no duplicates exactly when there were none, and no string occurs twice or was there.
uniq_loop-Distinct :
    (cs m dup : List Text)
    → ((uniq_loop cs m dup).1 ≡ []) ↔ ((dup ≡ []) × Distinct cs × NoneIn m cs)
unfolding uniq_loop
uniq_loop-Distinct [] m dup = (λ h. (h, tt, tt), λ h. h.0)
uniq_loop-Distinct (c ∷ cs) m dup = elim (Bool-cases (has text_dec c m)) [
  | inl t ↦
      let (f, g) = uniq_loop-Distinct cs (add text_dec c m) (dup ++ c ∷ []) in
      (
        λ h. absurd (grind (arith, append-not_empty dup c, (f (rw (uniq_loop, t) at h)).0)),
        λ h. absurd (grind arith),
      )
  | inr t ↦
      let (f, g) = uniq_loop-Distinct cs (add text_dec c m) dup in
      (
        λ h.
            let (d, ds, ns) = f (rw (uniq_loop, t) at h) in
            (
              d,
              (All-map _ _ cs ns (λ x n. ((not_added c x m).0 n).0), ds),
              (t, All-map _ _ cs ns (λ x n. ((not_added c x m).0 n).1)),
            ),
        λ h.
            let (d, (a, ds), (q, ns)) = h in
            rw (uniq_loop, t)
              (g (d, ds, All-map₂ _ _ _ cs a ns (λ x k n. (not_added c x m).1 (k, n)))),
      )
]

NoneIn-empty : (cs : List Text) → NoneIn [] cs
unfolding has
NoneIn-empty [] = tt
NoneIn-empty (c ∷ cs) = (refl, NoneIn-empty cs)

-- The strings of a list are accepted exactly when none occurs twice, and then the set has them.
pub validate_str_uniq-cases :
    (cs : List Text)
    → ((m : List Text) × (validate_str_uniq cs ≡ some m)
        × Distinct cs
        × ((x : Text) → (has text_dec x m ≡ true) ↔ Mem x cs))
      ⊎ ((validate_str_uniq cs ≡ none) × ¬ Distinct cs)
unfolding validate_str_uniq has
validate_str_uniq-cases cs =
    let (f, g) = uniq_loop-Distinct cs [] [] in
    elim (Bool-cases (is_empty_list (uniq_loop cs [] []).1)) [
      | inl e ↦
          let d = f (ground arith) in
          inl (
            (uniq_loop cs [] []).0,
            rw (validate_str_uniq, e) refl,
            d.1,
            λ x.
                let (p, q) = uniq_loop-has cs [] [] x in
                (λ h. elim (p h) [ inl k ↦ absurd (cc) | inr k ↦ k ], λ h. q (inr h)),
          )
      | inr e ↦ inr (
        rw (validate_str_uniq, e) refl,
        λ d. absurd (grind (arith, g (refl, d, NoneIn-empty cs))),
      )
    ]
