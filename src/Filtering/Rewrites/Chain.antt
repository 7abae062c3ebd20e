-- ===== src/Filtering/Rewrites/Chain.antt =====
-- internal/filtering/filtering.go, `processRewrites` and `handleRewriteLoop`: the chain of CNAME
-- records ends.
use gdns_server.Base.{
  ℕ, zero, suc, ◌≤◌, ◌<◌, ◌≡◌, refl, subst, inl, inr, Bool, true, false, ◌||◌, ◌&&◌, Option, some,
  List, [], ◌∷◌, length, if◌then◌else◌, ◌==◌, All, All-map, Bool-cases, arith,
}
use gdns_server.Base.Dict.{Text}
use gdns_server.Filtering.Rewrites.{
  LegacyRewrite, Result, no_result, rewritten, has, text_eq, is_wildcard, type_cname,
  set_rewrite_result, find_rewrites, handle_rewrite_loop, process_rewrites,
}
use gdns_server.Filtering.Rewrites.Matching.{Mem, KeepsElements, Fits, find_rewrites-Fits}

-- The number of entries whose answer the loop has not gone to.
fresh : List Text → List LegacyRewrite → ℕ
fresh cnames [] = 0
fresh cnames (e ∷ es) = let rest = fresh cnames es in if has e.answer cnames then rest else suc rest

fresh-length : (cnames : List Text) (es : List LegacyRewrite) → fresh cnames es ≤ length es
unfolding fresh
fresh-length cnames [] = omega arith
fresh-length cnames (e ∷ es) = ground (arith, fresh-length cnames es)

fresh-cons :
    (t : Text) (cnames : List Text) (es : List LegacyRewrite)
    → fresh (t ∷ cnames) es ≤ fresh cnames es
unfolding fresh
fresh-cons t cnames [] = omega arith
fresh-cons t cnames (e ∷ es) = ground (arith, fresh-cons t cnames es)

text_eq_self : (t : Text) → text_eq t t ≡ true
text_eq_self t = ground arith

-- Going to the answer of an entry that was not gone to leaves fewer.
fresh-less :
    (e : LegacyRewrite) (cnames : List Text) (es : List LegacyRewrite)
    → Mem e es
    → has e.answer cnames ≡ false
    → fresh (e.answer ∷ cnames) es < fresh cnames es
unfolding fresh
fresh-less e cnames [] m h = elim m [ ]
fresh-less e cnames (x ∷ es) (inl p) h =
    let h' = subst (λ y. has y.answer cnames ≡ false) p h in
    let q = subst (λ y. text_eq e.answer y.answer ≡ true) p (text_eq_self e.answer) in
    rw (h', q) (omega (arith, fresh-cons e.answer cnames es))
fresh-less e cnames (x ∷ es) (inr m) h = ground (arith, fresh-less e cnames es m h)

module _ (sort : List LegacyRewrite → List LegacyRewrite) (keeps : KeepsElements sort)
    (entries : List LegacyRewrite) (qtype : ℕ) where
  abbrev pub run : ℕ → Text → Text → List LegacyRewrite × Bool → List Text → Result → Option Result
  run fuel orig host found cnames res =
      handle_rewrite_loop sort fuel entries qtype orig host found cnames res

  -- What the loop does with the first entry found: it ends, or goes to the answer, which is new.
  pub data Turn (fuel : ℕ) (orig host : Text) (rw : LegacyRewrite) (cnames : List Text)
      (found : List LegacyRewrite × Bool) (res : Result) : Option Result → Type 0 where
    finished : Turn fuel orig host rw cnames found res (some (set_rewrite_result res found.0 qtype))
    excepted : Turn fuel orig host rw cnames found res (some no_result)
    wildcard :
        Turn fuel orig host rw cnames found res
          (some (set_rewrite_result (record res { canon_name = host }) found.0 qtype))
    repeated : Turn fuel orig host rw cnames found res (some res)
    followed :
        has rw.answer cnames ≡ false
        → Turn fuel orig host rw cnames found res (
            run fuel orig rw.answer
              (find_rewrites sort entries rw.answer qtype)
              (rw.answer ∷ cnames)
              (record res { canon_name = rw.answer }))

  pub turn :
      (fuel : ℕ) (orig host : Text) (rw : LegacyRewrite) (rest : List LegacyRewrite)
      (matched : Bool) (cnames : List Text) (res : Result)
      → Turn fuel orig host rw cnames
          (rw ∷ rest, matched)
          res
          (run (suc fuel) orig host (rw ∷ rest, matched) cnames res)
  unfolding handle_rewrite_loop
  turn fuel orig host e rest matched cnames res =
      elim (Bool-cases (matched && (e.rr_type == type_cname))) [
        | inr a ↦ rw (handle_rewrite_loop, a) finished
        | inl a ↦ elim (Bool-cases (text_eq orig e.answer || text_eq e.domain e.answer)) [
          | inl b ↦ rw (handle_rewrite_loop, a, b) excepted
          | inr b ↦ elim (Bool-cases (text_eq host e.answer && is_wildcard e.domain)) [
            | inl c ↦ rw (handle_rewrite_loop, a, b, c) wildcard
            | inr c ↦ elim (Bool-cases (has e.answer cnames)) [
              | inl d ↦ rw (handle_rewrite_loop, a, b, c, d) repeated
              | inr d ↦ rw (handle_rewrite_loop, a, b, c, d) (followed d)
            ]
          ]
        ]
      ]

  abbrev pub Returns : Option Result → Type 0
  Returns o = (r : Result) × (o ≡ some r)

  Turn-Returns :
      {fuel : ℕ} {orig host : Text} {e : LegacyRewrite} {cnames : List Text}
      {found : List LegacyRewrite × Bool} {res : Result} {o : Option Result}
      → Turn fuel orig host e cnames found res o
      → (has e.answer cnames ≡ false
          → Returns (
              run fuel orig e.answer
                (find_rewrites sort entries e.answer qtype)
                (e.answer ∷ cnames)
                (record res { canon_name = e.answer })))
      → Returns o
  Turn-Returns finished h = (_, refl)
  Turn-Returns excepted h = (_, refl)
  Turn-Returns wildcard h = (_, refl)
  Turn-Returns repeated h = (_, refl)
  Turn-Returns (followed d) h = h d

  found-Mem : (host : Text) → All (λ e. Mem e entries) (find_rewrites sort entries host qtype).0
  found-Mem host =
      All-map (Fits entries host qtype) (λ e. Mem e entries)
        (find_rewrites sort entries host qtype).0 (find_rewrites-Fits sort keeps entries host qtype)
        (λ e f. f.0)

  run-Returns :
      (fuel : ℕ) (orig host : Text) (found : List LegacyRewrite × Bool) (cnames : List Text)
      (res : Result)
      → fresh cnames entries < fuel
      → All (λ e. Mem e entries) found.0
      → Returns (run fuel orig host found cnames res)
  unfolding handle_rewrite_loop
  run-Returns zero orig host found cnames res l h = absurd (omega arith)
  run-Returns (suc fuel) orig host ([], matched) cnames res l h = (_, refl)
  run-Returns (suc fuel) orig host (e ∷ rest, matched) cnames res l h =
      Turn-Returns (turn fuel orig host e rest matched cnames res) (λ d.
        run-Returns fuel orig e.answer (find_rewrites sort entries e.answer qtype)
          (e.answer ∷ cnames) (record res { canon_name = e.answer })
          (omega (arith, fresh-less e cnames entries h.0 d)) (found-Mem e.answer))

  -- With a sort that keeps the elements, and more fuel than there are entries, the chain of rewrites
  -- ends with a result, whatever the entries: loops of CNAME records included.
  pub process_rewrites-Returns :
      (fuel : ℕ) (rewrites_enabled : Bool) (host : Text)
      → length entries < fuel
      → Returns (process_rewrites sort fuel rewrites_enabled entries host qtype)
  unfolding process_rewrites
  process_rewrites-Returns fuel enabled host l = elim (Bool-cases enabled) [
    | inr a ↦ rw (process_rewrites, a) (_, refl)
    | inl a ↦ elim (Bool-cases (find_rewrites sort entries host qtype).1) [
      | inr b ↦ rw (process_rewrites, a, b) (_, refl)
      | inl b ↦
          rw (process_rewrites, a, b)
            (run-Returns fuel host host ((find_rewrites sort entries host qtype).0, true) []
              (record no_result { reason = rewritten }) (omega (arith, fresh-length [] entries))
              (found-Mem host))
    ]
  ]
