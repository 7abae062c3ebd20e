-- ===== src/Aghuser/Sessions/Entries.antt =====
-- internal/aghuser/sessionstorage.go: the loop over the entries of the database at the start of the
-- program, where each key is as long as a token.
use gdns_server.Base.{
  ℕ, ◌≡◌, ◌≢◌, refl, sym, ap, ◌∙◌, ◌⊎◌, inl, inr, ite, Bool, true, false, Option, none, some, List,
  [], ◌∷◌, map, All, Distinct, length, if◌then◌else◌, Bool-cases, Option-cases, arith, zero, suc,
  take, ltb, if_pos, if_neg,
}
use gdns_server.Base.Dict.{Dict, Text, text_dec, get, put, get-put}
use gdns_server.Aghuser.{User, Session}
use gdns_server.Aghuser.Bolt.{Bolt, BoltLaws}
use gdns_server.Aghuser.Sessions.{
  invalid, loaded, token_len, token_of, bbolt_decode, session_handler, for_each, delete_all,
}

abbrev pub keys : Dict Text Text → List Text
keys es = map (λ e. e.0) es

abbrev pub mem : Text → List Text → Bool
mem t [] = false
mem t (k ∷ ks) = let rest = mem t ks in ite (text_dec k t) true rest

-- The whole key is the token where it is as long as one.
take_all : (n : ℕ) (k : Text) → length k ≡ n → take n k ≡ k
take_all zero [] h = refl
take_all zero (x ∷ k) h = absurd (omega (arith, h))
take_all (suc n) [] h = refl
take_all (suc n) (x ∷ k) h = ap (λ l. x ∷ l) (take_all n k (omega (arith, h)))

pub token_of-some : (k : Text) → length k ≡ token_len → token_of k ≡ some k
unfolding token_of
token_of-some k h = grind (arith, take_all token_len k h)

-- The keys of a list of entries are as long as tokens.
abbrev pub HasTokens : Dict Text Text → Type 0
HasTokens es = All (λ k. length k ≡ token_len) (keys es)

pub get-HasTokens :
    (es : Dict Text Text)
    → ((t v : Text) → get text_dec t es ≡ some v → length t ≡ token_len)
    → HasTokens es
unfolding get
get-HasTokens [] h = tt
get-HasTokens ((k, v) ∷ es) h =
    let here : length k ≡ token_len = h k v (if_pos (text_dec k k) refl _ _) in
    (
      here,
      get-HasTokens es (λ t w e. elim (text_dec k t) [
        | yes p ↦ ap length (sym p) ∙ here
        | no n ↦ h t w (if_neg (text_dec k t) n _ _ ∙ e)
      ]),
    )

get-absent :
    (t : Text) (es : Dict Text Text) → All (λ k. t ≢ k) (keys es) → get text_dec t es ≡ none
unfolding get
get-absent t [] h = refl
get-absent t ((k, v) ∷ es) h = ground (arith, get-absent t es, h.1, h.0)

module _ {D T : Type 0} (B : Bolt D T) (by_login : Text → Option User) (now : ℕ) where
  -- The session of an entry with a key as long as a token: there is none where the value does not
  -- decode, the session has expired, or no user has its login.
  unfoldable pub good : Text → Text → Option Session
  good k v = elim (bbolt_decode v) [
    | none ↦ none
    | some s ↦ if ltb s.expire now then none else elim (by_login s.user_login) [
      | none ↦ none
      | some u ↦ some (record s { token = k; user_id = u.id })
    ]
  ]

  good-cases :
      (k v : Text)
      → length k ≡ token_len
      → ((good k v ≡ none) × (session_handler B by_login now k v ≡ invalid))
        ⊎ ((s : Session) × (good k v ≡ some s)
            × (session_handler B by_login now k v ≡ loaded s)
            × (s.token ≡ k))
  unfolding good session_handler
  good-cases k v h = elim (Option-cases (bbolt_decode v)) [
    | inl e ↦ inl (grind arith, grind arith)
    | inr (s, e) ↦ elim (Bool-cases (ltb s.expire now)) [
      | inl l ↦ inl (grind arith, grind arith)
      | inr l ↦ elim (Option-cases (by_login s.user_login)) [
        | inl b ↦ inl (grind arith, grind arith)
        | inr (u, b) ↦ inr (
          record s { token = k; user_id = u.id },
          grind (arith, token_of-some k h),
          grind (arith, token_of-some k h),
          refl,
        )
      ]
    ]
  ]

  -- The loop where each key is as long as a token.
  unfoldable pub loop : Dict Text Text → Dict Text Session → Dict Text Session × List Text
  loop [] m = (m, [])
  loop ((k, v) ∷ rest) m =
      let skip = loop rest m in
      elim (good k v) [ none ↦ (skip.0, k ∷ skip.1) | some s ↦ loop rest (put text_dec k s m) ]

  pub for_each-loop :
      (es : Dict Text Text) (m : Dict Text Session)
      → HasTokens es
      → for_each B by_login now es m ≡ some (loop es m)
  unfolding for_each loop
  for_each-loop [] m h = refl
  for_each-loop ((k, v) ∷ es) m h = elim (good-cases k v h.0) [
    | inl (e, f) ↦ rw (for_each, f, for_each-loop es m h.1, loop, e) refl
    | inr (s, e, f, t) ↦
        rw (for_each, f, loop, e)
          (ap (λ x. for_each B by_login now es (put text_dec x s m)) t
            ∙ for_each-loop es (put text_dec k s m) h.1)
  ]

  -- The session under `t` after the loop, from the entry under `t` and the session that was there.
  abbrev pub after : Text → Option Text → Option Session → Option Session
  after t none old = old
  after t (some v) old = elim (good t v) [ none ↦ old | some s ↦ some s ]

  abbrev pub bad_entry : Text → Option Text → Bool
  bad_entry t none = false
  bad_entry t (some v) = elim (good t v) [ none ↦ true | some s ↦ false ]

  pub loop-get :
      (t : Text) (es : Dict Text Text) (m : Dict Text Session)
      → Distinct (keys es)
      → (get text_dec t (loop es m).0 ≡ after t (get text_dec t es) (get text_dec t m))
        × (mem t (loop es m).1 ≡ bad_entry t (get text_dec t es))
  unfolding loop get
  loop-get t [] m h = (refl, refl)
  loop-get t ((k, v) ∷ es) m h = elim (Option-cases (good k v)) [
    | inl e ↦ grind (arith, loop-get t es m h.1, get-absent k es h.0)
    | inr (s, e) ↦ grind (
      arith,
      loop-get t es (put text_dec k s m) h.1,
      get-absent k es h.0,
      get-put text_dec k t s m,
    )
  ]

  pub delete_all-pending :
      (laws : BoltLaws B) (ks : List Text) (x : T)
      → (delete_all B by_login now x ks).1 ≡ true
      → (t : Text)
      → laws.pending (delete_all B by_login now x ks).0 t
        ≡ (if mem t ks then none else laws.pending x t)
  unfolding delete_all
  delete_all-pending laws [] x h t = refl
  delete_all-pending laws (k ∷ ks) x h t = elim (Option-cases (B.delete_key x k)) [
    | inl e ↦ absurd (ground arith)
    | inr (y, e) ↦
        let ih = delete_all-pending laws ks y (ground arith) t in
        grind (arith, ih, laws.delete_view x y k e t)
  ]
