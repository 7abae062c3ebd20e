-- ===== src/Aghuser/Sessions/Load.antt =====
-- internal/aghuser/sessionstorage.go: the sessions that a start of the program takes over from the
-- database.
use mathlib.Core.Option
use mathlib.Core.Option.{some-injective}
use gdns_server.Base.{
  ℕ, ◌≤◌, ◌<◌, ◌/◌, ◌*◌, ◌≡◌, refl, sym, ap, subst, ◌∙◌, ◌⊎◌, inl, inr, Bool, true, false, Option,
  none, some, List, [], ◌∷◌, All, length, ◌==◌, if◌then◌else◌, Bool-cases, Option-cases, arith,
}
use gdns_server.Base.Dict.{Dict, Text, text_dec, get}
use gdns_server.Aghuser.{User, Session}
use gdns_server.Aghuser.Bolt.{Bolt, BoltLaws}
use gdns_server.Aghuser.Sessions.{
  Storage, token_len, bbolt_encode, bbolt_decode, session_handler, delete_all, process_sessions,
  end_load, load_sessions, new_default_session_storage, second,
}
use gdns_server.Aghuser.Sessions.Encoding.{IsByte, kept, bbolt_encode-decode, bbolt_decode-encode}
use gdns_server.Aghuser.Sessions.Sync.{InSync}
use gdns_server.Aghuser.Sessions.Entries.{
  mem, token_of-some, get-HasTokens, good, loop, for_each-loop, after, bad_entry, loop-get,
  delete_all-pending,
}

module _ {D T : Type 0} (B : Bolt D T) (by_login : Text → Option User) (now : ℕ) where
  -- What is left of an entry.
  abbrev pub left : Text → Option Text → Option Text
  left t none = none
  left t (some v) = elim (good B by_login now t v) [ none ↦ none | some s ↦ some v ]

  -- The loaded storage `out`: its map has the good entries of the database `d`, and its database
  -- has no other.
  abbrev pub IsLoaded : BoltLaws B → D → Storage D → Type 0
  IsLoaded laws d out =
      (t : Text)
      → (get text_dec t out.sessions ≡ after B by_login now t (laws.stored d t) none)
        × (laws.stored out.db t ≡ left t (laws.stored d t))

  IsLoaded-none :
      (laws : BoltLaws B) (d : D) (out : Storage D)
      → ((t : Text) → laws.stored d t ≡ none)
      → out.sessions ≡ []
      → ((t : Text) → laws.stored out.db t ≡ laws.stored d t)
      → IsLoaded laws d out
  unfolding get
  IsLoaded-none laws d out e f g t = (
    ap (get text_dec t) f ∙ sym (ap (λ o. after B by_login now t o none) (e t)),
    g t ∙ e t ∙ sym (ap (left t) (e t)),
  )

  left_lem :
      (t : Text) (o : Option Text) → (if bad_entry B by_login now t o then none else o) ≡ left t o
  left_lem t o = grind arith

  IsLoaded-entries :
      (laws : BoltLaws B) (d : D) (tx : T) (ttl : ℕ) (d' : D)
      → B.begin d ≡ some tx
      → B.has_bucket tx ≡ true
      → let r = loop B by_login now (B.entries tx) [] in
        ((t : Text) → laws.stored d' t ≡ (if mem t r.1 then none else laws.stored d t))
        → IsLoaded laws d (record { db = d'; sessions = r.0; session_ttl = ttl })
  unfolding get
  IsLoaded-entries laws d tx ttl d' b h e t =
      let v : get text_dec t (B.entries tx) ≡ laws.stored d t =
        laws.entries_view tx h t ∙ laws.begin_view d tx b t in
      let f = loop-get B by_login now t (B.entries tx) [] (laws.entries_distinct tx) in
      (
        f.0 ∙ ap (λ o. after B by_login now t o none) v,
        e t
            ∙ ap (λ x. if x then none else laws.stored d t)
                (f.1 ∙ ap (bad_entry B by_login now t) v)
            ∙ left_lem t (laws.stored d t),
      )

  no_deletion : (ks : List Text) → (length ks == 0) ≡ true → (t : Text) → mem t ks ≡ false
  no_deletion [] h t = refl
  no_deletion (k ∷ ks) h t = ground arith

  -- What the database holds at the end of a loading with no error.
  end_load-stored :
      (laws : BoltLaws B) (ds : Storage D) (tx : T) (ok : Bool) (m : Dict Text Session)
      (ks : List Text)
      → (ok ≡ true
          → (t : Text) → laws.pending tx t ≡ (if mem t ks then none else laws.stored ds.db t))
      → let o = end_load B by_login now ds tx m (if ok then some (length ks) else none) in
        o.1 ≡ true
        → ((t : Text) → laws.stored o.0.db t ≡ (if mem t ks then none else laws.stored ds.db t))
          × (o.0 ≡ record { db = o.0.db; sessions = m; session_ttl = ds.session_ttl })
  unfolding end_load
  end_load-stored laws ds tx false m ks p h = absurd (grind arith)
  end_load-stored laws ds tx true m ks p h = elim (Bool-cases (length ks == 0)) [
    | inl e ↦ (
      λ t. grind (arith, laws.rollback_view ds.db tx t, no_deletion ks e t),
      rw (end_load, e) refl,
    )
    | inr e ↦ (λ t. grind (arith, laws.commit_view ds.db tx, p refl t), rw (end_load, e) refl)
  ]

  load_cases :
      (laws : BoltLaws B) (ds : Storage D) (r : Storage D × Bool)
      → ((t v : Text) → laws.stored ds.db t ≡ some v → length t ≡ token_len)
      → load_sessions B by_login now ds ≡ some r
      → r.1 ≡ true
      → (tx : T) × (B.begin ds.db ≡ some tx)
        × (((B.has_bucket tx ≡ false) × (r.0 ≡ record ds { db = (B.rollback ds.db tx).0 }))
            ⊎ ((B.has_bucket tx ≡ true)
                × (let l = loop B by_login now (B.entries tx) ds.sessions in
                    let x = delete_all B by_login now tx l.1 in
                    r
                    ≡ end_load B by_login now ds x.0 l.0
                        (if x.1 then some (length l.1) else none))))
  unfolding load_sessions process_sessions
  load_cases laws ds r k h ok = elim (Option-cases (B.begin ds.db)) [
    | inl e ↦ absurd (grind arith)
    | inr (tx, e) ↦ (
      tx,
      e,
      elim (Bool-cases (B.has_bucket tx)) [
        | inl f ↦
            let tokens = get-HasTokens (B.entries tx) (λ t v g.
              k t v (sym (laws.entries_view tx f t ∙ laws.begin_view ds.db tx e t) ∙ g)) in
            let run = for_each-loop B by_login now (B.entries tx) ds.sessions tokens in
            inr (f, some-injective _ _ (sym (rw (load_sessions, e, f, process_sessions, run) at h)))
        | inr f ↦ inl (f, ap (λ x. x.0) (some-injective _ _ (sym (rw (load_sessions, e, f) at h))))
      ],
    )
  ]

  ok_of_new :
      (o : Option (Storage D × Bool)) (out : Storage D)
      → Option.map (λ r. if r.1 then some r.0 else none) o ≡ some (some out)
      → (r : Storage D × Bool) × (o ≡ some r) × (r.1 ≡ true) × (r.0 ≡ out)
  ok_of_new none out h = cc
  ok_of_new (some (ds, false)) out h = cc
  ok_of_new (some (ds, true)) out h =
      ((ds, true), refl, refl, some-injective _ _ (some-injective _ _ h))

  -- A start with no error from a database whose keys have the length of tokens, 16 bytes, takes over
  -- exactly the entries that decode, have not expired, and are of users that exist, and deletes the
  -- others from the database.
  pub load_sessions-IsLoaded :
      (laws : BoltLaws B) (d : D) (ttl : ℕ) (out : Storage D)
      → ((t v : Text) → laws.stored d t ≡ some v → length t ≡ token_len)
      → new_default_session_storage B by_login now (some d) ttl ≡ some (some out)
      → IsLoaded laws d out
  unfolding new_default_session_storage
  load_sessions-IsLoaded laws d ttl out k h =
      let ds : Storage D = record { db = d; sessions = []; session_ttl = ttl } in
      let (res, l, ok, o) = ok_of_new (load_sessions B by_login now ds) out h in
      let (tx, b, c) = load_cases laws ds res k l ok in
      subst (IsLoaded laws d) o (elim c [
        | inl (f, e) ↦
            IsLoaded-none laws d res.0
              (λ t. sym (laws.begin_view d tx b t) ∙ laws.no_bucket_view tx f t)
              (ap (λ s. s.sessions) e)
              (λ t. ap (λ s. laws.stored s.db t) e ∙ laws.rollback_view d tx t)
        | inr (f, e) ↦
            let r = loop B by_login now (B.entries tx) [] in
            let x = delete_all B by_login now tx r.1 in
            let p : x.1 ≡ true
                → (t : Text) → laws.pending x.0 t ≡ (if mem t r.1 then none else laws.stored d t) =
              λ w t.
                delete_all-pending B by_login now laws r.1 tx w t
                ∙ ap (λ y. if mem t r.1 then none else y) (laws.begin_view d tx b t) in
            let (g, q) = end_load-stored laws ds x.0 x.1 r.0 r.1 p (sym (ap (λ s. s.1) e) ∙ ok) in
            subst (IsLoaded laws d) (sym (ap (λ s. s.0) e ∙ q))
              (IsLoaded-entries laws d tx ttl _ b f g)
      ])

  good_loaded :
      (t v : Text) (s : Session)
      → length t ≡ token_len
      → good B by_login now t v ≡ some s
      → (r : Session) × (bbolt_decode v ≡ some r)
        × (s.token ≡ t)
        × (bbolt_encode s ≡ bbolt_encode r)
  unfolding good session_handler bbolt_encode
  good_loaded t v s k h = elim (Option-cases (bbolt_decode v)) [
    | inl e ↦ absurd (grind arith)
    | inr (r, e) ↦ (r, e, grind (arith, token_of-some t k), grind (arith, token_of-some t k))
  ]

  after-left-some :
      (t v : Text)
      → length t ≡ token_len
      → All IsByte v
      → (left t (some v) ≡ Option.map bbolt_encode (after B by_login now t (some v) none))
        × ((s : Session) → after B by_login now t (some v) none ≡ some s → s.token ≡ t)
  after-left-some t v k h = elim (Option-cases (good B by_login now t v)) [
    | inl e ↦ (grind arith, λ s q. grind arith)
    | inr (s, e) ↦
        let (r, d, n, c) = good_loaded t v s k e in
        let b : bbolt_encode s ≡ v = c ∙ bbolt_encode-decode v r h d in
        (grind (arith, b), λ x q. grind arith)
  ]

  after-left :
      (t : Text) (o : Option Text)
      → ((v : Text) → o ≡ some v → (length t ≡ token_len) × All IsByte v)
      → (left t o ≡ Option.map bbolt_encode (after B by_login now t o none))
        × ((s : Session) → after B by_login now t o none ≡ some s → s.token ≡ t)
  after-left t none h = (refl, λ s e. cc)
  after-left t (some v) h = after-left-some t v (h v refl).0 (h v refl).1

  -- A storage that starts from a database of bytes under tokens has the same sessions in its map and in its
  -- database.
  load_sessions-InSync :
      (laws : BoltLaws B) (d : D) (ttl : ℕ) (out : Storage D)
      → ((t v : Text) → laws.stored d t ≡ some v → (length t ≡ token_len) × All IsByte v)
      → new_default_session_storage B by_login now (some d) ttl ≡ some (some out)
      → InSync B laws out
  load_sessions-InSync laws d ttl out h e t =
      let (f, g) = load_sessions-IsLoaded laws d ttl out (λ j v g. (h j v g).0) e t in
      let (p, q) = after-left t (laws.stored d t) (h t) in
      (g ∙ p ∙ ap (Option.map bbolt_encode) (sym f), λ s r. q s (sym f ∙ r))

  after-good :
      (t v : Text) (s : Session) (u : User)
      → length t ≡ token_len
      → bbolt_decode v ≡ some s
      → now ≤ s.expire
      → by_login s.user_login ≡ some u
      → after B by_login now t (some v) none ≡ some (record s { token = t; user_id = u.id })
  unfolding good session_handler
  after-good t v s u k d l b = grind (arith, d, l, b, token_of-some t k)

  -- A session that was in sync with the database is there again after a restart that comes before
  -- its expiration, counted in whole seconds, when its user is still known under its login: with
  -- the identifier of that user, its token, its login, and that expiration. Tokens have 16 bytes, the
  -- login is shorter
  -- than 65536 bytes and the expiration, in seconds, fits in 32 bits.
  pub load_sessions-restores :
      (laws : BoltLaws B) (old out : Storage D) (t : Text) (s : Session) (u : User)
      → InSync B laws old
      → ((k : Text) (r : Session) → get text_dec k old.sessions ≡ some r → length k ≡ token_len)
      → new_default_session_storage B by_login now (some old.db) old.session_ttl ≡ some (some out)
      → get text_dec t old.sessions ≡ some s
      → length s.user_login < 65536
      → s.expire / second < 4294967296
      → now ≤ s.expire / second * second
      → by_login s.user_login ≡ some u
      → get text_dec t out.sessions
        ≡ some (record {
          expire = s.expire / second * second;
          user_login = s.user_login;
          token = t;
          user_id = u.id;
        })
  load_sessions-restores laws old out t s u i ts e g h k l b =
      let f : laws.stored old.db t ≡ some (bbolt_encode s) =
        (i t).0 ∙ ap (Option.map bbolt_encode) g in
      let d : bbolt_decode (bbolt_encode s) ≡ some (kept s) = bbolt_decode-encode s h k in
      let by_token : (j v : Text) → laws.stored old.db j ≡ some v → length j ≡ token_len = λ j v q.
        elim (Option-cases (get text_dec j old.sessions)) [
          | inl n ↦ absurd (grind (arith, (i j).0, q, n))
          | inr (x, n) ↦ ts j x n
        ] in
      let r = (load_sessions-IsLoaded laws old.db old.session_ttl out by_token e t).0 in
      r
      ∙ ap (λ o. after B by_login now t o none) f
      ∙ after-good t (bbolt_encode s) (kept s) u (ts t s g) d l b
