-- ===== src/Aghuser/Sessions/Sync.antt =====
-- internal/aghuser/sessionstorage.go: the map of sessions and the database stay the same.
use mathlib.Core.Option
use gdns_server.Base.{
  ℕ, ◌+◌, ◌≡◌, refl, sym, ap, subst, ◌∙◌, ◌⊎◌, inl, inr, ite, true, false, none, some, Bool-cases,
  Option-cases, arith,
}
use gdns_server.Base.Dict.{Text, text_dec, get, put, delete, get-put, get-delete}
use gdns_server.Aghuser.{User, Session}
use gdns_server.Aghuser.Bolt.{Bolt, BoltLaws}
use gdns_server.Aghuser.Sessions.{
  Storage, session_of, bbolt_encode, store, remove, new_session, delete_by_token,
}

module _ {D T : Type 0} (B : Bolt D T) where
  -- The two results of `New`.
  pub new_session-cases :
      (ds : Storage D) (token : Text) (now : ℕ) (u : User)
      → let s = session_of token (now + ds.session_ttl) u in
        (((store B ds.db s).1 ≡ true)
          × (new_session B ds token now u ≡ (
            record ds { db = (store B ds.db s).0; sessions = put text_dec token s ds.sessions },
            some s,
          )))
        ⊎ (((store B ds.db s).1 ≡ false)
            × (new_session B ds token now u ≡ (record ds { db = (store B ds.db s).0 }, none)))
  unfolding new_session
  new_session-cases ds token now u =
      elim (Bool-cases (store B ds.db (session_of token (now + ds.session_ttl) u)).1) [
        | inl e ↦ inl (e, rw (new_session, e) refl)
        | inr e ↦ inr (e, rw (new_session, e) refl)
      ]

  pub delete_by_token-cases :
      (ds : Storage D) (t : Text)
      → (((remove B ds.db t).1 ≡ true)
          × (delete_by_token B ds t ≡ (
            record ds { db = (remove B ds.db t).0; sessions = delete text_dec t ds.sessions },
            true,
          )))
        ⊎ (((remove B ds.db t).1 ≡ false)
            × (delete_by_token B ds t ≡ (record ds { db = (remove B ds.db t).0 }, false)))
  unfolding delete_by_token
  delete_by_token-cases ds t = elim (Bool-cases (remove B ds.db t).1) [
    | inl e ↦ inl (e, rw (delete_by_token, e) refl)
    | inr e ↦ inr (e, rw (delete_by_token, e) refl)
  ]

module _ {D T : Type 0} (B : Bolt D T) (laws : BoltLaws B) where
  -- The database holds the encoding of each session of the map, under its token, and nothing else.
  abbrev pub InSync : Storage D → Type 0
  InSync ds =
      (t : Text)
      → (laws.stored ds.db t ≡ Option.map bbolt_encode (get text_dec t ds.sessions))
        × ((s : Session) → get text_dec t ds.sessions ≡ some s → s.token ≡ t)

  -- A `store` with no error commits a transaction that has created the bucket and put the entry.
  store_done :
      (d : D) (s : Session)
      → (store B d s).1 ≡ true
      → (tx : T) × (bkt : T) × (done : T) × (B.begin d ≡ some tx)
        × (B.create_bucket tx ≡ some bkt)
        × (B.put_key bkt s.token (bbolt_encode s) ≡ some done)
        × (store B d s ≡ B.commit d done)
  unfolding store
  store_done d s h = elim (Option-cases (B.begin d)) [
    | inl e ↦ absurd (grind arith)
    | inr (tx, e) ↦ elim (Option-cases (B.create_bucket tx)) [
      | inl f ↦ absurd (grind arith)
      | inr (bkt, f) ↦ elim (Option-cases (B.put_key bkt s.token (bbolt_encode s))) [
        | inl g ↦ absurd (grind arith)
        | inr (done, g) ↦ (tx, bkt, done, e, f, g, rw (store, e, f, g) refl)
      ]
    ]
  ]

  store_ok :
      (d : D) (s : Session)
      → (store B d s).1 ≡ true
      → (k : Text)
      → laws.stored (store B d s).0 k
        ≡ ite (text_dec s.token k) (some (bbolt_encode s)) (laws.stored d k)
  store_ok d s h k =
      let (tx, bkt, done, e, f, g, c) = store_done d s h in
      ap (λ r. laws.stored r.0 k) c
      ∙ laws.commit_view d done (ap (λ r. r.1) (sym c) ∙ h) k
      ∙ laws.put_view bkt done s.token (bbolt_encode s) g k
      ∙ ap (ite (text_dec s.token k) (some (bbolt_encode s)))
          (laws.create_view tx bkt f k ∙ laws.begin_view d tx e k)

  store_failed :
      (d : D) (s : Session)
      → (store B d s).1 ≡ false
      → (k : Text) → laws.stored (store B d s).0 k ≡ laws.stored d k
  unfolding store
  store_failed d s h k = grind (arith, laws.commit_failed, laws.rollback_view)

  remove_done :
      (d : D) (t : Text)
      → (remove B d t).1 ≡ true
      → (tx : T) × (done : T) × (B.begin d ≡ some tx)
        × (B.delete_key tx t ≡ some done)
        × (remove B d t ≡ B.commit d done)
  unfolding remove
  remove_done d t h = elim (Option-cases (B.begin d)) [
    | inl e ↦ absurd (grind arith)
    | inr (tx, e) ↦ elim (Bool-cases (B.has_bucket tx)) [
      | inr f ↦ absurd (grind arith)
      | inl f ↦ elim (Option-cases (B.delete_key tx t)) [
        | inl g ↦ absurd (grind arith)
        | inr (done, g) ↦ (tx, done, e, g, rw (remove, e, f, g) refl)
      ]
    ]
  ]

  remove_ok :
      (d : D) (t : Text)
      → (remove B d t).1 ≡ true
      → (k : Text) → laws.stored (remove B d t).0 k ≡ ite (text_dec t k) none (laws.stored d k)
  remove_ok d t h k =
      let (tx, done, e, g, c) = remove_done d t h in
      ap (λ r. laws.stored r.0 k) c
      ∙ laws.commit_view d done (ap (λ r. r.1) (sym c) ∙ h) k
      ∙ laws.delete_view tx done t g k
      ∙ ap (ite (text_dec t k) none) (laws.begin_view d tx e k)

  remove_failed :
      (d : D) (t : Text)
      → (remove B d t).1 ≡ false
      → (k : Text) → laws.stored (remove B d t).0 k ≡ laws.stored d k
  unfolding remove
  remove_failed d t h k = grind (arith, laws.commit_failed, laws.rollback_view)

  put-InSync :
      (ds : Storage D) (d : D) (s : Session)
      → InSync ds
      → ((k : Text)
          → laws.stored d k
            ≡ ite (text_dec s.token k) (some (bbolt_encode s)) (laws.stored ds.db k))
      → InSync (record ds { db = d; sessions = put text_dec s.token s ds.sessions })
  put-InSync ds d s h e t = (grind (arith, e, h, get-put), λ r q. grind (arith, h, get-put))

  delete-InSync :
      (ds : Storage D) (d : D) (t : Text)
      → InSync ds
      → ((k : Text) → laws.stored d k ≡ ite (text_dec t k) none (laws.stored ds.db k))
      → InSync (record ds { db = d; sessions = delete text_dec t ds.sessions })
  delete-InSync ds d t h e k =
      (grind (arith, e, h, get-delete), λ r q. grind (arith, h, get-delete))

  same-InSync :
      (ds : Storage D) (d : D)
      → InSync ds
      → ((k : Text) → laws.stored d k ≡ laws.stored ds.db k)
      → InSync (record ds { db = d })
  same-InSync ds d h e k = (e k ∙ (h k).0, (h k).1)

  -- Creating a session and deleting one, with an error or without one, keep the map and the
  -- database the same.
  pub new_session-InSync :
      (ds : Storage D) (token : Text) (now : ℕ) (u : User)
      → InSync ds
      → InSync (new_session B ds token now u).0
  new_session-InSync ds token now u h =
      let s = session_of token (now + ds.session_ttl) u in
      elim (new_session-cases B ds token now u) [
        | inl (ok, e) ↦
            subst (λ r. InSync r.0) (sym e)
              (put-InSync ds (store B ds.db s).0 s h (store_ok ds.db s ok))
        | inr (bad, e) ↦
            subst (λ r. InSync r.0) (sym e)
              (same-InSync ds (store B ds.db s).0 h (store_failed ds.db s bad))
      ]

  pub delete_by_token-InSync :
      (ds : Storage D) (t : Text) → InSync ds → InSync (delete_by_token B ds t).0
  delete_by_token-InSync ds t h = elim (delete_by_token-cases B ds t) [
    | inl (ok, e) ↦
        subst (λ r. InSync r.0) (sym e)
          (delete-InSync ds (remove B ds.db t).0 t h (remove_ok ds.db t ok))
    | inr (bad, e) ↦
        subst (λ r. InSync r.0) (sym e)
          (same-InSync ds (remove B ds.db t).0 h (remove_failed ds.db t bad))
  ]
