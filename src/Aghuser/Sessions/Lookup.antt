-- ===== src/Aghuser/Sessions/Lookup.antt =====
-- internal/aghuser/sessionstorage.go: which sessions are found, and the steps of a storage.
use gdns_server.Base.{
  ℕ, ◌+◌, ◌≤◌, ◌<◌, ◌≡◌, ◌≢◌, refl, sym, subst, ◌⊎◌, inl, inr, none, some, if◌then◌else◌, ltb,
  Bool-cases, Option-cases, arith, tests,
}
use gdns_server.Base.Dict.{Text, text_dec, get, delete, get-put_self, get-put_ne}
use gdns_server.Aghuser.{User, Session}
use gdns_server.Aghuser.Bolt.{Bolt, BoltLaws}
use gdns_server.Aghuser.Sessions.{
  Storage, Found, found, absent, failed, new_session, delete_by_token, find_by_token,
}
use gdns_server.Aghuser.Sessions.Sync.{
  InSync, new_session-InSync, delete_by_token-InSync, delete_by_token-cases,
}

module _ {D T : Type 0} (B : Bolt D T) where
  find-cases :
      (ds : Storage D) (t : Text) (now : ℕ)
      → ((s : Session) × (get text_dec t ds.sessions ≡ some s)
          × (now ≤ s.expire)
          × (find_by_token B ds t now ≡ (ds, found s)))
        ⊎ ((get text_dec t ds.sessions ≡ none) × (find_by_token B ds t now ≡ (ds, absent)))
        ⊎ ((s : Session) × (get text_dec t ds.sessions ≡ some s)
            × (s.expire < now)
            × (find_by_token B ds t now ≡ (
              (delete_by_token B ds t).0,
              if (delete_by_token B ds t).1 then absent else failed,
            )))
  unfolding find_by_token
  find-cases ds t now = elim (Option-cases (get text_dec t ds.sessions)) [
    | inl e ↦ inr (inl (e, rw (find_by_token, e) refl))
    | inr (s, e) ↦ elim (Bool-cases (ltb s.expire now)) [
      | inl l ↦ inr (inr (s, e, omega tests, rw (find_by_token, e, l) refl))
      | inr l ↦ inl (s, e, ground arith, rw (find_by_token, e, l) refl)
    ]
  ]

  -- What looking a token up at the time `now` gives, and the storage that it leaves.
  pub data Outcome (ds : Storage D) (t : Text) (now : ℕ) : Storage D × Found → Type 0 where
    live :
        (s : Session)
        → get text_dec t ds.sessions ≡ some s
        → now ≤ s.expire
        → Outcome ds t now (ds, found s)
    unknown : get text_dec t ds.sessions ≡ none → Outcome ds t now (ds, absent)
    gone :
        (s : Session) (ds' : Storage D)
        → get text_dec t ds.sessions ≡ some s
        → s.expire < now
        → ds'.sessions ≡ delete text_dec t ds.sessions
        → Outcome ds t now (ds', absent)
    not_deleted :
        (s : Session) (ds' : Storage D)
        → get text_dec t ds.sessions ≡ some s
        → s.expire < now
        → ds'.sessions ≡ ds.sessions
        → Outcome ds t now (ds', failed)

  -- Looking a token up has one of four outcomes. A session that has not expired is found, and stays.
  -- A token with no session finds none. A session that has expired is never found: it is deleted, or
  -- the deletion fails, and it stays in the map.
  pub find_by_token-Outcome :
      (ds : Storage D) (t : Text) (now : ℕ) → Outcome ds t now (find_by_token B ds t now)
  find_by_token-Outcome ds t now = elim (find-cases ds t now) [
    | inl (s, e, l, q) ↦ rw q (live s e l)
    | inr (inl (e, q)) ↦ rw q (unknown e)
    | inr (inr (s, e, l, q)) ↦ elim (delete_by_token-cases B ds t) [
      | inl (ok, d) ↦ rw (q, d) (gone s _ e l refl)
      | inr (bad, d) ↦ rw (q, d) (not_deleted s _ e l refl)
    ]
  ]

  -- A session that is created is found by its token, with the identifier and the login of its user,
  -- until its time to live has passed. The sessions of other tokens stay.
  find_by_token-new :
      (ds : Storage D) (token : Text) (now later : ℕ) (u : User) (s : Session)
      → later ≤ now + ds.session_ttl
      → (new_session B ds token now u).1 ≡ some s
      → ((find_by_token B (new_session B ds token now u).0 token later).1 ≡ found s)
        × (s.user_id ≡ u.id)
        × (s.user_login ≡ u.login)
        × ((t : Text)
            → token ≢ t
            → get text_dec t (new_session B ds token now u).0.sessions ≡ get text_dec t ds.sessions)
  unfolding new_session find_by_token
  find_by_token-new ds token now later u s h e =
      (grind (arith, get-put_self), grind arith, grind arith, λ t n. grind (arith, get-put_ne))

  -- The steps that a storage makes, whatever their results.
  pub data Step : Storage D → Storage D → Type 0 where
    created :
        (ds : Storage D) (token : Text) (now : ℕ) (u : User)
        → Step ds (new_session B ds token now u).0
    deleted : (ds : Storage D) (t : Text) → Step ds (delete_by_token B ds t).0
    looked_up : (ds : Storage D) (t : Text) (now : ℕ) → Step ds (find_by_token B ds t now).0

  pub data Steps : Storage D → Storage D → Type 0 where
    stay : (ds : Storage D) → Steps ds ds
    then_step : (a b c : Storage D) → Steps a b → Step b c → Steps a c

module _ {D T : Type 0} (B : Bolt D T) (laws : BoltLaws B) where
  Step-InSync : {a b : Storage D} → Step B a b → InSync B laws a → InSync B laws b
  Step-InSync (created ds token now u) h = new_session-InSync B laws ds token now u h
  Step-InSync (deleted ds t) h = delete_by_token-InSync B laws ds t h
  Step-InSync (looked_up ds t now) h = elim (find-cases B ds t now) [
    | inl (s, e, l, q) ↦ subst (λ r. InSync B laws r.0) (sym q) h
    | inr (inl (e, q)) ↦ subst (λ r. InSync B laws r.0) (sym q) h
    | inr (inr (s, e, l, q)) ↦
        subst (λ r. InSync B laws r.0) (sym q) (delete_by_token-InSync B laws ds t h)
  ]

  -- However sessions are created, looked up and deleted, and whichever of the calls of the database
  -- fail, the database goes on holding the encodings of the sessions of the map, and nothing else.
  pub Steps-InSync : {a b : Storage D} → Steps B a b → InSync B laws a → InSync B laws b
  Steps-InSync (stay ds) h = h
  Steps-InSync (then_step a b c xs x) h = Step-InSync x (Steps-InSync xs h)
