-- ===== src/Aghuser/Users.antt =====
-- internal/aghuser/db.go: the users by login and by identifier. The mutex makes each method one
-- step.
use gdns_server.Base.{
  ◌≡◌, refl, sym, subst, ◌⊎◌, inl, inr, ite, ◌≢◌, Option, none, some, [], Option-cases, arith,
}
use gdns_server.Base.Dict.{Dict, Text, text_dec, get, put, get-put}
use gdns_server.Aghuser.{User, zero_id}

pub record DefaultDb : Type 0 where
  pub login_to_user_id : Dict Text Text
  pub user_id_to_user : Dict Text User

pub data CreateError : Type 0 where
  empty_id : CreateError
  duplicated_id : CreateError
  duplicated_login : CreateError

-- `ByLogin` gives no user, a user, or panics on a login with no user.
pub data Lookup : Type 0 where
  missing : Lookup
  present : User → Lookup
  panicked : Lookup

pub new_default_db : DefaultDb
new_default_db = record { login_to_user_id = []; user_id_to_user = [] }

pub by_login : DefaultDb → Text → Lookup
by_login db login = elim (get text_dec login db.login_to_user_id) [
  | none ↦ missing
  | some id ↦ elim (get text_dec id db.user_id_to_user) [ none ↦ panicked | some u ↦ present u ]
]

by_uuid : DefaultDb → Text → Option User
by_uuid db id = get text_dec id db.user_id_to_user

-- The database, and the error.
pub create : DefaultDb → User → DefaultDb × Option CreateError
create db u =
    ite (text_dec u.id zero_id) (db, some empty_id)
      (elim (get text_dec u.id db.user_id_to_user) [
        | some v ↦ (db, some duplicated_id)
        | none ↦ elim (get text_dec u.login db.login_to_user_id) [
          | some id ↦ (db, some duplicated_login)
          | none ↦ (
            record {
              login_to_user_id = put text_dec u.login u.id db.login_to_user_id;
              user_id_to_user = put text_dec u.id u db.user_id_to_user;
            },
            none,
          )
        ]
      ])

-- A login is stored with the identifier of a user of that login, and a user is stored under its
-- identifier, by its login as well.
abbrev pub Synchronized : DefaultDb → Type 0
Synchronized db =
    ((login id : Text)
      → get text_dec login db.login_to_user_id ≡ some id
      → (u : User) × (get text_dec id db.user_id_to_user ≡ some u) × (u.login ≡ login))
    × ((id : Text) (u : User)
        → get text_dec id db.user_id_to_user ≡ some u
        → (u.id ≡ id) × (get text_dec u.login db.login_to_user_id ≡ some id))

-- What `Create` does: an error leaves the database, and otherwise the new user is in it, under a
-- login and an identifier that were free.
create-cases :
    (db : DefaultDb) (u : User)
    → ((e : CreateError) × (create db u ≡ (db, some e)))
      ⊎ ((get text_dec u.id db.user_id_to_user ≡ none)
          × (get text_dec u.login db.login_to_user_id ≡ none)
          × (create db u ≡ (
            record {
              login_to_user_id = put text_dec u.login u.id db.login_to_user_id;
              user_id_to_user = put text_dec u.id u db.user_id_to_user;
            },
            none,
          )))
unfolding create
create-cases db u = grind arith

added-Synchronized :
    (db : DefaultDb) (u : User)
    → Synchronized db
    → get text_dec u.id db.user_id_to_user ≡ none
    → get text_dec u.login db.login_to_user_id ≡ none
    → Synchronized (record {
      login_to_user_id = put text_dec u.login u.id db.login_to_user_id;
      user_id_to_user = put text_dec u.id u db.user_id_to_user;
    })
added-Synchronized db u (f, g) h k = (
  λ login id e. elim (text_dec u.login login) [
    | yes p ↦
        let q : u.id ≡ id =
          grind (arith, get-put text_dec u.login login u.id db.login_to_user_id) in
        (u, grind (arith, get-put text_dec u.id id u db.user_id_to_user), p)
    | no n ↦
        let (v, a, b) =
          f login id (grind (arith, get-put text_dec u.login login u.id db.login_to_user_id)) in
        (v, grind (arith, get-put text_dec u.id id u db.user_id_to_user), b)
  ],
  λ id v e. elim (text_dec u.id id) [
    | yes p ↦
        let q : u ≡ v = grind (arith, get-put text_dec u.id id u db.user_id_to_user) in
        (grind arith, grind (arith, get-put text_dec u.login v.login u.id db.login_to_user_id))
    | no n ↦
        let (a, b) = g id v (grind (arith, get-put text_dec u.id id u db.user_id_to_user)) in
        (a, grind (arith, get-put text_dec u.login v.login u.id db.login_to_user_id))
  ],
)

-- The two maps of users stay synchronized when a user is created or refused.
pub create-Synchronized :
    (db : DefaultDb) (u : User) → Synchronized db → Synchronized (create db u).0
create-Synchronized db u h = elim (create-cases db u) [
  | inl (e, q) ↦ subst (λ r. Synchronized r.0) (sym q) h
  | inr (a, b, q) ↦ subst (λ r. Synchronized r.0) (sym q) (added-Synchronized db u h a b)
]

-- While the maps are synchronized, looking a login up does not panic: it finds a user of that
-- login, whom the lookup by identifier finds as well, or there is no user of that login.
by_login-Synchronized :
    (db : DefaultDb) (login : Text)
    → Synchronized db
    → ((u : User) × (by_login db login ≡ present u)
        × (u.login ≡ login)
        × (by_uuid db u.id ≡ some u))
      ⊎ ((by_login db login ≡ missing)
          × ((u : User) (id : Text) → by_uuid db id ≡ some u → u.login ≢ login))
unfolding by_login by_uuid
by_login-Synchronized db login (f, g) =
    elim (Option-cases (get text_dec login db.login_to_user_id)) [
      | inl e ↦ inr (rw (by_login, e) refl, λ u id h q. grind (arith, g id u))
      | inr (id, e) ↦
          let (u, p, q) = f login id e in
          inl (u, rw (by_login, e, p) refl, q, grind (arith, g id u))
    ]
