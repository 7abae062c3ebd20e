-- ===== src/Aghuser/Sessions.antt =====
-- internal/aghuser/sessionstorage.go: the sessions of web users, in memory and in a database. The
-- clock is an argument `now`, `rand.Read` is the argument `token`, each method is one step, also where
-- it calls the database outside of its mutex, and the database is an interface. A record's error is a flag or `none`.
pub mod Encoding
pub mod Sync
pub mod Lookup
pub mod Entries
pub mod Load
use mathlib.Core.Option
use gdns_server.Base.{
  ℕ, ◌+◌, ◌*◌, ◌/◌, ◌%◌, ◌≡◌, Bool, true, false, ◌&&◌, not, Option, none, some, List, [], ◌∷◌, ◌++◌,
  if◌then◌else◌, ltb, ◌==◌, length, take, drop,
}
use gdns_server.Base.Dict.{Dict, Text, text_dec, get, put, delete}
use gdns_server.Aghuser.{User, Session, zero_id}
use gdns_server.Aghuser.Bolt.{Bolt}

abbrev pub second : ℕ
second = 1000000000

abbrev expire_len : ℕ
expire_len = 4

abbrev name_len : ℕ
name_len = 2

-- `binary.BigEndian`
pub put_uint32 : ℕ → Text
put_uint32 n = n / 16777216 % 256 ∷ n / 65536 % 256 ∷ n / 256 % 256 ∷ n % 256 ∷ []

pub put_uint16 : ℕ → Text
put_uint16 n = n / 256 % 256 ∷ n % 256 ∷ []

-- The number whose bytes these are, from the highest to the lowest.
big_endian : ℕ → Text → ℕ
big_endian acc [] = acc
big_endian acc (b ∷ bs) = big_endian (acc * 256 + b) bs

unfoldable pub bbolt_decode : Text → Option Session
unfolding big_endian
bbolt_decode bytes =
    if ltb (length bytes) (expire_len + name_len)
    then none
    else let expire_data = take expire_len bytes in
      let name_len_data = take name_len (drop expire_len bytes) in
      let name_data = drop name_len (drop expire_len bytes) in
      if not (length name_data == big_endian 0 name_len_data)
      then none
      else some (record {
        expire = big_endian 0 expire_data * second;
        user_login = name_data;
        token = zero_id;
        user_id = zero_id;
      })

-- `uint32(s.Expire.Unix())` and `uint16(len(s.UserLogin))` keep the low bits.
pub bbolt_encode : Session → Text
unfolding put_uint32 put_uint16
bbolt_encode s =
    put_uint32 (s.expire / second % 4294967296)
    ++ put_uint16 (length s.user_login % 65536)
    ++ s.user_login

-- The state: the database and the map of sessions.
pub record Storage (D : Type 0) : Type 0 where
  pub db : D
  pub sessions : Dict Text Session
  pub session_ttl : ℕ

-- The session that `New` makes.
abbrev pub session_of : Text → ℕ → User → Session
session_of token expire u = record {
  expire = expire;
  user_login = u.login;
  token = token;
  user_id = u.id;
}

-- The results of `FindByToken`.
pub data Found : Type 0 where
  found : Session → Found
  absent : Found
  failed : Found

-- What an entry of the database is good for.
pub data Entry : Type 0 where
  invalid : Entry
  panicked : Entry
  loaded : Session → Entry

abbrev pub token_len : ℕ
token_len = 16

-- `SessionToken(k)`, of a slice: `none` is the panic at a slice that is too short.
unfoldable pub token_of : Text → Option Text
token_of k = if ltb (length k) token_len then none else some (take token_len k)

module _ {D T : Type 0} (B : Bolt D T) where
  -- The database, and whether there is no error.
  unfoldable pub store : D → Session → D × Bool
  unfolding bbolt_encode
  store d s = elim (B.begin d) [
    | none ↦ (d, false)
    | some tx ↦ elim (B.create_bucket tx) [
      | none ↦ ((B.rollback d tx).0, false)
      | some bkt ↦ elim (B.put_key bkt s.token (bbolt_encode s)) [
        | none ↦ ((B.rollback d bkt).0, false)
        | some done ↦ B.commit d done
      ]
    ]
  ]

  unfoldable pub remove : D → Text → D × Bool
  remove d t = elim (B.begin d) [
    | none ↦ (d, false)
    | some tx ↦
        if not (B.has_bucket tx) then ((B.rollback d tx).0, false) else elim (B.delete_key tx t) [
          | none ↦ ((B.rollback d tx).0, false)
          | some done ↦ B.commit d done
        ]
  ]

  unfoldable pub new_session : Storage D → Text → ℕ → User → Storage D × Option Session
  unfolding store
  new_session ds token now u =
      let s = session_of token (now + ds.session_ttl) u in
      let (d, ok) = store ds.db s in
      if not ok
      then (record ds { db = d }, none)
      else (record ds { db = d; sessions = put text_dec token s ds.sessions }, some s)

  pub delete_by_token : Storage D → Text → Storage D × Bool
  unfolding remove
  delete_by_token ds t =
      let (d, ok) = remove ds.db t in
      if not ok
      then (record ds { db = d }, false)
      else (record ds { db = d; sessions = delete text_dec t ds.sessions }, true)

  pub find_by_token : Storage D → Text → ℕ → Storage D × Found
  unfolding delete_by_token
  find_by_token ds t now = elim (get text_dec t ds.sessions) [
    | none ↦ (ds, absent)
    | some s ↦
        let (ds', ok) = delete_by_token ds t in
        if ltb s.expire now then (ds', if ok then absent else failed) else (ds, found s)
  ]

  -- `by_login` is the `ByLogin` of the users' database, which never returns an error.
  module _ (by_login : Text → Option User) (now : ℕ) where
    unfoldable pub session_handler : Text → Text → Entry
    unfolding token_of
    session_handler k v = elim (bbolt_decode v) [
      | none ↦ invalid
      | some s ↦ if ltb s.expire now then invalid else elim (by_login s.user_login) [
        | none ↦ invalid
        | some u ↦ elim (token_of k) [
          | none ↦ panicked
          | some t ↦ loaded (record s { token = t; user_id = u.id })
        ]
      ]
    ]

    -- The loop of `ForEach`: the sessions of the map and the keys of the invalid entries. `none` is a
    -- panic, in this and in what calls it.
    unfoldable pub for_each :
        Dict Text Text → Dict Text Session → Option (Dict Text Session × List Text)
    unfolding session_handler
    for_each [] m = some (m, [])
    for_each ((k, v) ∷ rest) m =
        let skip = for_each rest m in
        elim (session_handler k v) [
          | invalid ↦ Option.map (λ r. (r.0, k ∷ r.1)) skip
          | panicked ↦ none
          | loaded s ↦ for_each rest (put text_dec s.token s m)
        ]

    -- Every deletion is tried; one error is enough for an error of them all.
    unfoldable pub delete_all : T → List Text → T × Bool
    delete_all bkt [] = (bkt, true)
    delete_all bkt (k ∷ ks) = elim (B.delete_key bkt k) [
      | none ↦ ((delete_all bkt ks).0, false)
      | some bkt' ↦ delete_all bkt' ks
    ]

    -- The bucket and the map after the loop and the deletions, and the number of deletions, or
    -- `none` for an error.
    unfoldable pub process_sessions :
        T → Dict Text Session → Option (T × Dict Text Session × Option ℕ)
    process_sessions bkt m =
        Option.map
          (λ r.
            let (bkt', ok) = delete_all bkt r.1 in
            (bkt', r.0, if ok then some (length r.1) else none))
          (for_each (B.entries bkt) m)

    -- The end of `loadSessions`: a rollback after an error and after no deletion.
    unfoldable pub end_load : Storage D → T → Dict Text Session → Option ℕ → Storage D × Bool
    end_load ds tx m none =
        (record { db = (B.rollback ds.db tx).0; sessions = m; session_ttl = ds.session_ttl }, false)
    end_load ds tx m (some removed) =
        let (d, fine) = if removed == 0 then B.rollback ds.db tx else B.commit ds.db tx in
        (record { db = d; sessions = m; session_ttl = ds.session_ttl }, fine)

    unfoldable pub load_sessions : Storage D → Option (Storage D × Bool)
    load_sessions ds = elim (B.begin ds.db) [
      | none ↦ some (ds, false)
      | some tx ↦
          let (d, fine) = B.rollback ds.db tx in
          let loaded_all =
            Option.map (λ r. end_load ds r.0 r.1 r.2) (process_sessions tx ds.sessions) in
          if B.has_bucket tx then loaded_all else some (record ds { db = d }, fine)
    ]

    -- `some none` is an error. `d` is the database that `bbolt.Open` gives, if it does.
    unfoldable pub new_default_session_storage : Option D → ℕ → Option (Option (Storage D))
    new_default_session_storage none ttl = some none
    new_default_session_storage (some d) ttl =
        Option.map (λ r. if r.1 then some r.0 else none)
          (load_sessions (record { db = d; sessions = []; session_ttl = ttl }))
