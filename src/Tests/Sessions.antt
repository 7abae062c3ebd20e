-- ===== src/Tests/Sessions.antt =====
-- Runs of internal/aghuser/sessionstorage.go: a session of a user, over a database in memory.
use gdns_server.Base.{
  ℕ, ◌+◌, ◌*◌, ◌/◌, ◌≡◌, ◌≢◌, refl, Bool, true, false, Option, none, some, List, [], ◌∷◌, ◌≤◌,
  arith, sym, ap, ◌∙◌, length, if_neg,
}
use gdns_server.Base.Dict.{Dict, Text, text_dec, get, put}
use gdns_server.Aghuser.{User, Session}
use gdns_server.Aghuser.Bolt.Memory.{memory, memory-BoltLaws, memory-stored}
use gdns_server.Aghuser.Sessions.{
  Storage, bbolt_encode, bbolt_decode, new_session, delete_by_token, find_by_token, second,
  new_default_session_storage, token_len,
}
use gdns_server.Aghuser.Sessions.Encoding.{kept, bbolt_decode-encode}
use gdns_server.Aghuser.Sessions.Sync.{InSync}
use gdns_server.Aghuser.Sessions.Lookup.{
  Outcome, find_by_token-Outcome, created, stay, then_step, Steps-InSync,
}
use gdns_server.Aghuser.Sessions.Load.{IsLoaded, load_sessions-IsLoaded, load_sessions-restores}

abbrev bob : User
bob = record { login = b'b' ∷ []; id = 1 ∷ [] }

abbrev token : Text
token = 7 ∷ 7 ∷ 7 ∷ 7 ∷ 7 ∷ 7 ∷ 7 ∷ 7 ∷ 7 ∷ 7 ∷ 7 ∷ 7 ∷ 7 ∷ 7 ∷ 7 ∷ 7 ∷ []

abbrev empty_storage : Storage (Dict Text Text)
empty_storage = record { db = []; sessions = []; session_ttl = 60 * second }

abbrev with_session : Storage (Dict Text Text)
with_session = (new_session memory empty_storage token (5 * second + 1) bob).0

abbrev session : Session
session = record {
  expire = 65 * second + 1;
  user_login = b'b' ∷ [];
  token = token;
  user_id = 1 ∷ [];
}

abbrev known_users : Text → Option User
known_users login = some bob

empty-InSync : InSync memory memory-BoltLaws empty_storage
unfolding get text_dec
empty-InSync t = (memory-stored [] t, λ s e. cc)

with_session-InSync : InSync memory memory-BoltLaws with_session
with_session-InSync =
    Steps-InSync memory memory-BoltLaws
      (then_step empty_storage empty_storage with_session (stay empty_storage)
        (created empty_storage token (5 * second + 1) bob))
      empty-InSync

Steps-InSync_example : InSync memory memory-BoltLaws with_session
Steps-InSync_example =
    Steps-InSync memory memory-BoltLaws
      (then_step empty_storage empty_storage with_session (stay empty_storage)
        (created empty_storage token (5 * second + 1) bob))
      empty-InSync

bbolt_decode-encode_example : bbolt_decode (bbolt_encode session) ≡ some (kept session)
bbolt_decode-encode_example = bbolt_decode-encode session (omega arith) (omega arith)

find_by_token-Outcome_example :
    Outcome memory with_session token
      (66 * second)
      (find_by_token memory with_session token (66 * second))
find_by_token-Outcome_example = find_by_token-Outcome memory with_session token (66 * second)

abbrev restarted : Storage (Dict Text Text)
restarted = record {
  db = with_session.db;
  sessions = put text_dec token (record session { expire = 65 * second }) [];
  session_ttl = 60 * second;
}

one_key :
    {V : Type 0} (v w : V) (k : Text)
    → get text_dec k ((token, v) ∷ []) ≡ some w
    → length k ≡ token_len
unfolding get
one_key v w k h = elim (text_dec token k) [
  | yes p ↦ ap length (sym p)
  | no n ↦ absurd (let e : none ≡ some w = sym (if_neg (text_dec token k) n _ _) ∙ h in cc)
]

db_tokens : (t v : Text) → memory-BoltLaws.stored with_session.db t ≡ some v → length t ≡ token_len
unfolding new_session gdns_server.Aghuser.Sessions.store gdns_server.Aghuser.Bolt.Memory.once put
    gdns_server.Base.Dict.delete
db_tokens t v h = one_key (bbolt_encode session) v t (sym (memory-stored with_session.db t) ∙ h)

session_tokens :
    (k : Text) (r : Session) → get text_dec k with_session.sessions ≡ some r → length k ≡ token_len
unfolding new_session gdns_server.Aghuser.Sessions.store gdns_server.Aghuser.Bolt.Memory.once put
    gdns_server.Base.Dict.delete
session_tokens k r h = one_key session r k h

load_sessions-IsLoaded_example :
    IsLoaded memory known_users (10 * second) memory-BoltLaws with_session.db restarted
unfolding new_default_session_storage gdns_server.Aghuser.Sessions.load_sessions
    gdns_server.Aghuser.Sessions.end_load gdns_server.Aghuser.Sessions.process_sessions
    gdns_server.Aghuser.Sessions.delete_all gdns_server.Aghuser.Sessions.for_each
    gdns_server.Aghuser.Bolt.Memory.once new_session put
    gdns_server.Aghuser.Sessions.session_handler bbolt_decode gdns_server.Base.Dict.delete
load_sessions-IsLoaded_example =
    load_sessions-IsLoaded memory known_users (10 * second) memory-BoltLaws with_session.db
      (60 * second) restarted db_tokens refl

load_sessions-restores_example :
    get text_dec token restarted.sessions
    ≡ some (record {
      expire = session.expire / second * second;
      user_login = session.user_login;
      token = token;
      user_id = bob.id;
    })
unfolding new_default_session_storage gdns_server.Aghuser.Sessions.load_sessions
    gdns_server.Aghuser.Sessions.end_load gdns_server.Aghuser.Sessions.process_sessions
    gdns_server.Aghuser.Sessions.delete_all gdns_server.Aghuser.Sessions.for_each
    gdns_server.Aghuser.Bolt.Memory.once new_session put
    gdns_server.Aghuser.Sessions.session_handler bbolt_decode gdns_server.Base.Dict.delete get
    text_dec
load_sessions-restores_example =
    load_sessions-restores memory known_users (10 * second) memory-BoltLaws with_session restarted
      token session bob with_session-InSync session_tokens refl refl (omega arith) (omega arith)
      (omega arith) refl
