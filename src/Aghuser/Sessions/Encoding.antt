-- ===== src/Aghuser/Sessions/Encoding.antt =====
-- internal/aghuser/sessionstorage.go: sessions as entries of the database, there and back.
use mathlib.Core.Path.{ap₂}
use gdns_server.Base.{
  ℕ, ◌*◌, ◌/◌, ◌%◌, ◌<◌, ◌≡◌, refl, sym, ap, ◌∙◌, Bool, true, false, none, some, [], ◌∷◌, ◌++◌,
  if◌then◌else◌, ◌==◌, length, All, arith, ==_iff,
}
use gdns_server.Base.Dict.{Text}
use gdns_server.Aghuser.{Session, zero_id}
use gdns_server.Aghuser.Sessions.{
  second, big_endian, put_uint32, put_uint16, bbolt_decode, bbolt_encode,
}

-- What an entry keeps of a session: its login, and its expiration in whole seconds.
abbrev pub kept : Session → Session
kept s = record {
  expire = s.expire / second * second;
  user_login = s.user_login;
  token = zero_id;
  user_id = zero_id;
}

put_uint32_lem : (n : ℕ) → n < 4294967296 → big_endian 0 (put_uint32 n) ≡ n
unfolding put_uint32 big_endian
put_uint32_lem n h = omega arith

put_uint16_lem : (n : ℕ) → n < 65536 → big_endian 0 (put_uint16 n) ≡ n
unfolding put_uint16 big_endian
put_uint16_lem n h = omega arith

-- An entry of six bytes and a login, taken apart.
decode_bytes :
    (a b c d e f : ℕ) (name : Text)
    → bbolt_decode (a ∷ b ∷ c ∷ d ∷ e ∷ f ∷ name) ≡ (
        if length name == big_endian 0 (e ∷ f ∷ [])
        then some (record {
          expire = big_endian 0 (a ∷ b ∷ c ∷ d ∷ []) * second;
          user_login = name;
          token = zero_id;
          user_id = zero_id;
        })
        else none)
unfolding bbolt_decode
decode_bytes a b c d e f name = ground arith

decode_put :
    (n m : ℕ) (name : Text)
    → n < 4294967296
    → m < 65536
    → m ≡ length name
    → bbolt_decode (put_uint32 n ++ put_uint16 m ++ name)
      ≡ some (record { expire = n * second; user_login = name; token = zero_id; user_id = zero_id })
unfolding put_uint32 put_uint16
decode_put n m name h k e =
    decode_bytes _ _ _ _ _ _ name ∙ ground (arith, (put_uint32_lem n h), (put_uint16_lem m k))

-- A session whose login has less than 65536 bytes and whose expiration, in seconds, fits in 32 bits
-- is read back from its entry with the same login and its expiration in whole seconds.
pub bbolt_decode-encode :
    (s : Session)
    → length s.user_login < 65536
    → s.expire / second < 4294967296
    → bbolt_decode (bbolt_encode s) ≡ some (kept s)
unfolding bbolt_encode
bbolt_decode-encode s h k =
    let e : s.expire / second % 4294967296 ≡ s.expire / second = omega arith in
    let l : length s.user_login % 65536 ≡ length s.user_login = omega arith in
    rw (bbolt_encode, e, l)
      (decode_put (s.expire / second) (length s.user_login) s.user_login k h refl)

-- A byte.
abbrev pub IsByte : ℕ → Type 0
IsByte b = b < 256

list₄ :
    {a b c d e f g h : ℕ}
    → a ≡ e
    → b ≡ f
    → c ≡ g
    → d ≡ h
    → Path Text (a ∷ b ∷ c ∷ d ∷ []) (e ∷ f ∷ g ∷ h ∷ [])
list₄ p q r s = cc

put_uint32-bytes :
    (a b c d : ℕ)
    → All IsByte (a ∷ b ∷ c ∷ d ∷ [])
    → put_uint32 (big_endian 0 (a ∷ b ∷ c ∷ d ∷ [])) ≡ a ∷ b ∷ c ∷ d ∷ []
unfolding put_uint32 big_endian
put_uint32-bytes a b c d h = list₄ (omega arith) (omega arith) (omega arith) (omega arith)

put_uint16-bytes :
    (a b : ℕ) → All IsByte (a ∷ b ∷ []) → put_uint16 (big_endian 0 (a ∷ b ∷ [])) ≡ a ∷ b ∷ []
unfolding put_uint16 big_endian
put_uint16-bytes a b h = ap₂ (λ x y. x ∷ y ∷ []) (omega arith) (omega arith)

big_endian-bound :
    (a b c d : ℕ) → All IsByte (a ∷ b ∷ c ∷ d ∷ []) → big_endian 0 (a ∷ b ∷ c ∷ d ∷ []) < 4294967296
unfolding big_endian
big_endian-bound a b c d h = omega arith

if_some :
    {A : Type 0} (b : Bool) (x s : A) → (if b then some x else none) ≡ some s → (b ≡ true) × (x ≡ s)
if_some true x s h = (refl, cc)
if_some false x s h = cc

encode_lem :
    (n m : ℕ) (name : Text)
    → n < 4294967296
    → m < 65536
    → length name ≡ m
    → bbolt_encode
        (record { expire = n * second; user_login = name; token = zero_id; user_id = zero_id })
      ≡ put_uint32 n ++ put_uint16 m ++ name
unfolding bbolt_encode
encode_lem n m name h k e =
    let p : n * second / second % 4294967296 ≡ n = omega arith in
    let q : length name % 65536 ≡ m = omega arith in rw (bbolt_encode, p, q) refl

-- The encoding of what six bytes and a login decode to.
encode_bytes :
    (a b c d e f : ℕ) (name : Text) (s : Session)
    → All IsByte (a ∷ b ∷ c ∷ d ∷ [])
    → All IsByte (e ∷ f ∷ [])
    → bbolt_decode (a ∷ b ∷ c ∷ d ∷ e ∷ f ∷ name) ≡ some s
    → bbolt_encode s ≡ a ∷ b ∷ c ∷ d ∷ e ∷ f ∷ name
unfolding big_endian
encode_bytes a b c d e f name s h k q =
    let (l, p) = if_some _ _ s (sym (decode_bytes a b c d e f name) ∙ q) in
    ap bbolt_encode (sym p)
    ∙ encode_lem (big_endian 0 (a ∷ b ∷ c ∷ d ∷ [])) (big_endian 0 (e ∷ f ∷ [])) name
        (big_endian-bound a b c d h) (omega arith) ((==_iff _ _).0 l)
    ∙ ap₂ (λ x y. x ++ y ++ name) (put_uint32-bytes a b c d h) (put_uint16-bytes e f k)

-- An entry of bytes that decodes is the encoding of the session that it decodes to, so that no two
-- entries decode to the same session.
pub bbolt_encode-decode :
    (bytes : Text) (s : Session)
    → All IsByte bytes
    → bbolt_decode bytes ≡ some s
    → bbolt_encode s ≡ bytes
unfolding bbolt_decode
bbolt_encode-decode [] s h e = cc
bbolt_encode-decode (a ∷ []) s h e = cc
bbolt_encode-decode (a ∷ b ∷ []) s h e = cc
bbolt_encode-decode (a ∷ b ∷ c ∷ []) s h e = cc
bbolt_encode-decode (a ∷ b ∷ c ∷ d ∷ []) s h e = cc
bbolt_encode-decode (a ∷ b ∷ c ∷ d ∷ f ∷ []) s h e = cc
bbolt_encode-decode (a ∷ b ∷ c ∷ d ∷ f ∷ g ∷ name) s h e =
    encode_bytes a b c d f g name s (h.0, (h.1.0, (h.1.1.0, (h.1.1.1.0, tt))))
      (h.1.1.1.1.0, (h.1.1.1.1.1.0, tt)) e
