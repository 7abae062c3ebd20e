-- ===== src/RateLimiter/Blocking.antt =====
-- When the limiter of internal/home/authratelimiter.go blocks a user, and for how long.
use gdns_server.Base.{
  ℕ, zero, suc, sym, subst, refl, All, ◌+◌, ◌-◌, ◌≤◌, ◌<◌, ◌≡◌, ◌≢◌, Option, none, some, List, [],
  ◌∷◌, arith, length, ltb, if◌then◌else◌, Option-cases, inl, inr,
}
use gdns_server.Base.Dict.{
  Dict, Text, text_dec, get, put, delete, get-put_self, get-put_ne, get-delete_self, get-delete_ne,
}
use gdns_server.Base.Int.{pos, ◌≤ℤ◌}
use gdns_server.RateLimiter.{
  FailedAuth, AuthRateLimiter, uint_mod, failed_auth_ttl, next_until, drop_expired, cleanup_locked,
  check_locked, check, next_num, next_entry, inc, remove,
}

-- What the clean-up leaves has not expired.
drop_expired_fresh :
    (k : Text) (now : ℕ) (m : Dict Text FailedAuth) (a : FailedAuth)
    → get text_dec k (drop_expired now m) ≡ some a
    → now ≤ a.until
unfolding get drop_expired
drop_expired_fresh k now [] a h = ground arith
drop_expired_fresh k now ((j, v) ∷ m) a h = ground (arith, drop_expired_fresh k now m a)

drop_expired-none :
    (k : Text) (now : ℕ) (m : Dict Text FailedAuth)
    → get text_dec k m ≡ none
    → get text_dec k (drop_expired now m) ≡ none
unfolding get drop_expired
drop_expired-none k now [] h = h
drop_expired-none k now ((j, v) ∷ m) h = ground (arith, drop_expired-none k now m)

-- The clean-up after an assignment: the entry stays unless it has expired.
drop_expired-put :
    (k : Text) (now : ℕ) (v : FailedAuth) (m : Dict Text FailedAuth)
    → get text_dec k (drop_expired now (put text_dec k v m))
      ≡ (if ltb v.until now then none else some v)
unfolding get put drop_expired
drop_expired-put k now v m =
    ground (arith, drop_expired-none k now (delete text_dec k m) (get-delete_self text_dec k m))

-- The time left that `check` reports is never negative, whatever the state, the user and the time.
pub check_nonneg :
    (ab : AuthRateLimiter) (usr_id : Text) (now : ℕ) → pos 0 ≤ℤ (check ab usr_id now).1
unfolding check cleanup_locked check_locked
check_nonneg ab usr_id now =
    let m = drop_expired now ab.failed_auths in
    elim (Option-cases (get text_dec usr_id m)) [
      | inl e ↦ ground arith
      | inr (a, e) ↦ ground (arith, drop_expired_fresh usr_id now ab.failed_auths a)
    ]

-- The failed logins of a user, the latest one first.
abbrev pub incs : Text → List ℕ → AuthRateLimiter → AuthRateLimiter
incs usr_id [] ab = ab
incs usr_id (t ∷ earlier) ab = inc (incs usr_id earlier ab) usr_id t

abbrev num_of : Option FailedAuth → ℕ
num_of none = 0
num_of (some a) = a.num

next_num_lem :
    (o : Option FailedAuth) (n : ℕ) → num_of o ≡ n → suc n < uint_mod → next_num o ≡ suc n
unfolding next_num
next_num_lem none n e lt = omega arith
next_num_lem (some a) n e lt = omega arith

incs_config :
    (usr_id : Text) (ts : List ℕ) (ab : AuthRateLimiter)
    → ((incs usr_id ts ab).max_attempts ≡ ab.max_attempts)
      × ((incs usr_id ts ab).block_dur ≡ ab.block_dur)
unfolding inc
incs_config usr_id [] ab = ground arith
incs_config usr_id (t ∷ ts) ab = incs_config usr_id ts ab

-- The counter counts, as long as it does not wrap.
incs_num :
    (usr_id : Text) (ts : List ℕ) (ab : AuthRateLimiter)
    → get text_dec usr_id ab.failed_auths ≡ none
    → length ts < uint_mod
    → num_of (get text_dec usr_id (incs usr_id ts ab).failed_auths) ≡ length ts
unfolding inc
incs_num usr_id [] ab h lt = ground arith
incs_num usr_id (t ∷ ts) ab h lt =
    let prev = incs usr_id ts ab in
    let before = get text_dec usr_id prev.failed_auths in
    rw (get-put_self text_dec usr_id (next_entry prev before t) prev.failed_auths)
      (next_num_lem before (length ts) (incs_num usr_id ts ab h (omega arith)) lt)

-- The clean-up leaves an entry that has not expired.
drop_expired-some :
    (k : Text) (now : ℕ) (m : Dict Text FailedAuth) (a : FailedAuth)
    → get text_dec k m ≡ some a
    → now ≤ a.until
    → get text_dec k (drop_expired now m) ≡ some a
unfolding get drop_expired
drop_expired-some k now [] a h le = h
drop_expired-some k now ((j, v) ∷ m) a h le = ground (arith, drop_expired-some k now m a)

-- The failed logins of a user, the latest one first: when each was checked, and when it was recorded.
-- The handlers check before they record.
abbrev pub attempts : Text → List (ℕ × ℕ) → AuthRateLimiter → AuthRateLimiter
attempts usr_id [] ab = ab
attempts usr_id ((c, t) ∷ earlier) ab = inc (check (attempts usr_id earlier ab) usr_id c).0 usr_id t

-- The attempt is recorded after `start`, and checked before what is recorded at `start` expires.
abbrev pub InWindow : ℕ → ℕ × ℕ → Type 0
InWindow start a = (start ≤ a.1) × (a.0 ≤ start + failed_auth_ttl)

-- The record after `n` attempts since `start`.
abbrev Counted : ℕ → ℕ → Option FailedAuth → Type 0
Counted start zero none = Unit
Counted start (suc n) none = ⊥
Counted start n (some a) = (a.num ≡ n) × (start + failed_auth_ttl ≤ a.until)

attempts_config :
    (usr_id : Text) (xs : List (ℕ × ℕ)) (ab : AuthRateLimiter)
    → ((attempts usr_id xs ab).max_attempts ≡ ab.max_attempts)
      × ((attempts usr_id xs ab).block_dur ≡ ab.block_dur)
unfolding inc check cleanup_locked
attempts_config usr_id [] ab = ground arith
attempts_config usr_id (a ∷ xs) ab = attempts_config usr_id xs ab

Counted-drop_expired :
    (usr_id : Text) (start c n : ℕ) (m : Dict Text FailedAuth) (o : Option FailedAuth)
    → get text_dec usr_id m ≡ o
    → Counted start n o
    → c ≤ start + failed_auth_ttl
    → Counted start n (get text_dec usr_id (drop_expired c m))
Counted-drop_expired usr_id start c n m none e h le =
    subst (Counted start n) (sym (drop_expired-none usr_id c m e)) h
Counted-drop_expired usr_id start c n m (some a) e (k, l) le =
    subst (Counted start n) (sym (drop_expired-some usr_id c m a e (omega (arith, l, le)))) (k, l)

Counted-next_entry :
    (start t n : ℕ) (ab : AuthRateLimiter) (o : Option FailedAuth)
    → Counted start n o
    → start ≤ t
    → suc n < uint_mod
    → suc n < ab.max_attempts
    → Counted start (suc n) (some (next_entry ab o t))
unfolding next_entry next_num next_until
Counted-next_entry start t zero ab none h le lt few = ground arith
Counted-next_entry start t (suc n) ab none h le lt few = absurd h
Counted-next_entry start t n ab (some a) h le lt few = ground (arith, h)

Counted-num : (start n : ℕ) (o : Option FailedAuth) → Counted start n o → num_of o ≡ n
Counted-num start zero none h = refl
Counted-num start (suc n) none h = absurd h
Counted-num start n (some a) h = h.0

attempts-Counted :
    (usr_id : Text) (start : ℕ) (xs : List (ℕ × ℕ)) (ab : AuthRateLimiter)
    → get text_dec usr_id ab.failed_auths ≡ none
    → length xs < ab.max_attempts
    → ab.max_attempts < uint_mod
    → All (InWindow start) xs
    → Counted start (length xs) (get text_dec usr_id (attempts usr_id xs ab).failed_auths)
unfolding inc check cleanup_locked
attempts-Counted usr_id start [] ab h few lt w = subst (Counted start 0) (sym h) tt
attempts-Counted usr_id start ((c, t) ∷ xs) ab h few lt ((after, before), w) =
    let prev = attempts usr_id xs ab in
    let ih = attempts-Counted usr_id start xs ab h (omega (arith, few)) lt w in
    let kept = Counted-drop_expired usr_id start c (length xs) prev.failed_auths _ refl ih before in
    let m = drop_expired c prev.failed_auths in
    let ab' : AuthRateLimiter = record prev { failed_auths = m } in
    subst (Counted start (suc (length xs)))
      (sym (get-put_self text_dec usr_id (next_entry ab' (get text_dec usr_id m) t) m))
      (Counted-next_entry start t (length xs) ab' (get text_dec usr_id m) kept after
        (omega (arith, few, lt)) (omega (arith, few, attempts_config usr_id xs ab)))

-- A user with no record whose failed logins come to `max_attempts`, each recorded after `start` and
-- checked no later than `failed_auth_ttl` after it, the last one recorded at `now`, is blocked for
-- `block_dur` from then on: `check` at a time `t` up to the end of that span reports what is left of
-- it. (The number `max_attempts` is below 2^64.)
pub check-attempts_blocked :
    (ab : AuthRateLimiter) (usr_id : Text) (start c now t : ℕ) (earlier : List (ℕ × ℕ))
    → get text_dec usr_id ab.failed_auths ≡ none
    → length earlier + 1 ≡ ab.max_attempts
    → ab.max_attempts < uint_mod
    → All (InWindow start) ((c, now) ∷ earlier)
    → t ≤ now + ab.block_dur
    → (check (attempts usr_id ((c, now) ∷ earlier) ab) usr_id t).1 ≡ pos (now + ab.block_dur - t)
unfolding check inc cleanup_locked
check-attempts_blocked ab usr_id start c now t earlier h enough lt ((after, before), w) soon =
    let prev = attempts usr_id earlier ab in
    let m = drop_expired c prev.failed_auths in
    let ab' : AuthRateLimiter = record prev { failed_auths = m } in
    let kept =
      Counted-drop_expired usr_id start c (length earlier) prev.failed_auths _ refl
        (attempts-Counted usr_id start earlier ab h (omega (arith, enough)) lt w) before in
    let o = get text_dec usr_id m in
    ground (
      arith,
      drop_expired-put usr_id t (next_entry ab' o now) m,
      attempts_config usr_id earlier ab,
      next_num_lem o (length earlier) (Counted-num start (length earlier) o kept),
    )

-- A user with no record who has failed fewer than `max_attempts` times is not blocked, at any time.
pub check-incs_allowed :
    (ab : AuthRateLimiter) (usr_id : Text) (t : ℕ) (ts : List ℕ)
    → get text_dec usr_id ab.failed_auths ≡ none
    → length ts < uint_mod
    → length ts < ab.max_attempts
    → (check (incs usr_id ts ab) usr_id t).1 ≡ pos 0
unfolding check inc
check-incs_allowed ab usr_id t [] h lt few =
    ground (arith, drop_expired-none usr_id t ab.failed_auths)
check-incs_allowed ab usr_id t (now ∷ earlier) h lt few =
    let prev = incs usr_id earlier ab in
    let before = get text_dec usr_id prev.failed_auths in
    ground (
      arith,
      drop_expired-put usr_id t (next_entry prev before now) prev.failed_auths,
      incs_config usr_id earlier ab,
      next_num_lem before (length earlier) (incs_num usr_id earlier ab h (omega arith)),
    )

-- `remove` unblocks its user at once; neither it nor `inc` touches the record of another user.
pub remove_unblocks :
    (ab : AuthRateLimiter) (usr_id other : Text) (now : ℕ)
    → usr_id ≢ other
    → ((check (remove ab usr_id) usr_id now).1 ≡ pos 0)
      × (get text_dec other (remove ab usr_id).failed_auths ≡ get text_dec other ab.failed_auths)
      × (get text_dec other (inc ab usr_id now).failed_auths ≡ get text_dec other ab.failed_auths)
unfolding check remove inc
remove_unblocks ab usr_id other now ne = (
  ground (
    arith,
    drop_expired-none usr_id now (delete text_dec usr_id ab.failed_auths),
    get-delete_self text_dec usr_id ab.failed_auths,
  ),
  get-delete_ne text_dec ab.failed_auths ne,
  get-put_ne text_dec _ ab.failed_auths ne,
)
