-- ===== src/RateLimiter.antt =====
-- internal/home/authratelimiter.go: the limiter of failed logins. A `time.Time` is a number of
-- nanoseconds, `time.Now()` is an argument, and the mutex makes each method one step. A Go `uint`
-- has 64 bits, so the counter of attempts wraps.
pub mod Blocking
use gdns_server.Base.{
  ℕ, ◌+◌, ◌*◌, ◌^◌, ◌%◌, Bool, Option, none, some, List, [], ◌∷◌, ltb, leb, if◌then◌else◌,
}
use gdns_server.Base.Dict.{Dict, Text, text_dec, get, put, delete}
use gdns_server.Base.Int.{ℤ, pos, sub_ℕ}

abbrev pub second : ℕ
second = 1000000000

abbrev failed_auth_ttl : ℕ
failed_auth_ttl = 60 * second

abbrev pub uint_mod : ℕ
uint_mod = 2 ^ 64

pub record FailedAuth : Type 0 where
  pub until : ℕ
  pub num : ℕ

pub record AuthRateLimiter : Type 0 where
  pub failed_auths : Dict Text FailedAuth
  pub block_dur : ℕ
  pub max_attempts : ℕ

new_auth_rate_limiter : ℕ → ℕ → AuthRateLimiter
new_auth_rate_limiter block_dur max_attempts = record {
  failed_auths = [];
  block_dur = block_dur;
  max_attempts = max_attempts;
}

drop_expired : ℕ → Dict Text FailedAuth → Dict Text FailedAuth
drop_expired now [] = []
drop_expired now ((k, v) ∷ m) =
    let rest = drop_expired now m in if ltb v.until now then rest else (k, v) ∷ rest

cleanup_locked : ℕ → AuthRateLimiter → AuthRateLimiter
unfolding drop_expired
cleanup_locked now ab = record ab { failed_auths = drop_expired now ab.failed_auths }

pub check_locked : AuthRateLimiter → Text → ℕ → ℤ
check_locked ab usr_id now = elim (get text_dec usr_id ab.failed_auths) [
  | none ↦ pos 0
  | some a ↦ if ltb a.num ab.max_attempts then pos 0 else sub_ℕ a.until now
]

-- The new state, and the time left until the user is unblocked.
pub check : AuthRateLimiter → Text → ℕ → AuthRateLimiter × ℤ
unfolding cleanup_locked check_locked
check ab usr_id now = let ab' = cleanup_locked now ab in (ab', check_locked ab' usr_id now)

next_num : Option FailedAuth → ℕ
next_num none = 1
next_num (some a) = (a.num + 1) % uint_mod

next_until : Option FailedAuth → ℕ → ℕ
next_until none now = now + failed_auth_ttl
next_until (some a) now = a.until

-- The entry that a failed attempt leaves behind, from the one that was there.
next_entry : AuthRateLimiter → Option FailedAuth → ℕ → FailedAuth
unfolding next_num next_until
next_entry ab a now =
    let att_num = next_num a in
    record {
      until = if leb ab.max_attempts att_num then now + ab.block_dur else next_until a now;
      num = att_num;
    }

inc_locked : AuthRateLimiter → Text → ℕ → AuthRateLimiter
unfolding next_entry
inc_locked ab usr_id now =
    let a = get text_dec usr_id ab.failed_auths in
    record ab { failed_auths = put text_dec usr_id (next_entry ab a now) ab.failed_auths }

pub inc : AuthRateLimiter → Text → ℕ → AuthRateLimiter
unfolding inc_locked
inc ab usr_id now = inc_locked ab usr_id now

pub remove : AuthRateLimiter → Text → AuthRateLimiter
remove ab usr_id = record ab { failed_auths = delete text_dec usr_id ab.failed_auths }
