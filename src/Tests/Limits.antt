-- ===== src/Tests/Limits.antt =====
-- Runs of internal/home/authratelimiter.go: three attempts, and a block of a second.
use gdns_server.Base.{◌+◌, ◌-◌, ◌≡◌, refl, [], ◌∷◌, arith}
use gdns_server.Base.Int.{pos}
use gdns_server.Base.Dict.{Text, get}
use gdns_server.RateLimiter.{AuthRateLimiter, check, second}
use gdns_server.RateLimiter.Blocking.{incs, attempts, check-attempts_blocked, check-incs_allowed}

abbrev limiter : AuthRateLimiter
limiter = record { failed_auths = []; block_dur = second; max_attempts = 3 }

abbrev alice : Text
alice = b'a' ∷ []

abbrev bob : Text
bob = []

check-attempts_blocked_example :
    (check (attempts alice ((29, 30) ∷ (19, 20) ∷ (9, 10) ∷ []) limiter) alice 40).1
    ≡ pos (30 + second - 40)
unfolding get
check-attempts_blocked_example =
    check-attempts_blocked limiter alice 10 29 30 40 ((19, 20) ∷ (9, 10) ∷ []) refl refl
      (omega arith)
      ((omega arith, omega arith), ((omega arith, omega arith), ((omega arith, omega arith), tt)))
      (omega arith)

check-incs_allowed_example : (check (incs alice (20 ∷ 10 ∷ []) limiter) alice 40).1 ≡ pos 0
unfolding get
check-incs_allowed_example =
    check-incs_allowed limiter alice 40 (20 ∷ 10 ∷ []) refl (omega arith) (omega arith)
