-- ===== src/Aghuser.antt =====
-- internal/aghuser/: the web users (user.go), their database in memory (db.go), and their sessions
-- (session.go, sessionstorage.go). Identifiers and tokens are arrays of 16 bytes; the password of a
-- user plays no part here.
pub mod Users
pub mod Bolt
pub mod Sessions
use gdns_server.Base.{ℕ, List, replicate}
use gdns_server.Base.Dict.{Text}

-- `UserID{}` and `SessionToken{}`.
abbrev pub zero_id : Text
zero_id = replicate 16 0

pub record User : Type 0 where
  pub login : Text
  pub id : Text

-- `expire` counts nanoseconds from the epoch.
pub record Session : Type 0 where
  pub expire : ℕ
  pub user_login : Text
  pub token : Text
  pub user_id : Text
