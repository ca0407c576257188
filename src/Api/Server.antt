-- ===== src/Api/Server.antt =====
-- What a handler of internal/api/server.go works on. A response is its status and what it does to
-- the session cookie; what it shows is left out.
use canarium.Config.Types.{second}
use canarium.Api.Limiter.{FailureLimiter}
use canarium.Api.Accounts.{Accounts}
use canarium.Common.Int.{pos, ℤ}
use canarium.Engine.Executor.{Setup, Executor}
use canarium.Common.{ℕ, ◌*◌, String, Bool, Option}

-- Go's crypto packages: the digest of a token or a legacy password in hex, a password made ready for
-- bcrypt (`bcryptPrehash`), bcrypt's hash and comparison, and random tokens. `none` is an error.
pub record Crypto : Type 0 where
  pub digest : String → String
  pub prehash : String → String
  pub bcrypt : String → Option String
  pub bcrypt_matches : String → String → Bool
  pub new_session_token : ℕ → Option String

pub record Site : Type 0 where
  pub setup : Setup
  pub crypto : Crypto

-- The fields of a request's body.
pub record Form : Type 0 where
  pub mode : String
  pub reason : String
  pub password : String
  pub current_password : String
  pub new_password : String

-- `body` is `none` where it cannot be decoded; `source` is the address that `clientIP` finds.
pub record Request : Type 0 where
  pub source : String
  pub now : ℕ
  pub authorization : String
  pub cookie : Option String
  pub body : Option Form

-- Whether the statements on the accounts' tables go through: SELECT, INSERT and UPDATE, DELETE.
pub record Server : Type 0 where
  pub executor : Executor
  pub accounts : Accounts
  pub login_limiter : FailureLimiter
  pub setup_limiter : FailureLimiter
  pub reads_ok : Bool
  pub writes_ok : Bool
  pub deletes_ok : Bool

pub data Status : Type 0 where
  ok accepted bad_request unauthorized forbidden conflict too_many_requests internal_error : Status

pub data Cookie : Type 0 where
  kept cleared : Cookie
  set_to : String → Cookie

abbrev pub Response : Type 0
Response = Status × Cookie

abbrev pub session_ttl : ℤ
session_ttl = pos (86400 * second)
