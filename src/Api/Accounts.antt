-- ===== src/Api/Accounts.antt =====
-- What the API keeps in the database: the admin password (internal/state/db.go), sessions
-- (internal/state/sessions.go) and tokens (internal/state/tokens.go). Instants are nanoseconds; the
-- tables hold seconds.
use canarium.Common.Int.{time_sub, time_add, pos, ltb_ℤ, ℤ}
use canarium.Common.Dict.{erase, lookup, Dict, insert}
use canarium.Config.Types.{second}
use canarium.Common.{
  ◌||◌, same, ◌∷◌, is_some, ℕ, ◌*◌, ◌/◌, String, Bool, true, false, [], Option, none, some, ltb,
  if◌then◌else◌,
}

-- A row of `api_tokens`; its key is the token's digest. A token that was never used has 0.
pub record ApiToken : Type 0 where
  pub name : String
  pub scope : String
  pub last_used : ℕ

-- `password` is the row of `auth`; a session's row holds when it expires.
pub record Accounts : Type 0 where
  pub password : Option String
  pub sessions : Dict ℕ
  pub tokens : Dict ApiToken

-- `time.Time.Unix`, up to a constant.
abbrev pub unix : ℕ → ℕ
unix t = t / second

unfoldable pub create_session : String → ℕ → ℤ → Accounts → Accounts
create_session digest now ttl a = record a {
  sessions = insert digest (unix (time_add now ttl)) a.sessions;
}

abbrev pub not_expired : ℕ → Option ℕ → Bool
not_expired now none = false
not_expired now (some expires) = ltb (unix now) expires

unfoldable pub session_is_valid : String → ℕ → Accounts → Bool
session_is_valid digest now a = not_expired now (lookup digest a.sessions)

unfoldable pub delete_session : String → Accounts → Accounts
delete_session digest a = record a { sessions = erase digest a.sessions }

unfoldable live_sessions : ℕ → Dict ℕ → Dict ℕ
live_sessions now [] = []
live_sessions now ((digest, expires) ∷ rows) =
    let rest = live_sessions now rows in
    if ltb (unix now) expires then (digest, expires) ∷ rest else rest

unfoldable delete_expired_sessions : ℕ → Accounts → Accounts
unfolding live_sessions
delete_expired_sessions now a = record a { sessions = live_sessions now a.sessions }

unfoldable pub delete_all_sessions : Accounts → Accounts
delete_all_sessions a = record a { sessions = [] }

abbrev last_used_resolution : ℤ
last_used_resolution = pos (300 * second)

-- The use is recorded, where the last one is old enough.
unfoldable pub record_token_use : String → ℕ → ApiToken → Accounts → Accounts
record_token_use digest now t a =
    if ltb_ℤ (time_sub now t.last_used) last_used_resolution
    then a
    else record a { tokens = insert digest (record t { last_used = unix now * second }) a.tokens }

-- The scope of a token, "" if it is unknown. A use that cannot be written is ignored.
unfoldable pub validate_api_token : Bool → String → ℕ → Accounts → String × Accounts
unfolding record_token_use
validate_api_token writes digest now a = elim (lookup digest a.tokens) [
  | none ↦ ("", a)
  | some t ↦ (t.scope, if writes then record_token_use digest now t a else a)
]

-- Whether some token has the name.
unfoldable has_token_named : String → Dict ApiToken → Bool
has_token_named name [] = false
has_token_named name ((_, t) ∷ rows) = same t.name name || has_token_named name rows

-- `none` is a name that is taken.
unfoldable save_api_token : String → String → String → Accounts → Option Accounts
unfolding has_token_named
save_api_token digest name scope a =
    if has_token_named name a.tokens
    then none
    else some (record a {
      tokens = insert digest (record { name = name; scope = scope; last_used = 0 }) a.tokens;
    })

unfoldable without_token : String → Dict ApiToken → Dict ApiToken
without_token name [] = []
without_token name ((digest, t) ∷ rows) =
    let rest = without_token name rows in if same t.name name then rest else (digest, t) ∷ rest

unfoldable delete_api_token : String → Accounts → Accounts × Bool
unfolding without_token has_token_named
delete_api_token name a =
    (record a { tokens = without_token name a.tokens }, has_token_named name a.tokens)

abbrev hash_or_none : Option String → String
hash_or_none none = ""
hash_or_none (some h) = h

unfoldable pub get_password_hash : Accounts → String
get_password_hash a = hash_or_none a.password

unfoldable pub set_password_hash : String → Accounts → Accounts
set_password_hash hash a = record a { password = some hash }

-- Sets the password only where there is none.
unfoldable pub claim_initial_password : String → Accounts → Accounts × Bool
claim_initial_password hash a =
    if is_some a.password then (a, false) else (record a { password = some hash }, true)
