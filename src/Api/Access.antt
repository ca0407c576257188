-- ===== src/Api/Access.antt =====
-- Who may call what: `authenticate` and `requireScope` of internal/api/server.go.
use canarium.Api.Passwords.{password_hash}
use canarium.Common.Text.{drop_prefix, has_prefix, trim_space}
use canarium.Api.Accounts.{validate_api_token, session_is_valid}
use canarium.Api.Server.{
  internal_error, forbidden, kept, unauthorized, Response, ok, Site, Request, Server,
}
use canarium.Common.{
  ℕ, String, Bool, not, ◌&&◌, ◌||◌, Option, none, some, is_empty, same, if◌then◌else◌,
}

unfoldable pub bearer_token : Request → String
bearer_token q =
    let header = trim_space q.authorization in
    if is_empty header
    then ""
    else if has_prefix header "Bearer "
    then trim_space (drop_prefix header "Bearer ")
    else header

-- The session cookie's part of `authenticate`.
unfoldable pub session_scope : Site → ℕ → Option String → Server → Option String
unfolding session_is_valid
session_scope site now none s = none
session_scope site now (some value) s =
    if s.reads_ok && session_is_valid (site.crypto.digest value) now s.accounts
    then some "admin"
    else none

-- The scope that a caller with the token holds, and the server behind the look at it.
unfoldable pub authenticate_with : Site → Request → String → Server → Option String × Server
unfolding session_scope validate_api_token
authenticate_with site q token s =
    let (scope, accounts) =
      validate_api_token s.writes_ok (site.crypto.digest token) q.now s.accounts in
    let s' = record s { accounts = accounts } in
    if is_empty token
    then (session_scope site q.now q.cookie s, s)
    else if not s.reads_ok
    then (none, s)
    else if is_empty scope
    then (session_scope site q.now q.cookie s', s')
    else (some scope, s')

unfoldable pub authenticate : Site → Request → Server → Option String × Server
unfolding authenticate_with
authenticate site q s = authenticate_with site q (bearer_token q) s

unfoldable pub scope_allows : String → String → Bool
scope_allows held required = same held "admin" || same held required

abbrev pub Handler : Type 0
Handler = Site → Request → Server → Response × Server

abbrev pub let_in : Handler → String → Site → Request → Option String × Server → Response × Server
let_in next required site q (none, s) = ((unauthorized, kept), s)
let_in next required site q (some held, s) =
    if scope_allows held required then next site q s else ((forbidden, kept), s)

unfoldable pub require_scope : String → Handler → Handler
unfolding password_hash authenticate scope_allows
require_scope required next site q s = elim (password_hash site s) [
  | none ↦ ((internal_error, kept), s)
  | some hash ↦
      if is_empty hash
      then ((unauthorized, kept), s)
      else let_in next required site q (authenticate site q s)
]

-- The handlers that only show something.
abbrev pub show : Handler
show site q s = ((ok, kept), s)
