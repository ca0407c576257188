-- ===== src/Api/Login.antt =====
-- Login and logout (internal/api/server.go).
use canarium.Api.Limiter.{record_failure, reset, allow}
use canarium.Api.Access.{Handler}
use canarium.Api.Accounts.{set_password_hash, delete_session, create_session}
use canarium.Api.Passwords.{password_hash, hash_password, password_is_pinned, verify_password}
use canarium.Api.Server.{
  session_ttl, set_to, Form, bad_request, kept, unauthorized, cleared, Response, too_many_requests,
  ok, internal_error, Request, Site, Server,
}
use canarium.Common.{String, Bool, not, ◌&&◌, Option, none, some, is_empty, if◌then◌else◌}

-- A legacy hash is replaced, where it is not pinned; a failure is ignored.
unfoldable pub upgraded : Site → String → Bool → Server → Server
upgraded site password needed s =
    if needed && not (password_is_pinned site) && s.writes_ok
    then elim (hash_password site.crypto password) [
      | none ↦ s
      | some hash ↦ record s { accounts = set_password_hash hash s.accounts }
    ]
    else s

-- The cookie is set before the session is written.
unfoldable pub open_session : Handler
unfolding create_session
open_session site q s = elim (site.crypto.new_session_token q.now) [
  | none ↦ ((internal_error, kept), s)
  | some token ↦
      if s.writes_ok
      then (
        (ok, set_to token),
        record s {
          accounts = create_session (site.crypto.digest token) q.now session_ttl s.accounts;
        },
      )
      else ((internal_error, set_to token), s)
]

unfoldable pub try_password : Site → Request → String → String → Server → Response × Server
unfolding verify_password upgraded open_session
try_password site q hash password s =
    let (valid, needs_upgrade) = verify_password site.crypto hash password in
    if valid
    then open_session site q (
        upgraded site password needs_upgrade
          (record s { login_limiter = reset q.source s.login_limiter }))
    else (
      (unauthorized, kept),
      record s { login_limiter = record_failure q.source q.now s.login_limiter },
    )

unfoldable pub check_login : Site → Request → Form → Server → Response × Server
unfolding password_hash try_password
check_login site q form s = elim (password_hash site s) [
  | none ↦ ((internal_error, kept), s)
  | some hash ↦
      if is_empty hash then ((unauthorized, kept), s) else try_password site q hash form.password s
]

unfoldable pub handle_login : Handler
unfolding check_login
handle_login site q s =
    let (allowed, _, limiter) = allow q.source q.now s.login_limiter in
    let s' = record s { login_limiter = limiter } in
    if not allowed
    then ((too_many_requests, kept), s')
    else elim q.body [ none ↦ ((bad_request, kept), s') | some form ↦ check_login site q form s' ]

abbrev without_session : Site → Option String → Server → Server
without_session site none s = s
without_session site (some value) s =
    if not (is_empty value) && s.deletes_ok
    then record s { accounts = delete_session (site.crypto.digest value) s.accounts }
    else s

unfoldable pub handle_logout : Handler
handle_logout site q s = ((ok, cleared), without_session site q.cookie s)
