-- ===== src/Api/Setup.antt =====
-- First-run setup and the change of the password (internal/api/server.go).
use canarium.Api.Limiter.{reset, record_failure, allow}
use canarium.Api.Passwords.{
  password_hash, password_is_pinned, hash_password, password_is_strong, verify_password,
}
use canarium.Api.Accounts.{
  set_password_hash, delete_all_sessions, get_password_hash, claim_initial_password,
}
use canarium.Api.Access.{Handler}
use canarium.Api.Server.{
  too_many_requests, cleared, ok, kept, bad_request, forbidden, unauthorized, Status, Form,
  Response, Request, internal_error, Site, Server,
}
use canarium.Common.{Option, String, not, none, some, is_empty, same, if◌then◌else◌, ◌⊎◌, inl, inr}

-- Behind the hashing of the password, which takes a second: other requests may have been served.
unfoldable pub finish_setup : String → Handler
unfolding claim_initial_password
finish_setup hash site q s =
    let (accounts, claimed) = claim_initial_password hash s.accounts in
    if not s.writes_ok
    then ((internal_error, kept), s)
    else if not claimed
    then ((forbidden, kept), s)
    else (
      (ok, kept),
      record s { accounts = accounts; setup_limiter = reset q.source s.setup_limiter },
    )

abbrev pub hashed : Option String → Status ⊎ String
hashed none = inl internal_error
hashed (some hash) = inr hash

unfoldable pub check_form : Site → Option Form → Status ⊎ String
check_form site none = inl bad_request
check_form site (some form) =
    if password_is_strong form.password
    then hashed (hash_password site.crypto form.password)
    else inl bad_request

-- Up to the hashing: an answer, or the hash to go on with.
unfoldable pub check_setup : Site → Request → Server → Status ⊎ String
unfolding check_form
check_setup site q s =
    if password_is_pinned site
    then inl forbidden
    else if not s.reads_ok
    then inl internal_error
    else if not (is_empty (get_password_hash s.accounts))
    then inl forbidden
    else check_form site q.body

abbrev pub go_on_setup : Site → Request → Server → Status ⊎ String → Response × Server
go_on_setup site q s (inl status) = ((status, kept), s)
go_on_setup site q s (inr hash) = finish_setup hash site q s

unfoldable pub handle_setup : Handler
unfolding check_setup finish_setup
handle_setup site q s =
    let (allowed, _, limiter) = allow q.source q.now s.setup_limiter in
    let s' = record s { setup_limiter = record_failure q.source q.now limiter } in
    if not allowed
    then ((too_many_requests, kept), record s { setup_limiter = limiter })
    else go_on_setup site q s' (check_setup site q s')

-- A failure to end the sessions is only logged.
abbrev sessions_ended : Server → Server
sessions_ended s =
    if s.deletes_ok then record s { accounts = delete_all_sessions s.accounts } else s

unfoldable pub replace_password : Site → String → Server → Response × Server
replace_password site password s = elim (hash_password site.crypto password) [
  | none ↦ ((internal_error, kept), s)
  | some hash ↦
      if s.writes_ok
      then (
        (ok, cleared),
        sessions_ended (record s { accounts = set_password_hash hash s.accounts }),
      )
      else ((internal_error, kept), s)
]

unfoldable pub check_change : Site → Form → String → Server → Response × Server
unfolding verify_password password_is_strong replace_password
check_change site form hash s =
    if not (verify_password site.crypto hash form.current_password).0
    then ((unauthorized, kept), s)
    else if not (password_is_strong form.new_password)
    then ((bad_request, kept), s)
    else if same form.new_password form.current_password
    then ((bad_request, kept), s)
    else replace_password site form.new_password s

unfoldable pub handle_change_password : Handler
unfolding password_hash check_change
handle_change_password site q s =
    if password_is_pinned site then ((forbidden, kept), s) else elim q.body [
      | none ↦ ((bad_request, kept), s)
      | some form ↦ elim (password_hash site s) [
        | none ↦ ((internal_error, kept), s)
        | some hash ↦ check_change site form hash s
      ]
    ]
