-- ===== src/Api/Routes/Sessions.antt =====
-- Sessions over several requests: login and logout of internal/api/server.go.
use canarium.Api.Limiter.{allow}
use canarium.Common.Dict.{lookup, lookup-insert_self, lookup-erase_self}
use canarium.Common.Int.{time_add}
use canarium.Api.Accounts.{unix, create_session, not_expired, session_is_valid, delete_session}
use canarium.Api.Server.{
  Cookie, unauthorized, too_many_requests, Site, Request, Server, Response, Status, Form, ok,
  set_to, kept, session_ttl,
}
use canarium.Api.Access.{authenticate, authenticate_with, session_scope, bearer_token}
use canarium.Api.Login.{
  handle_login, handle_logout, check_login, try_password, upgraded, open_session,
}
use canarium.Api.Passwords.{password_hash, verify_password}
use canarium.Api.Limiter.{reset}
use canarium.Api.Limiter.{allow}
use canarium.Api.Server.{Cookie}
use canarium.Common.{
  by_test, ap, sym, ◌∙◌, String, Bool, true, false, not, none, some, is_empty, ◌≡◌, ◌≢◌, refl,
  arith, ltb, Bool-cases, Option-cases, inl, inr, ◌⊎◌, if◌then◌else◌,
}

-- The answer to a request that has only the cookie.
authenticate-cookie :
    (site : Site) (q : Request) (value : String) (s : Server)
    → is_empty (bearer_token q) ≡ true
    → q.cookie ≡ some value
    → s.reads_ok ≡ true
    → (authenticate site q s).0 ≡ (
        if not_expired q.now (lookup (site.crypto.digest value) s.accounts.sessions)
        then some "admin"
        else none)
unfolding authenticate authenticate_with session_scope session_is_valid
authenticate-cookie site q value s no_token c r = rw (no_token, c, r) refl

abbrev pub is_ok : Status → Bool
is_ok ok = true
is_ok _ = false

-- What a login ends with: no session, or one that the cookie names.
abbrev Outcome : Site → Request → Response × Server → Type 0
Outcome site q r =
    (r.0.0 ≢ ok)
    ⊎ ((token : String) × (r.0 ≡ (ok, set_to token))
        × (lookup (site.crypto.digest token) r.1.accounts.sessions
            ≡ some (unix (time_add q.now session_ttl))))

open_session-Outcome :
    (site : Site) (q : Request) (s : Server) → Outcome site q (open_session site q s)
unfolding create_session open_session
open_session-Outcome site q s = elim (Option-cases (site.crypto.new_session_token q.now)) [
  | inl e ↦ rw (open_session, e) (inl (ground arith))
  | inr (token, e) ↦ elim (Bool-cases s.writes_ok) [
    | inl w ↦
        rw (open_session, e, w)
          (inr (token, refl, lookup-insert_self (site.crypto.digest token) _ s.accounts.sessions))
    | inr w ↦ rw (open_session, e, w) (inl (ground arith))
  ]
]

-- A login opens a session only behind the right password.
abbrev Ends : Site → Request → String → String → Response × Server → Type 0
Ends site q hash password r =
    (r.0.0 ≢ ok)
    ⊎ ((s : Server) × (r ≡ open_session site q s)
        × ((verify_password site.crypto hash password).0 ≡ true))

try_password-Ends :
    (site : Site) (q : Request) (hash password : String) (s : Server)
    → Ends site q hash password (try_password site q hash password s)
unfolding try_password
try_password-Ends site q hash password s =
    elim (Bool-cases (verify_password site.crypto hash password).0) [
      | inl v ↦ inr (
        upgraded site password (verify_password site.crypto hash password).1
            (record s { login_limiter = reset q.source s.login_limiter }),
        rw (try_password, v) refl,
        v,
      )
      | inr v ↦ inl (λ h. ground (arith, rw v at h))
    ]

check_login-Ends :
    (site : Site) (q : Request) (form : Form) (s : Server) (hash : String)
    → password_hash site s ≡ some hash
    → Ends site q hash form.password (check_login site q form s)
unfolding check_login
check_login-Ends site q form s hash e =
    rw (check_login, e)
      (by_test (Ends site q hash form.password) (is_empty hash) ((unauthorized, kept), s)
        (try_password site q hash form.password s) (λ _. inl (λ h. ground (arith, h)))
        (λ _. try_password-Ends site q hash form.password s))

handle_login-Ends :
    (site : Site) (q : Request) (s : Server) (form : Form) (hash : String)
    → q.body ≡ some form
    → password_hash site s ≡ some hash
    → Ends site q hash form.password (handle_login site q s)
unfolding handle_login password_hash
handle_login-Ends site q s form hash b e =
    let limiter = (allow q.source q.now s.login_limiter).2 in
    let s' = record s { login_limiter = limiter } in
    rw (handle_login, b)
      (by_test (Ends site q hash form.password) (not (allow q.source q.now s.login_limiter).0)
        ((too_many_requests, kept), s') (check_login site q form s')
        (λ _. inl (λ h. ground (arith, h))) (λ _. check_login-Ends site q form s' hash e))

abbrev cookie_of : Cookie → String
cookie_of (set_to token) = token
cookie_of _ = ""

same_cookie : (token value : String) → set_to token ≡ set_to value → token ≡ value
same_cookie token value e = ap cookie_of e

open_session-lookup :
    (site : Site) (q : Request) (s : Server) (value : String)
    → (open_session site q s).0 ≡ (ok, set_to value)
    → lookup (site.crypto.digest value) (open_session site q s).1.accounts.sessions
      ≡ some (unix (time_add q.now session_ttl))
open_session-lookup site q s value h = elim (open_session-Outcome site q s) [
  | inl n ↦ elim (n (ap (λ r. r.0) h)) [ ]
  | inr (token, c, l) ↦ rw (same_cookie token value (ap (λ r. r.1) (sym c ∙ h))) at l
]

-- A login that is answered ok with a cookie had the right password. As long as the row that it leaves
-- for the session stays as it is, and sessions can be read, a request with that cookie and no token
-- has the admin scope until the session's end, and no scope from then on.
pub login_opens_session :
    (site : Site) (q q' : Request) (s later : Server) (form : Form) (hash value : String)
    → q.body ≡ some form
    → password_hash site s ≡ some hash
    → (handle_login site q s).0 ≡ (ok, set_to value)
    → lookup (site.crypto.digest value) later.accounts.sessions
      ≡ lookup (site.crypto.digest value) (handle_login site q s).1.accounts.sessions
    → later.reads_ok ≡ true
    → is_empty (bearer_token q') ≡ true
    → q'.cookie ≡ some value
    → ((verify_password site.crypto hash form.password).0 ≡ true)
      × ((authenticate site q' later).0
          ≡ (if ltb (unix q'.now) (unix (time_add q.now session_ttl)) then some "admin" else none))
login_opens_session site q q' s later form hash value b p h kept_row r n c =
    elim (handle_login-Ends site q s form hash b p) [
      | inl never ↦ elim (never (ap (λ a. a.0) h)) [ ]
      | inr (s', e, v) ↦ (
        v,
        rw
            (
              authenticate-cookie site q' value later n c r,
              kept_row,
              e,
              open_session-lookup site q s' value (rw e at h),
            )
            refl,
      )
    ]

-- After a logout whose statement goes through, a request with the cookie and no token has no scope.
logout_ends_session :
    (site : Site) (q q' : Request) (value : String) (s : Server)
    → q.cookie ≡ some value
    → is_empty value ≡ false
    → s.deletes_ok ≡ true
    → s.reads_ok ≡ true
    → is_empty (bearer_token q') ≡ true
    → q'.cookie ≡ some value
    → (authenticate site q' (handle_logout site q s).1).0 ≡ none
unfolding handle_logout delete_session
logout_ends_session site q q' value s c e w r n c' =
    authenticate-cookie site q' value (handle_logout site q s).1 n c' (rw (c, e, w) r)
    ∙ rw (c, e, w) (rw (lookup-erase_self (site.crypto.digest value) s.accounts.sessions) refl)
