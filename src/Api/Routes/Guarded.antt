-- ===== src/Api/Routes/Guarded.antt =====
-- Who can see and change what through internal/api/server.go.
use canarium.Api.Routes.{
  Endpoint, health, auth_status, login, logout, setup_password, change_password, mode, abort,
  proceed, serve,
}
use canarium.Api.Routes.Callers.{
  is_operator, is_stranger, is_admin, Untouched, authenticate-Untouched, authenticate_with-admin,
  authenticate_with-none,
}
use canarium.Api.Server.{
  Site, Request, Server, Response, Status, unauthorized, forbidden, internal_error, kept,
}
use canarium.Api.Access.{
  require_scope, let_in, authenticate, scope_allows, Handler, show, bearer_token,
}
use canarium.Api.Passwords.{password_hash}
use canarium.Api.Control.{handle_proceed, handle_abort, handle_set_mode}
use canarium.Api.Setup.{handle_change_password}
use canarium.Common.{
  String, Bool, true, false, Option, none, some, is_empty, ◌≡◌, refl, arith, Bool-cases,
  Option-cases, inl, inr, ◌⊎◌, if◌then◌else◌,
}

-- The endpoints behind `requireScope`, and those of them that ask for the admin scope.
abbrev is_guarded : Endpoint → Bool
is_guarded health = false
is_guarded auth_status = false
is_guarded login = false
is_guarded logout = false
is_guarded setup_password = false
is_guarded _ = true

abbrev acts : Endpoint → Bool
acts change_password = true
acts mode = true
acts abort = true
acts proceed = true
acts _ = false

abbrev is_refusal : Status → Bool
is_refusal unauthorized = true
is_refusal forbidden = true
is_refusal internal_error = true
is_refusal _ = false

-- The answers of `requireScope`: two refusals, or what the scope allows.
abbrev Answers : String → Handler → Site → Request → Server → Type 0
Answers required next site q s =
    (require_scope required next site q s ≡ ((internal_error, kept), s))
    ⊎ (require_scope required next site q s ≡ ((unauthorized, kept), s))
    ⊎ (require_scope required next site q s ≡ let_in next required site q (authenticate site q s))

require_scope-Answers :
    (required : String) (next : Handler) (site : Site) (q : Request) (s : Server)
    → Answers required next site q s
unfolding require_scope
require_scope-Answers required next site q s = elim (Option-cases (password_hash site s)) [
  | inl e ↦ inl (rw (require_scope, e) refl)
  | inr (hash, e) ↦ elim (Bool-cases (is_empty hash)) [
    | inl z ↦ inr (inl (rw (require_scope, e, z) refl))
    | inr z ↦ inr (inr (rw (require_scope, e, z) refl))
  ]
]

abbrev pub Refused : Server → Response × Server → Type 0
Refused s r = (is_refusal r.0.0 ≡ true) × Untouched s r.1

let_in-none :
    (required : String) (next : Handler) (site : Site) (q : Request) (s : Server)
    → (found : Option String × Server) → found.0 ≡ none
    → Untouched s found.1
    → Refused s (let_in next required site q found)
let_in-none required next site q s (none, s') h u = (refl, u)
let_in-none required next site q s (some held, s') h u = ground (arith, h)

let_in-Refused :
    (next : Handler) (site : Site) (q : Request) (s : Server) (found : Option String × Server)
    → is_admin found.0 ≡ false
    → Untouched s found.1
    → Refused s (let_in next "admin" site q found)
unfolding scope_allows
let_in-Refused next site q s (none, s') h u = (refl, u)
let_in-Refused next site q s (some held, s') h u = rw h (refl, u)

require_scope-Refused :
    (next : Handler) (site : Site) (q : Request) (s : Server)
    → is_operator site q s ≡ false
    → Refused s (require_scope "admin" next site q s)
unfolding authenticate
require_scope-Refused next site q s h = elim (require_scope-Answers "admin" next site q s) [
  | inl e ↦ rw e (refl, (refl, refl, refl))
  | inr (inl e) ↦ rw e (refl, (refl, refl, refl))
  | inr (inr e) ↦ rw e (
      let_in-Refused next site q s (authenticate site q s)
        (ground (arith, authenticate_with-admin site q (bearer_token q) s, h))
        (authenticate-Untouched site q s))
]

require_scope-strangers :
    (required : String) (next : Handler) (site : Site) (q : Request) (s : Server)
    → is_stranger site q s ≡ true
    → Refused s (require_scope required next site q s)
unfolding authenticate
require_scope-strangers required next site q s h =
    elim (require_scope-Answers required next site q s) [
      | inl e ↦ rw e (refl, (refl, refl, refl))
      | inr (inl e) ↦ rw e (refl, (refl, refl, refl))
      | inr (inr e) ↦ rw e (
          let_in-none required next site q s (authenticate site q s)
            (authenticate_with-none site q (bearer_token q) s h) (authenticate-Untouched site q s))
    ]

abbrev pub action : Endpoint → Handler
action change_password = handle_change_password
action mode = handle_set_mode
action abort = handle_abort
action proceed = handle_proceed
action _ = show

abbrev required : Endpoint → String
required e = if acts e then "admin" else "read"

serve-guarded :
    (e : Endpoint) → is_guarded e ≡ true → serve e ≡ require_scope (required e) (action e)
unfolding serve
serve-guarded health g = ground (arith, g)
serve-guarded auth_status g = ground (arith, g)
serve-guarded login g = ground (arith, g)
serve-guarded logout g = ground (arith, g)
serve-guarded setup_password g = ground (arith, g)
serve-guarded _ g = refl

acts-is_guarded : (e : Endpoint) → acts e ≡ true → is_guarded e ≡ true
acts-is_guarded health g = g
acts-is_guarded auth_status g = g
acts-is_guarded login g = g
acts-is_guarded logout g = g
acts-is_guarded setup_password g = g
acts-is_guarded _ g = refl

serve-acts : (e : Endpoint) → acts e ≡ true → serve e ≡ require_scope "admin" (action e)
serve-acts e g = rw (serve-guarded e (acts-is_guarded e g), g) refl

-- Whoever has no known token and no live session is refused at every guarded endpoint, and leaves
-- the executor, the password and the sessions as they are.
pub strangers_get_nothing :
    (e : Endpoint) (site : Site) (q : Request) (s : Server)
    → is_guarded e ≡ true
    → is_stranger site q s ≡ true
    → Refused s (serve e site q s)
strangers_get_nothing e site q s g h =
    rw (serve-guarded e g) (require_scope-strangers (required e) (action e) site q s h)

-- An endpoint that acts refuses whoever has neither an admin token nor, where no token is known, a
-- live session, and leaves the executor, the password and the sessions as they are.
pub only_operators_act :
    (e : Endpoint) (site : Site) (q : Request) (s : Server)
    → acts e ≡ true
    → is_operator site q s ≡ false
    → Refused s (serve e site q s)
only_operators_act e site q s g h =
    rw (serve-acts e g) (require_scope-Refused (action e) site q s h)

let_in-lets :
    (next : Handler) (site : Site) (q : Request) (found : Option String × Server)
    → is_admin found.0 ≡ true
    → let_in next "admin" site q found ≡ next site q found.1
unfolding scope_allows
let_in-lets next site q (none, s') h = ground (arith, h)
let_in-lets next site q (some held, s') h = rw h refl

require_scope-lets :
    (next : Handler) (site : Site) (q : Request) (s : Server) (hash : String)
    → password_hash site s ≡ some hash
    → is_empty hash ≡ false
    → is_admin (authenticate site q s).0 ≡ true
    → require_scope "admin" next site q s ≡ next site q (authenticate site q s).1
unfolding require_scope
require_scope-lets next site q s hash e z h =
    rw (require_scope, e, z) (let_in-lets next site q (authenticate site q s) h)

-- Once a password is set, and while the tables can be read, an endpoint that acts gives an operator
-- its handler's answer, at most the use of the token recorded before.
pub operators_are_let_in :
    (e : Endpoint) (site : Site) (q : Request) (s : Server) (hash : String)
    → acts e ≡ true
    → password_hash site s ≡ some hash
    → is_empty hash ≡ false
    → s.reads_ok ≡ true
    → is_operator site q s ≡ true
    → serve e site q s ≡ action e site q (authenticate site q s).1
unfolding authenticate
operators_are_let_in e site q s hash g p z r h = rw (serve-acts e g) (
    require_scope-lets (action e) site q s hash p z
      (ground (arith, authenticate_with-admin site q (bearer_token q) s, h, r)))
