-- ===== src/Api/Routes/Callers.antt =====
-- Who a caller is: `authenticate` of internal/api/server.go against the tables.
use canarium.Common.Dict.{Dict, lookup}
use canarium.Api.Accounts.{
  Accounts, record_token_use, session_is_valid, not_expired, validate_api_token, ApiToken,
}
use canarium.Api.Access.{authenticate_with, session_scope, bearer_token, authenticate}
use canarium.Api.Server.{Request, Site, Server}
use canarium.Common.{
  not, sym, eq_iff, ℕ, String, Bool, true, false, ◌&&◌, ◌||◌, Option, none, some, is_empty, same,
  ◌≡◌, refl, arith, Bool-cases, inl, inr, if◌then◌else◌,
}

abbrev scope_or_none : Option ApiToken → String
scope_or_none none = ""
scope_or_none (some t) = t.scope

-- The scope that the tables give a token.
abbrev token_scope : Site → String → Server → String
token_scope site token s =
    if is_empty token
    then ""
    else scope_or_none (lookup (site.crypto.digest token) s.accounts.tokens)

abbrev session_row : Site → Option String → Dict ℕ → Option ℕ
session_row site none sessions = none
session_row site (some value) sessions = lookup (site.crypto.digest value) sessions

-- The request carries the cookie of a session that has not expired.
abbrev has_session : Site → Request → Server → Bool
has_session site q s = not_expired q.now (session_row site q.cookie s.accounts.sessions)

-- The operator: an admin token, or a session where no token is known.
abbrev pub is_operator : Site → Request → Server → Bool
is_operator site q s =
    let scope = token_scope site (bearer_token q) s in
    same scope "admin" || is_empty scope && has_session site q s

abbrev is_stranger_with : Site → Request → String → Server → Bool
is_stranger_with site q token s = is_empty (token_scope site token s) && not (has_session site q s)

-- No token is known, and no session.
abbrev pub is_stranger : Site → Request → Server → Bool
is_stranger site q s = is_stranger_with site q (bearer_token q) s

abbrev pub is_admin : Option String → Bool
is_admin none = false
is_admin (some held) = same held "admin"

-- What a request may not touch without the admin scope.
abbrev pub Untouched : Server → Server → Type 0
Untouched s s' =
    (s'.executor ≡ s.executor)
    × (s'.accounts.password ≡ s.accounts.password)
    × (s'.accounts.sessions ≡ s.accounts.sessions)

session_scope-admin :
    (site : Site) (now : ℕ) (cookie : Option String) (s : Server)
    → is_admin (session_scope site now cookie s)
      ≡ s.reads_ok && not_expired now (session_row site cookie s.accounts.sessions)
unfolding session_scope session_is_valid
session_scope-admin site now none s = ground arith
session_scope-admin site now (some value) s = ground arith

validate_api_token-scope :
    (site : Site) (q : Request) (token : String) (s : Server)
    → is_empty token ≡ false
    → (validate_api_token s.writes_ok (site.crypto.digest token) q.now s.accounts).0
      ≡ token_scope site token s
unfolding validate_api_token
validate_api_token-scope site q token s h = ground arith

validate_api_token-sessions :
    (writes : Bool) (digest : String) (now : ℕ) (a : Accounts)
    → ((validate_api_token writes digest now a).1.sessions ≡ a.sessions)
      × ((validate_api_token writes digest now a).1.password ≡ a.password)
unfolding validate_api_token record_token_use
validate_api_token-sessions writes digest now a = (ground arith, ground arith)

empty_is_no_admin :
    (scope : String)
    → is_empty scope ≡ true
    → (b : Bool) → same scope "admin" || is_empty scope && b ≡ b
empty_is_no_admin scope z b = rw ((eq_iff scope "").0 z) refl

pub authenticate_with-admin :
    (site : Site) (q : Request) (token : String) (s : Server)
    → is_admin (authenticate_with site q token s).0
      ≡ s.reads_ok
        && (same (token_scope site token s) "admin"
            || is_empty (token_scope site token s) && has_session site q s)
unfolding authenticate_with
authenticate_with-admin site q token s = elim (Bool-cases (is_empty token)) [
  | inl e ↦ rw (e, session_scope-admin) refl
  | inr e ↦ elim (Bool-cases s.reads_ok) [
    | inl r ↦ elim (Bool-cases (is_empty (token_scope site token s))) [
      | inl z ↦
          rw
            (
              e,
              r,
              validate_api_token-scope site q token s e,
              z,
              session_scope-admin,
              (validate_api_token-sessions s.writes_ok (site.crypto.digest token) q.now
                  s.accounts).0,
            )
            (sym (empty_is_no_admin _ (rw e at z) (has_session site q s)))
      | inr z ↦ rw (e, r, validate_api_token-scope site q token s e, z) (ground (arith, z))
    ]
    | inr r ↦ rw (e, r) refl
  ]
]

pub authenticate-Untouched :
    (site : Site) (q : Request) (s : Server) → Untouched s (authenticate site q s).1
unfolding authenticate authenticate_with
authenticate-Untouched site q s = elim (Bool-cases (is_empty (bearer_token q))) [
  | inl e ↦ rw e (refl, refl, refl)
  | inr e ↦ elim (Bool-cases s.reads_ok) [
    | inl r ↦
        let (same_sessions, same_password) =
          validate_api_token-sessions s.writes_ok (site.crypto.digest (bearer_token q)) q.now
            s.accounts in
        elim (Bool-cases (
          is_empty
            (validate_api_token s.writes_ok (site.crypto.digest (bearer_token q)) q.now
              s.accounts).0)) [
                | inl z ↦ rw (e, r, z) (refl, same_password, same_sessions)
                | inr z ↦ rw (e, r, z) (refl, same_password, same_sessions)
              ]
    | inr r ↦ rw (e, r) (refl, refl, refl)
  ]
]

the_first : (a b : Bool) → a && b ≡ true → a ≡ true
the_first a b h = ground (arith, h)

session_scope-none :
    (site : Site) (now : ℕ) (cookie : Option String) (s : Server)
    → not_expired now (session_row site cookie s.accounts.sessions) ≡ false
    → session_scope site now cookie s ≡ none
unfolding session_scope session_is_valid
session_scope-none site now none s h = refl
session_scope-none site now (some value) s h = rw h (ground arith)

pub authenticate_with-none :
    (site : Site) (q : Request) (token : String) (s : Server)
    → is_stranger_with site q token s ≡ true
    → (authenticate_with site q token s).0 ≡ none
unfolding authenticate_with
authenticate_with-none site q token s h = elim (Bool-cases (is_empty token)) [
  | inl e ↦ rw e (session_scope-none site q.now q.cookie s (ground (arith, h)))
  | inr e ↦ elim (Bool-cases s.reads_ok) [
    | inl r ↦
        rw
          (
            e,
            r,
            validate_api_token-scope site q token s e,
            the_first (is_empty (token_scope site token s)) _ h,
          )
          (session_scope-none site q.now q.cookie _ (
            rw
              ((validate_api_token-sessions s.writes_ok (site.crypto.digest token) q.now
                s.accounts).0)
              (ground (arith, h))))
    | inr r ↦ rw (e, r) refl
  ]
]
