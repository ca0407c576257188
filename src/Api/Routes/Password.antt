-- ===== src/Api/Routes/Password.antt =====
-- Setup and the change of the password: `handleSetup` and `handleChangePassword` of
-- internal/api/server.go.
use canarium.Common.Dict.{Dict}
use canarium.Api.Limiter.{allow}
use canarium.Api.Accounts.{claim_initial_password, Accounts}
use canarium.Api.Server.{
  forbidden, bad_request, unauthorized, too_many_requests, Site, Request, Server, Response, Status,
  Form, ok, kept,
}
use canarium.Api.Passwords.{password_is_pinned, password_hash, verify_password, password_is_strong}
use canarium.Api.Setup.{
  replace_password, check_form, check_change, go_on_setup, handle_setup, finish_setup, check_setup,
  handle_change_password,
}
use canarium.Api.Passwords.{hash_password}
use canarium.Api.Limiter.{allow, record_failure}
use canarium.Api.Accounts.{set_password_hash, delete_all_sessions}
use canarium.Common.{
  by_test, ℕ, [], ap, sym, ◌∙◌, String, Bool, true, false, not, Option, none, some, same, ◌≡◌, ◌≢◌,
  refl, arith, Bool-cases, Option-cases, inl, inr, ◌⊎◌, if◌then◌else◌,
}
use canarium.Api.Routes.Sessions.{is_ok}

-- Not the answer ok, and the tables stay.
abbrev pub Keeps : Accounts → Response × Server → Type 0
Keeps a r = (r.1.accounts ≡ a) × (r.0.0 ≢ ok)

finish_setup-Keeps :
    (site : Site) (q : Request) (hash old : String) (s : Server)
    → s.accounts.password ≡ some old
    → Keeps s.accounts (finish_setup hash site q s)
unfolding finish_setup claim_initial_password
finish_setup-Keeps site q hash old s h = elim (Bool-cases s.writes_ok) [
  | inl w ↦ rw (w, h) (refl, λ e. ground (arith, e))
  | inr w ↦ rw (w) (refl, λ e. ground (arith, e))
]

abbrev refuses : Status ⊎ String → Bool
refuses (inl status) = not (is_ok status)
refuses (inr _) = true

check_form-refuses : (site : Site) (body : Option Form) → refuses (check_form site body) ≡ true
unfolding check_form
check_form-refuses site none = refl
check_form-refuses site (some form) =
    elim (Option-cases (hash_password site.crypto form.password)) [
      | inl e ↦ rw (check_form, e) (ground arith)
      | inr (hash, e) ↦ rw (check_form, e) (ground arith)
    ]

check_setup-refuses :
    (site : Site) (q : Request) (s : Server) → refuses (check_setup site q s) ≡ true
unfolding check_setup
check_setup-refuses site q s = ground (arith, check_form-refuses site q.body)

go_on_setup-Keeps :
    (site : Site) (q : Request) (old : String) (s : Server) (c : Status ⊎ String)
    → s.accounts.password ≡ some old
    → refuses c ≡ true
    → Keeps s.accounts (go_on_setup site q s c)
go_on_setup-Keeps site q old s (inl status) h r = (refl, λ e. ground (arith, rw e at r))
go_on_setup-Keeps site q old s (inr hash) h r = finish_setup-Keeps site q hash old s h

-- No setup, whatever it hashed before, touches a password that is already set.
pub setup_never_replaces :
    (site : Site) (q : Request) (hash old : String) (s : Server)
    → s.accounts.password ≡ some old
    → Keeps s.accounts (handle_setup site q s) × Keeps s.accounts (finish_setup hash site q s)
unfolding handle_setup
setup_never_replaces site q hash old s h =
    let limiter = (allow q.source q.now s.setup_limiter).2 in
    let s' = record s { setup_limiter = record_failure q.source q.now limiter } in
    (
      by_test (Keeps s.accounts) (not (allow q.source q.now s.setup_limiter).0)
          ((too_many_requests, kept), record s { setup_limiter = limiter })
          (go_on_setup site q s' (check_setup site q s')) (λ _. (refl, λ e. ground (arith, e)))
          (λ _.
            go_on_setup-Keeps site q old s' (check_setup site q s') h
              (check_setup-refuses site q s')),
      finish_setup-Keeps site q hash old s h,
    )

falls_through :
    (b : Bool) (x r : Response × Server)
    → x.0.0 ≢ ok
    → (if b then x else r).0.0 ≡ ok
    → (b ≡ false) × ((if b then x else r) ≡ r)
falls_through true x r n h = elim (n h) [ ]
falls_through false x r n h = (refl, refl)

-- The sessions that a change of the password leaves: none, if they can be deleted.
abbrev left_open : Server → Dict ℕ
left_open s = if s.deletes_ok then [] else s.accounts.sessions

-- What a changed password leaves.
abbrev Changed : Option String → Dict ℕ → Response × Server → Type 0
Changed hash left r = (r.1.accounts.password ≡ hash) × (r.1.accounts.sessions ≡ left)

replace_password-Changed :
    (site : Site) (password : String) (s : Server)
    → (replace_password site password s).0.0 ≡ ok
    → Changed (hash_password site.crypto password) (left_open s) (replace_password site password s)
unfolding replace_password delete_all_sessions set_password_hash
replace_password-Changed site password s h =
    elim (Option-cases (hash_password site.crypto password)) [
      | inl e ↦ ground (arith, rw (replace_password, e) at h)
      | inr (hash, e) ↦ elim (Bool-cases s.writes_ok) [
        | inl w ↦ elim (Bool-cases s.deletes_ok) [
          | inl d ↦ rw (replace_password, e, w, d) (refl, refl)
          | inr d ↦ rw (replace_password, e, w, d) (refl, refl)
        ]
        | inr w ↦ ground (arith, rw (replace_password, e, w) at h)
      ]
    ]

-- The current password was known, the new one is strong and differs.
abbrev pub MayChange : Site → Form → String → Server → Response × Server → Type 0
MayChange site form hash s r =
    ((verify_password site.crypto hash form.current_password).0 ≡ true)
    × (password_is_strong form.new_password ≡ true)
    × (same form.new_password form.current_password ≡ false)
    × Changed (hash_password site.crypto form.new_password) (left_open s) r

check_change-MayChange :
    (site : Site) (form : Form) (hash : String) (s : Server)
    → (check_change site form hash s).0.0 ≡ ok
    → MayChange site form hash s (check_change site form hash s)
unfolding check_change
check_change-MayChange site form hash s h =
    let refused : Response × Server = ((bad_request, kept), s) in
    let last =
      if same form.new_password form.current_password
      then refused
      else replace_password site form.new_password s in
    let (verified, e) =
      falls_through (not (verify_password site.crypto hash form.current_password).0)
        ((unauthorized, kept), s)
        (if not (password_is_strong form.new_password) then refused else last)
        (λ x. ground (arith, x)) h in
    let (strong, e') =
      falls_through (not (password_is_strong form.new_password)) refused last
        (λ x. ground (arith, x)) (sym (ap (λ r. r.0.0) e) ∙ h) in
    let (differs, e'') =
      falls_through (same form.new_password form.current_password) refused
        (replace_password site form.new_password s) (λ x. ground (arith, x))
        (sym (ap (λ r. r.0.0) (e ∙ e')) ∙ h) in
    let replaced = e ∙ e' ∙ e'' in
    (
      ground (arith, verified),
      ground (arith, strong),
      differs,
      rw replaced
          (replace_password-Changed site form.new_password s (sym (ap (λ r. r.0.0) replaced) ∙ h)),
    )

-- A change of the password that is answered ok had the current one, sets a strong one that differs,
-- and ends every session if sessions can be deleted.
pub password_change_ends_sessions :
    (site : Site) (q : Request) (s : Server) (form : Form) (hash : String)
    → q.body ≡ some form
    → password_hash site s ≡ some hash
    → (handle_change_password site q s).0.0 ≡ ok
    → MayChange site form hash s (handle_change_password site q s)
unfolding handle_change_password
password_change_ends_sessions site q s form hash b p h =
    let h' = rw (handle_change_password, b, p) at h in
    let (_, e) =
      falls_through (password_is_pinned site) ((forbidden, kept), s) (check_change site form hash s)
        (λ x. ground (arith, x)) h' in
    rw (handle_change_password, b, p, e)
      (check_change-MayChange site form hash s (sym (ap (λ r. r.0.0) e) ∙ h'))
