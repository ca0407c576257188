-- ===== src/Api/Routes.antt =====
-- The endpoints: `routes` and `handleAuthStatus` of internal/api/server.go.
pub mod Callers
pub mod Guarded
pub mod Sessions
pub mod Password
use canarium.Api.Passwords.{password_hash}
use canarium.Api.Control.{handle_proceed, handle_abort, handle_set_mode}
use canarium.Api.Access.{authenticate, show, Handler, require_scope}
use canarium.Api.Setup.{handle_change_password, handle_setup}
use canarium.Api.Login.{handle_logout, handle_login}
use canarium.Api.Server.{ok, kept, internal_error, Server}
use canarium.Common.{
  ℕ, ◌+◌, ◌*◌, ◌==◌, String, Bool, true, false, not, ◌&&◌, ◌||◌, Option, none, some, is_empty, same,
  ltb, leb, if◌then◌else◌, ◌⊎◌, inl, inr,
}

unfoldable handle_auth_status : Handler
unfolding password_hash authenticate
handle_auth_status site q s = elim (password_hash site s) [
  | none ↦ ((internal_error, kept), s)
  | some hash ↦ ((ok, kept), if is_empty hash then s else (authenticate site q s).1)
]

pub data Endpoint : Type 0 where
  health auth_status login logout setup_password change_password : Endpoint
  status facts clients plans sequence websocket : Endpoint
  mode abort proceed : Endpoint

-- `routes`
unfoldable pub serve : Endpoint → Handler
unfolding handle_auth_status handle_login handle_logout handle_setup require_scope
    handle_change_password handle_set_mode handle_abort handle_proceed
serve health = show
serve auth_status = handle_auth_status
serve login = handle_login
serve logout = handle_logout
serve setup_password = handle_setup
serve change_password = require_scope "admin" handle_change_password
serve status = require_scope "read" show
serve facts = require_scope "read" show
serve clients = require_scope "read" show
serve plans = require_scope "read" show
serve sequence = require_scope "read" show
serve websocket = require_scope "read" show
serve mode = require_scope "admin" handle_set_mode
serve abort = require_scope "admin" handle_abort
serve proceed = require_scope "admin" handle_proceed
