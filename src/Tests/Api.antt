-- ===== src/Tests/Api.antt =====
-- The theorems on the endpoints, at a small server (internal/api/server.go).
use canarium.Common.Dict.{insert, lookup}
use canarium.Common.Text.{drop_prefix, trim_space}
use canarium.Api.Routes.{mode, proceed, serve}
use canarium.Api.Routes.Guarded.{
  strangers_get_nothing, only_operators_act, operators_are_let_in, Refused,
}
use canarium.Api.Routes.Sessions.{login_opens_session}
use canarium.Api.Routes.Password.{
  setup_never_replaces, password_change_ends_sessions, Keeps, MayChange,
}
use canarium.Api.Access.{bearer_token, authenticate}
use canarium.Api.Control.{handle_proceed}
use canarium.Api.Login.{handle_login}
use canarium.Api.Setup.{handle_setup, finish_setup, handle_change_password}
use canarium.Api.Limiter.{allow, FailureLimiter}
use canarium.Api.Accounts.{unix}
use canarium.Api.Passwords.{verify_password, password_hash}
use canarium.Api.Server.{Crypto, Site, Server, Form, Request, session_ttl}
use canarium.Common.Int.{time_sub, pos, time_add}
use canarium.Config.Types.{second}
use canarium.Tests.Fixtures.{active, with_active, test_setup}
use canarium.Common.{
  false, ◌*◌, String, true, [], ◌∷◌, none, some, ◌≡◌, refl, same, ltb, if◌then◌else◌,
}

abbrev crypto : Crypto
crypto = record {
  digest = λ s. s;
  prehash = λ s. s;
  bcrypt = λ s. some s;
  bcrypt_matches = λ stored s. same stored s;
  new_session_token = λ now. some "fresh";
}

abbrev site : Site
site = record { setup = test_setup; crypto = crypto }

abbrev no_failures : FailureLimiter
no_failures = record {
  entries = [];
  max_failures = 5;
  window = pos (300 * second);
  lockout = pos (300 * second);
  last_gc = 0;
}

-- A server with a password, a token that may read and one that may act.
abbrev server : Server
server = record {
  executor = with_active active;
  accounts = record {
    password = some "correct horse";
    sessions = ("old", 50000) ∷ [];
    tokens =
        ("reader", record { name = "wall display"; scope = "read"; last_used = 0 })
        ∷ ("actor", record { name = "home automation"; scope = "admin"; last_used = 0 })
        ∷ [];
  };
  login_limiter = no_failures;
  setup_limiter = no_failures;
  reads_ok = true;
  writes_ok = true;
  deletes_ok = true;
}

abbrev filled : Form
filled = record {
  mode = "armed";
  reason = "";
  password = "correct horse";
  current_password = "correct horse";
  new_password = "battery staple";
}

abbrev bare : Request
bare = record {
  source = "192.0.2.7";
  now = 1000 * second;
  authorization = "";
  cookie = none;
  body = some filled;
}

strangers_get_nothing_example : Refused server (serve mode site bare server)
unfolding bearer_token trim_space
strangers_get_nothing_example = strangers_get_nothing mode site bare server refl refl

abbrev reader : Request
reader = record bare { authorization = "Bearer reader"; cookie = some "old" }

only_operators_act_example : Refused server (serve proceed site reader server)
unfolding bearer_token trim_space drop_prefix lookup
only_operators_act_example = only_operators_act proceed site reader server refl refl

abbrev actor : Request
actor = record bare { authorization = "Bearer actor" }

operators_are_let_in_example :
    serve proceed site actor server ≡ handle_proceed site actor (authenticate site actor server).1
unfolding bearer_token password_hash trim_space drop_prefix lookup
operators_are_let_in_example =
    operators_are_let_in proceed site actor server "correct horse" refl refl refl refl refl

abbrev back : String → Request
back value = record bare { cookie = some value; now = 2000 * second }

-- Another session has been opened and the database refuses writes since.
abbrev logged_in : Server
logged_in =
    let after = (handle_login site bare server).1 in
    record after {
      accounts = record (after.accounts) { sessions = insert "another" 7 after.accounts.sessions };
      writes_ok = false;
    }

login_opens_session_example :
    ((verify_password crypto "correct horse" "correct horse").0 ≡ true)
    × ((authenticate site (back "fresh") logged_in).0 ≡ (
        if ltb (unix (2000 * second)) (unix (time_add (1000 * second) session_ttl))
        then some "admin"
        else none))
unfolding bearer_token password_hash handle_login trim_space allow lookup insert time_sub
login_opens_session_example =
    login_opens_session site bare (back "fresh") server logged_in filled "correct horse" "fresh"
      refl refl refl refl refl refl refl

setup_never_replaces_example :
    Keeps server.accounts (handle_setup site bare server)
    × Keeps server.accounts (finish_setup "battery staple" site bare server)
setup_never_replaces_example =
    setup_never_replaces site bare "battery staple" "correct horse" server refl

password_change_ends_sessions_example :
    MayChange site filled "correct horse" server (handle_change_password site bare server)
unfolding password_hash handle_change_password trim_space
password_change_ends_sessions_example =
    password_change_ends_sessions site bare server filled "correct horse" refl refl refl
