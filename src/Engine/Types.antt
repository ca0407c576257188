-- ===== src/Engine/Types.antt =====
-- internal/engine/types.go: client states, actions and modes.
pub mod Roundtrip
use canarium.Common.{ℕ, String, Bool, true, false, ◌||◌, Option, none, some, same, if◌then◌else◌}
use canarium.Common.Text.{trim_space, lower_is}

pub data ClientState : Type 0 where
  unknown up shutting_down down down_unverified waking failed : ClientState

pub ClientState-discrete : Discrete ClientState
ClientState-discrete = hlevel

unfoldable pub client_state_text : ClientState → String
client_state_text up = "up"
client_state_text shutting_down = "shutting_down"
client_state_text down = "down"
client_state_text down_unverified = "down_unverified"
client_state_text waking = "waking"
client_state_text failed = "failed"
client_state_text unknown = "unknown"

unfoldable pub parse_client_state : String → ClientState
parse_client_state s =
    if same s "up"
    then up
    else if same s "shutting_down"
    then shutting_down
    else if same s "down"
    then down
    else if same s "down_unverified"
    then down_unverified
    else if same s "waking"
    then waking
    else if same s "failed"
    then failed
    else unknown

-- `a == b` on client states, by their place in the declaration.
abbrev pub state_index : ClientState → ℕ
state_index unknown = 0
state_index up = 1
state_index shutting_down = 2
state_index down = 3
state_index down_unverified = 4
state_index waking = 5
state_index failed = 6

pub data ActionType : Type 0 where
  shutdown wake probe poe_off poe_on outlet_off outlet_on : ActionType

abbrev pub is_probe : ActionType → Bool
is_probe probe = true
is_probe _ = false

pub data Mode : Type 0 where
  disarmed dry_run armed : Mode

unfoldable pub mode_text : Mode → String
mode_text dry_run = "dry-run"
mode_text armed = "armed"
mode_text disarmed = "disarmed"

abbrev pub is_disarmed : Mode → Bool
is_disarmed disarmed = true
is_disarmed _ = false

abbrev pub is_dry_run : Mode → Bool
is_dry_run dry_run = true
is_dry_run _ = false

-- The mode, and whether its name was recognised.
unfoldable pub parse_mode_strict : String → Mode × Bool
parse_mode_strict s =
    let t = trim_space s in
    if lower_is t "disarmed"
    then (disarmed, true)
    else if lower_is t "dry-run" || lower_is t "dryrun" || lower_is t "dry_run"
    then (dry_run, true)
    else if lower_is t "armed"
    then (armed, true)
    else (disarmed, false)

unfoldable pub parse_mode : String → Mode
unfolding parse_mode_strict
parse_mode s = (parse_mode_strict s).0

unfoldable pub action_text : ActionType → String
action_text shutdown = "shutdown"
action_text wake = "wake"
action_text probe = "probe"
action_text poe_off = "poe_off"
action_text poe_on = "poe_on"
action_text outlet_off = "outlet_off"
action_text outlet_on = "outlet_on"
