-- ===== src/Engine/Types/Roundtrip.antt =====
-- States and modes survive being written as text (internal/engine/types.go).
use canarium.Common.{◌≡◌, refl, true}
use canarium.Common.Text.{trim_space, lower_is}
use canarium.Engine.Types.{
  ClientState, client_state_text, parse_client_state, Mode, mode_text, parse_mode_strict, unknown,
  up, shutting_down, down, down_unverified, waking, failed, disarmed, dry_run, armed,
}

client_state_roundtrip : (s : ClientState) → parse_client_state (client_state_text s) ≡ s
unfolding parse_client_state client_state_text
client_state_roundtrip unknown = refl
client_state_roundtrip up = refl
client_state_roundtrip shutting_down = refl
client_state_roundtrip down = refl
client_state_roundtrip down_unverified = refl
client_state_roundtrip waking = refl
client_state_roundtrip failed = refl

mode_roundtrip : (m : Mode) → parse_mode_strict (mode_text m) ≡ (m, true)
unfolding parse_mode_strict mode_text trim_space lower_is
mode_roundtrip disarmed = refl
mode_roundtrip dry_run = refl
mode_roundtrip armed = refl

-- A client state and a mode that are written to the database and read back are the same.
state_and_mode_roundtrip :
    (s : ClientState) (m : Mode)
    → (parse_client_state (client_state_text s) ≡ s) × (parse_mode_strict (mode_text m) ≡ (m, true))
state_and_mode_roundtrip s m = (client_state_roundtrip s, mode_roundtrip m)
