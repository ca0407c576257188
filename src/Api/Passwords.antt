-- ===== src/Api/Passwords.antt =====
-- Passwords: `verifyPassword` of internal/api/password.go, `validatePasswordStrength` and
-- `passwordHash` of server.go.
use Prim.Native.Char.{code}
use canarium.Api.Accounts.{get_password_hash}
use canarium.Common.Text.{has_prefix, trim_space}
use canarium.Api.Server.{Crypto, Site, Server}
use canarium.Common.{
  ℕ, ◌+◌, ◌==◌, String, Bool, true, false, not, ◌&&◌, ◌||◌, Option, none, some, is_empty, same, ltb,
  leb, if◌then◌else◌,
}

abbrev char_bytes : ℕ → ℕ
char_bytes c = if ltb c 0x80 then 1 else if ltb c 0x800 then 2 else if ltb c 0x10000 then 3 else 4

-- `len` of a Go string, its bytes in UTF-8.
unfoldable byte_length : String → ℕ
byte_length String.[] = 0
byte_length (String.◌∷◌ c s) = char_bytes (code c) + byte_length s

abbrev is_hex_digit : ℕ → Bool
is_hex_digit c = leb b'0' c && leb c b'9' || leb b'a' c && leb c b'f' || leb b'A' c && leb c b'F'

unfoldable is_hex : String → Bool
is_hex String.[] = true
is_hex (String.◌∷◌ c s) = is_hex_digit (code c) && is_hex s

-- `isLegacySHA256Hash`
unfoldable is_legacy_hash : String → Bool
unfolding is_hex byte_length
is_legacy_hash stored = not (has_prefix stored "$2") && byte_length stored == 64 && is_hex stored

-- Whether the password matches, and whether its hash is to be replaced.
unfoldable pub verify_password : Crypto → String → String → Bool × Bool
unfolding is_legacy_hash
verify_password c stored supplied =
    if is_empty stored
    then (false, false)
    else if is_legacy_hash stored
    then (if same (c.digest supplied) stored then (true, true) else (false, false))
    else (c.bcrypt_matches stored (c.prehash supplied), false)

abbrev pub hash_password : Crypto → String → Option String
hash_password c password = c.bcrypt (c.prehash password)

unfoldable pub password_is_strong : String → Bool
unfolding byte_length
password_is_strong password =
    leb 12 (byte_length password)
    && leb (byte_length password) 1024
    && not (is_empty (trim_space password))

abbrev pinned_hash : Site → String
pinned_hash site = trim_space site.setup.cfg.canarium.auth.password_hash

abbrev pub password_is_pinned : Site → Bool
password_is_pinned site = not (is_empty (pinned_hash site))

-- `passwordHash`; `none` is an error.
unfoldable pub password_hash : Site → Server → Option String
unfolding get_password_hash
password_hash site s =
    if password_is_pinned site
    then some (pinned_hash site)
    else if s.reads_ok
    then some (get_password_hash s.accounts)
    else none
